-- ===== src/Cpu/Statements/Execute.antt =====
-- The instruction cycle does what the statements mean.
use old_so_tp.Prelude.{
  ℕ, ◌+◌, ◌-◌, ◌%◌, ◌^◌, ◌<◌, ◌≤◌, ◌≡◌, refl, ap, ◌∙◌, some, List, [], ◌∷◌, length, ◌==◌, arith,
  Bool-cases, inl, inr,
}
use old_so_tp.Prelude.Int.{to_word}
use old_so_tp.Prelude.CString.{CString}
use old_so_tp.Prelude.Decimal.{atoi}
use old_so_tp.Commons.{Commons}
use old_so_tp.Shared.Process.{Pcb}
use old_so_tp.Shared.Instructions.{
  InstructionType, translate_instruction, set_op, sum_op, sub_op, jnz_op, mov_in_op, mov_out_op,
  sleep_op, wait_op, signal_op, exit_op,
}
use old_so_tp.Shared.Instructions.Names.{translate_instruction-same}
use old_so_tp.Cpu.Execution.{
  Word, next, with_register, branch, execute_instruction_cycle, register, identifier,
}
use old_so_tp.Cpu.Statements.{
  Register, ax, bx, cx, dx, place, register_name, Statement, set_to, jump, add_to, subtract,
  move_in, move_out, sleeps, acquires, releases, exits, words_of, placed, IsName, IsValid, meaning,
  value_of,
}
use old_so_tp.Cpu.Statements.Parse.{
  param_of-register, param_of-name, set_register-set, parse-one, parse-two, index_at-get_elem?,
  register_at-value_of,
}

place-lt : (r : Register) (registers : List ℕ) → 4 ≤ length registers → place r < length registers
place-lt ax registers h = omega arith
place-lt bx registers h = omega arith
place-lt cx registers h = omega arith
place-lt dx registers h = omega arith

-- The word of an array for a register.
abbrev named : ℕ → Register → Word
named a r = record { address = a; text = register_name r }

module _ (lib : Commons) (pcb : Pcb) where
  set_lem :
      (w v : Word) (a : ℕ) (r : Register)
      → 4 ≤ length pcb.cpu_register
      → branch lib pcb (w ∷ named a r ∷ v ∷ []) set_op ≡ some (meaning (set_to r v.text) pcb)
  unfolding branch
  set_lem w v a r four = rw (parse-one lib w (named a r) (v ∷ [])) (
      rw (param_of-register a r) (
        rw (index_at-get_elem? lib (register (place r) ∷ []) 0 _ refl) (
          ap (λ l. some (with_register pcb l))
            (set_register-set lib pcb.cpu_register (place r) (to_word (atoi v.text))
              (place-lt r pcb.cpu_register four)))))

  jump_lem :
      (w v : Word) (a : ℕ) (r : Register)
      → 4 ≤ length pcb.cpu_register
      → branch lib pcb (w ∷ named a r ∷ v ∷ []) jnz_op ≡ some (meaning (jump r v.text) pcb)
  unfolding branch
  jump_lem w v a r four = rw (parse-one lib w (named a r) (v ∷ [])) (
      rw (param_of-register a r) (
        rw (index_at-get_elem? lib (register (place r) ∷ []) 0 _ refl) (
          rw (register_at-value_of lib pcb.cpu_register r) (
            rw
              (lib.list_add_in_index_lem pcb.cpu_register (place r) (to_word (atoi v.text))
                (let p = place-lt r pcb.cpu_register four in omega arith))
              (elim (Bool-cases (value_of pcb.cpu_register r == 0)) [
                | inl stay ↦ rw stay refl
                | inr taken ↦ rw taken refl
              ])))))

  add_lem :
      (w : Word) (a b : ℕ) (d o : Register)
      → 4 ≤ length pcb.cpu_register
      → branch lib pcb (w ∷ named a d ∷ named b o ∷ []) sum_op ≡ some (meaning (add_to d o) pcb)
  unfolding branch
  add_lem w a b d o four = rw (parse-two lib w (named a d) (named b o) []) (
      rw (param_of-register a d) (
        rw (param_of-register b o) (
          rw (index_at-get_elem? lib (register (place d) ∷ register (place o) ∷ []) 0 _ refl) (
            rw (index_at-get_elem? lib (register (place d) ∷ register (place o) ∷ []) 1 _ refl) (
              rw (register_at-value_of lib pcb.cpu_register d) (
                rw (register_at-value_of lib pcb.cpu_register o) (
                  ap (λ l. some (with_register pcb l))
                    (set_register-set lib pcb.cpu_register (place d)
                      ((value_of pcb.cpu_register d + value_of pcb.cpu_register o) % 2 ^ 32)
                      (place-lt d pcb.cpu_register four)))))))))

  subtract_lem :
      (w : Word) (a b : ℕ) (d o : Register)
      → 4 ≤ length pcb.cpu_register
      → branch lib pcb (w ∷ named a d ∷ named b o ∷ []) sub_op ≡ some (meaning (subtract d o) pcb)
  unfolding branch
  subtract_lem w a b d o four = rw (parse-two lib w (named a d) (named b o) []) (
      rw (param_of-register a d) (
        rw (param_of-register b o) (
          rw (index_at-get_elem? lib (register (place d) ∷ register (place o) ∷ []) 0 _ refl) (
            rw (index_at-get_elem? lib (register (place d) ∷ register (place o) ∷ []) 1 _ refl) (
              rw (register_at-value_of lib pcb.cpu_register d) (
                rw (register_at-value_of lib pcb.cpu_register o) (
                  ap (λ l. some (with_register pcb l))
                    (set_register-set lib pcb.cpu_register (place d)
                      ((value_of pcb.cpu_register d
                          + (2 ^ 32 - value_of pcb.cpu_register o % 2 ^ 32))
                        % 2 ^ 32)
                      (place-lt d pcb.cpu_register four)))))))))

  report_lem :
      (w v : Word)
      → IsName v.text
      → (branch lib pcb (w ∷ v ∷ []) sleep_op ≡ some (meaning (sleeps v.text) pcb))
        × (branch lib pcb (w ∷ v ∷ []) wait_op ≡ some (meaning (acquires v.text) pcb))
        × (branch lib pcb (w ∷ v ∷ []) signal_op ≡ some (meaning (releases v.text) pcb))
  unfolding branch
  report_lem w v h =
      rw (parse-one lib w v [])
        (rw (param_of-name v h) (rw (lib.list_get_lem (identifier v ∷ []) 0) (refl, refl, refl)))

  move_lem :
      (w a b : Word)
      → (branch lib pcb (w ∷ a ∷ b ∷ []) mov_in_op ≡ some (next pcb))
        × (branch lib pcb (w ∷ a ∷ b ∷ []) mov_out_op ≡ some (next pcb))
  unfolding branch
  move_lem w a b = rw (parse-two lib w a b []) (refl, refl)

module _ (lib : Commons) (string_split : CString → List Word) where
  execute-branch :
      (pcb : Pcb) (text : CString) (w : Word) (ws : List Word) (t : InstructionType)
      → string_split text ≡ w ∷ ws
      → translate_instruction w.text ≡ t
      → execute_instruction_cycle lib string_split pcb text ≡ branch lib pcb (w ∷ ws) t
  unfolding execute_instruction_cycle
  execute-branch pcb text w ws t e h = rw e (ap (branch lib pcb (w ∷ ws)) h)

  -- For each form of SET, JNZ, SUM, SUB, MOV_IN, MOV_OUT, SLEEP, WAIT, SIGNAL and EXIT with
  -- registers where they are meant and names that are none, on a control block with at least four
  -- registers, `execute_instruction_cycle` returns what `meaning` says: SET, SUM and SUB write one
  -- register modulo 2^32, a JNZ whose register is not 0 inserts its number before that register,
  -- MOV_IN and MOV_OUT do nothing, and the others report the control block as it is.
  pub execute_instruction_cycle-meaning :
      (address : ℕ → ℕ) (s : Statement) (pcb : Pcb) (text : CString)
      → string_split text ≡ placed address 0 (words_of s)
      → IsValid s
      → 4 ≤ length pcb.cpu_register
      → execute_instruction_cycle lib string_split pcb text ≡ some (meaning s pcb)
  unfolding branch
  execute_instruction_cycle-meaning address (set_to r value) pcb text e v four =
      execute-branch pcb text _ _ set_op e (translate_instruction-same set_op)
      ∙ set_lem lib pcb _ _ (address 1) r four
  execute_instruction_cycle-meaning address (jump r target) pcb text e v four =
      execute-branch pcb text _ _ jnz_op e (translate_instruction-same jnz_op)
      ∙ jump_lem lib pcb _ _ (address 1) r four
  execute_instruction_cycle-meaning address (add_to d o) pcb text e v four =
      execute-branch pcb text _ _ sum_op e (translate_instruction-same sum_op)
      ∙ add_lem lib pcb _ (address 1) (address 2) d o four
  execute_instruction_cycle-meaning address (subtract d o) pcb text e v four =
      execute-branch pcb text _ _ sub_op e (translate_instruction-same sub_op)
      ∙ subtract_lem lib pcb _ (address 1) (address 2) d o four
  execute_instruction_cycle-meaning address (move_in to from) pcb text e v four =
      execute-branch pcb text _ _ mov_in_op e (translate_instruction-same mov_in_op)
      ∙ (move_lem lib pcb _ _ _).0
  execute_instruction_cycle-meaning address (move_out to from) pcb text e v four =
      execute-branch pcb text _ _ mov_out_op e (translate_instruction-same mov_out_op)
      ∙ (move_lem lib pcb _ _ _).1
  execute_instruction_cycle-meaning address (sleeps time) pcb text e v four =
      execute-branch pcb text _ _ sleep_op e (translate_instruction-same sleep_op)
      ∙ (report_lem lib pcb _ _ v).0
  execute_instruction_cycle-meaning address (acquires resource) pcb text e v four =
      execute-branch pcb text _ _ wait_op e (translate_instruction-same wait_op)
      ∙ (report_lem lib pcb _ _ v).1
  execute_instruction_cycle-meaning address (releases resource) pcb text e v four =
      execute-branch pcb text _ _ signal_op e (translate_instruction-same signal_op)
      ∙ (report_lem lib pcb _ _ v).2
  execute_instruction_cycle-meaning address exits pcb text e v four =
      execute-branch pcb text _ _ exit_op e (translate_instruction-same exit_op)
