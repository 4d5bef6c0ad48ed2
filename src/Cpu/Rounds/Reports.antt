-- ===== src/Cpu/Rounds/Reports.antt =====
-- What the execution of a process reports to the kernel.
use old_so_tp.Prelude.{
  ℕ, suc, zero, ◌≤◌, ◌≡◌, refl, ap, sym, subst, Option, none, some, Bool, false, List, [], ◌∷◌,
  ◌++◌, length, length-set, ◌==◌, ◌⊎◌, inl, inr, Bool-cases, if◌then◌else◌, arith, append-nil,
}
use old_so_tp.Prelude.Int.{to_word}
use old_so_tp.Prelude.CString.{CString}
use old_so_tp.Prelude.Decimal.{atoi}
use old_so_tp.Prelude.Run.{Run, done, waits}
use old_so_tp.Commons.{Commons, insert_at}
use old_so_tp.Shared.Process.{Pcb}
use old_so_tp.Kernel.Connection.{CpuReport, interrupted}
use old_so_tp.Cpu.Execution.{Word, Cycle, next, reports}
use old_so_tp.Cpu.Statements.{
  Statement, set_to, jump, add_to, subtract, move_in, move_out, sleeps, acquires, releases, exits,
  words_of, placed, IsValid, meaning, value_of, place, Register, ax, bx, cx, dx,
}
use old_so_tp.Cpu.Statements.Execute.{execute_instruction_cycle-meaning}
use old_so_tp.Cpu.Rounds.{Cpu, Round, advance, wait_mutex, process_loop}

-- A statement of the program, and whether an interrupt arrives with it.
pub record Line : Type 0 where
  pub statement : Statement
  pub interrupt_arrives : Bool

-- How a run ends: its report, and whether an interrupt came together with it.
pub record Ending : Type 0 where
  pub report : CpuReport
  pub with_interrupt : Bool

-- How a run ends with one cycle, or by what follows.
abbrev pub ends_with : Bool → Cycle → (Pcb → Option Ending) → Option Ending
ends_with interrupt_arrives c later =
    let cut : Ending = record { report = interrupted (advance c.pcb); with_interrupt = false } in
    elim c.sent [
      | [] ↦ if interrupt_arrives then some cut else later (advance c.pcb)
      | report ∷ _ ↦ some (record { report = report; with_interrupt = interrupt_arrives })
    ]

-- The first statement that reports ends the run, and so does the first interrupt.
abbrev pub ending : List Line → Pcb → Option Ending
ending [] pcb = none
ending (l ∷ ls) pcb = ends_with l.interrupt_arrives (meaning l.statement pcb) (ending ls)

-- A statement goes on with at least four registers, or reports.
abbrev Steps : Pcb → Cycle → Type 0
Steps pcb c =
    ((p : Pcb) × (c ≡ next p) × (4 ≤ length p.cpu_register))
    ⊎ ((report : CpuReport) × (c ≡ reports pcb report))

insert_at-length :
    (xs : List ℕ) (i a : ℕ) → i ≤ length xs → length (insert_at xs i a) ≡ suc (length xs)
insert_at-length xs zero a h = refl
insert_at-length [] (suc i) a h = absurd (omega arith)
insert_at-length (x ∷ xs) (suc i) a h = ap suc (insert_at-length xs i a (omega arith))

place-small : (r : Register) → suc (place r) ≤ 4
place-small ax = omega arith
place-small bx = omega arith
place-small cx = omega arith
place-small dx = omega arith

meaning-Steps :
    (s : Statement) (pcb : Pcb) → 4 ≤ length pcb.cpu_register → Steps pcb (meaning s pcb)
meaning-Steps (set_to r value) pcb h =
    inl (_, refl, omega (arith, length-set pcb.cpu_register (place r)))
meaning-Steps (add_to d o) pcb h =
    inl (_, refl, omega (arith, length-set pcb.cpu_register (place d)))
meaning-Steps (subtract d o) pcb h =
    inl (_, refl, omega (arith, length-set pcb.cpu_register (place d)))
meaning-Steps (jump r target) pcb h = elim (Bool-cases (value_of pcb.cpu_register r == 0)) [
  | inl stay ↦ rw stay (inl (pcb, refl, h))
  | inr taken ↦ rw taken (
      inl (
        _,
        refl,
        let small = place-small r in
            let grown =
              insert_at-length pcb.cpu_register (place r) (to_word (atoi target)) (omega arith) in
            omega arith,
      ))
]
meaning-Steps (move_in to from) pcb h = inl (pcb, refl, h)
meaning-Steps (move_out to from) pcb h = inl (pcb, refl, h)
meaning-Steps (sleeps time) pcb h = inr (_, refl)
meaning-Steps (acquires resource) pcb h = inr (_, refl)
meaning-Steps (releases resource) pcb h = inr (_, refl)
meaning-Steps exits pcb h = inr (_, refl)

-- A CPU that no interrupt has reached yet.
abbrev pub undisturbed : ℕ → List CpuReport → Cpu
undisturbed n sent = record { has_interrupt = false; mutex_interrupt = suc n; sent = sent }

-- The CPU after a run: one report more, and the mutex taken if an interrupt came with the report.
abbrev pub after : ℕ → List CpuReport → Ending → Cpu
after n sent e = record {
  has_interrupt = false;
  mutex_interrupt = if e.with_interrupt then n else suc n;
  sent = sent ++ e.report ∷ [];
}

abbrev pub Outcome : ℕ → List CpuReport → Option Ending → Run (Cpu × List Round) → Type 0
Outcome n sent none run = run ≡ waits
Outcome n sent (some e) run = (rest : List Round) × (run ≡ done (after n sent e, rest))

module _ (lib : Commons) (string_split : CString → List Word) where
  -- The texts that the memory answers are those of the statements.
  abbrev pub RoundsAre : List Round → List Line → Type 0
  RoundsAre [] [] = Unit {0}
  RoundsAre (r ∷ rounds) (l ∷ lines) =
      ((address : ℕ → ℕ) × (string_split r.instruction ≡ placed address 0 (words_of l.statement)))
      × IsValid l.statement
      × (r.interrupt_arrives ≡ l.interrupt_arrives)
      × RoundsAre rounds lines
  RoundsAre [] (l ∷ lines) = ⊥
  RoundsAre (r ∷ rounds) [] = ⊥

  -- When the memory answers with statements and the control block has at least four registers, the
  -- loop of `execute_process`, with `has_interrupt` unset and the mutex free, waits for the memory
  -- if no statement reports and no interrupt arrives; otherwise it returns and has sent exactly
  -- one message more, the report of the first statement that reports, or the interrupted control
  -- block with the program counter behind the last statement, whichever ends the run. It leaves
  -- `has_interrupt` unset, and the mutex taken exactly when an interrupt arrived with the report.
  pub process_loop-Outcome :
      (rounds : List Round) (lines : List Line) (n : ℕ) (sent : List CpuReport) (pcb : Pcb)
      → RoundsAre rounds lines
      → 4 ≤ length pcb.cpu_register
      → Outcome n sent
          (ending lines pcb)
          (process_loop lib string_split rounds (undisturbed n sent) pcb)
  unfolding process_loop wait_mutex
  process_loop-Outcome [] [] n sent pcb a h = refl
  process_loop-Outcome [] (l ∷ lines) n sent pcb a h = absurd a
  process_loop-Outcome (r ∷ rounds) [] n sent pcb a h = absurd a
  process_loop-Outcome (r ∷ rounds) (l ∷ lines) n sent pcb a h =
      let ((address, words), valid, same, others) = a in
      let e =
        execute_instruction_cycle-meaning lib string_split address l.statement pcb r.instruction
          words valid h in
      let run = process_loop lib string_split (r ∷ rounds) (undisturbed n sent) pcb in
      let by_cycle : (c : Cycle)
          → meaning l.statement pcb ≡ c
          → Outcome n sent (ends_with l.interrupt_arrives c (ending lines)) run
          → Outcome n sent (ending (l ∷ lines) pcb) run =
        λ c same_cycle.
          subst (λ d. Outcome n sent (ends_with l.interrupt_arrives d (ending lines)) run)
            (sym same_cycle) in
      elim (meaning-Steps l.statement pcb h) [
        | inl (p, goes, four) ↦ by_cycle (next p) goes (
            rw e (
              rw same (
                rw goes (elim (Bool-cases l.interrupt_arrives) [
                  | inl comes ↦ rw comes (
                    rounds,
                    ap
                        (λ l. done (
                          record (undisturbed n []) { sent = l ++ interrupted (advance p) ∷ [] },
                          rounds,
                        ))
                        (append-nil sent),
                  )
                  | inr quiet ↦ rw quiet (
                      rw append-nil
                        (process_loop-Outcome rounds lines n sent (advance p) others four))
                ]))))
        | inr (report, stops) ↦ by_cycle (reports pcb report) stops (
            rw e (
              rw same (
                rw stops (elim (Bool-cases l.interrupt_arrives) [
                  | inl comes ↦ rw comes (rounds, refl)
                  | inr quiet ↦ rw quiet (rounds, refl)
                ]))))
      ]
