-- ===== src/Memory/Program/Overflow.antt =====
-- What becomes of a request for an instruction (memory/src/memory.c, `get_instruction_from_file`).
use old_so_tp.Prelude.{
  ℕ, zero, suc, ◌<◌, ◌≡◌, refl, Option, none, some, [], ◌∷◌, length, ◌==◌, Bool-cases, inl, inr,
  arith, ◌>>=◌,
}
use old_so_tp.Prelude.Int.{ℤ, pos, negsuc}
use old_so_tp.Prelude.CString.{CString, codes}
use old_so_tp.Shared.Instructions.{send_instruction}
use old_so_tp.Shared.Process.{Pcb}
use old_so_tp.Shared.Socket.{Outgoing}
use old_so_tp.Memory.Program.{
  take_line, fgets, stored, line_loop, cut_newline, get_instruction_from_file, handle_instruction,
}

-- An empty text where no line is read, and an overflow of the heap where one is.
abbrev pub outcome : CString → ℤ → Outgoing → Option Outgoing
outcome [] program_counter s = send_instruction s []
outcome (c ∷ file) (pos n) s = none
outcome (c ∷ file) (negsuc n) s = send_instruction s []

-- A line that is read is not empty.
take_line-pos : (n c : ℕ) (file : CString) → 0 < length ((take_line (suc n) (c ∷ file)).0)
unfolding take_line
take_line-pos n c file = elim (Bool-cases (c == 10)) [
  | inl e ↦ rw e (omega arith)
  | inr e ↦ rw e (omega arith)
]

stored-overflows : (line : CString) → 0 < length line → stored 1 line ≡ none
unfolding stored
stored-overflows [] h = absurd (omega arith)
stored-overflows (c ∷ line) h = ground arith

line_loop-overflows :
    (left c : ℕ) (file line_instruction : CString)
    → line_loop (suc left) (c ∷ file) line_instruction ≡ none
unfolding line_loop fgets
line_loop-overflows left c file line_instruction =
    rw (stored-overflows ((take_line 1023 (c ∷ file)).0) (take_line-pos 1022 c file)) refl

line_loop-empty : (left : ℕ) (line : CString) → line_loop left [] line ≡ some line
unfolding line_loop fgets
line_loop-empty zero line = refl
line_loop-empty (suc left) line = line_loop-empty left line

-- The text that is found, sent.
instruction-outcome :
    (file : CString) (n : ℤ) (s : Outgoing)
    → (get_instruction_from_file (some file) n >>= send_instruction s) ≡ outcome file n s
unfolding get_instruction_from_file line_loop cut_newline
instruction-outcome [] (pos n) s = rw (line_loop-empty n []) refl
instruction-outcome [] (negsuc n) s = refl
instruction-outcome (c ∷ file) (pos n) s = rw (line_loop-overflows n c file []) refl
instruction-outcome (c ∷ file) (negsuc n) s = refl

module _ (string_append : CString → CString → CString) (files : CString → Option CString) where
  -- When the file of a process can be opened, `handle_instruction` overflows the heap if the file
  -- is not empty and the program counter is not negative: the line does not fit the one byte that
  -- is allocated for it. Otherwise it sends the empty text.
  pub handle_instruction-outcome :
      (instruction_path : CString) (s : Outgoing) (pcb : Pcb) (file : CString)
      → files
          (string_append (string_append (string_append [] instruction_path) (codes "/")) pcb.path)
        ≡ some file
      → handle_instruction string_append files instruction_path s pcb
        ≡ outcome file pcb.program_counter s
  unfolding handle_instruction
  handle_instruction-outcome instruction_path s pcb file opens =
      rw opens (instruction-outcome file pcb.program_counter s)
