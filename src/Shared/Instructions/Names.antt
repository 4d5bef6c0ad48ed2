-- ===== src/Shared/Instructions/Names.antt =====
-- The names of the instructions.
use old_so_tp.Prelude.{
  ◌≡◌, ◌≢◌, ◌↔◌, ◌⊎◌, inl, inr, refl, ap, sym, ◌∙◌, List, [], ◌∷◌, Bool-cases, if◌then◌else◌,
}
use old_so_tp.Prelude.CString.{CString, codes, str_eq, str_eq_sound}
use old_so_tp.Shared.Instructions.{
  InstructionType, set_op, sum_op, sub_op, jnz_op, sleep_op, wait_op, signal_op, mov_in_op,
  mov_out_op, f_open_op, f_close_op, f_seek_op, exit_op, f_read_op, f_write_op, f_truncate_op,
  no_op, translate_instruction,
}

-- The spelling of each instruction in a program.
abbrev pub spelling : InstructionType → CString
spelling set_op = codes "SET"
spelling sum_op = codes "SUM"
spelling sub_op = codes "SUB"
spelling jnz_op = codes "JNZ"
spelling sleep_op = codes "SLEEP"
spelling wait_op = codes "WAIT"
spelling signal_op = codes "SIGNAL"
spelling mov_in_op = codes "MOV_IN"
spelling mov_out_op = codes "MOV_OUT"
spelling f_open_op = codes "F_OPEN"
spelling f_close_op = codes "F_CLOSE"
spelling f_seek_op = codes "F_SEEK"
spelling exit_op = codes "EXIT"
spelling f_read_op = codes "F_READ"
spelling f_write_op = codes "F_WRITE"
spelling f_truncate_op = codes "F_TRUNCATE"
spelling no_op = codes "NO_OP"

-- The first of some instructions with a given spelling.
abbrev spelled : List InstructionType → CString → InstructionType
spelled [] s = no_op
spelled (t ∷ ts) s = if str_eq s (spelling t) then t else spelled ts s

abbrev tested : List InstructionType
tested =
    set_op ∷ sum_op ∷ sub_op ∷ jnz_op ∷ wait_op ∷ exit_op ∷ sleep_op ∷ f_read_op ∷ f_open_op
    ∷ f_seek_op ∷ signal_op ∷ mov_in_op ∷ f_write_op ∷ mov_out_op ∷ f_close_op ∷ f_truncate_op ∷ []

translate_instruction-spelled : (s : CString) → translate_instruction s ≡ spelled tested s
unfolding translate_instruction
translate_instruction-spelled s = refl

spelled_sound :
    (ts : List InstructionType) (s : CString)
    → (spelled ts s ≡ no_op) ⊎ (s ≡ spelling (spelled ts s))
spelled_sound [] s = inl refl
spelled_sound (t ∷ ts) s = elim (Bool-cases (str_eq s (spelling t))) [
  | inl hit ↦ rw hit (inr (str_eq_sound s (spelling t) hit))
  | inr miss ↦ rw miss (spelled_sound ts s)
]

pub translate_instruction-same : (t : InstructionType) → translate_instruction (spelling t) ≡ t
unfolding translate_instruction str_eq
translate_instruction-same set_op = refl
translate_instruction-same sum_op = refl
translate_instruction-same sub_op = refl
translate_instruction-same jnz_op = refl
translate_instruction-same sleep_op = refl
translate_instruction-same wait_op = refl
translate_instruction-same signal_op = refl
translate_instruction-same mov_in_op = refl
translate_instruction-same mov_out_op = refl
translate_instruction-same f_open_op = refl
translate_instruction-same f_close_op = refl
translate_instruction-same f_seek_op = refl
translate_instruction-same exit_op = refl
translate_instruction-same f_read_op = refl
translate_instruction-same f_write_op = refl
translate_instruction-same f_truncate_op = refl
translate_instruction-same no_op = refl

-- For each type of instruction but NO_OP, `translate_instruction` gives it exactly for its own
-- spelling.
pub translate_instruction-spelling :
    (s : CString) (t : InstructionType)
    → t ≢ no_op
    → (translate_instruction s ≡ t) ↔ (s ≡ spelling t)
translate_instruction-spelling s t other =
    let known = translate_instruction-spelled s in
    (
      λ e. elim (spelled_sound tested s) [
        | inl none ↦ absurd (other (sym e ∙ known ∙ none))
        | inr same ↦ same ∙ ap spelling (sym known ∙ e)
      ],
      λ e. ap translate_instruction e ∙ translate_instruction-same t,
    )
