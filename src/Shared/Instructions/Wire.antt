-- ===== src/Shared/Instructions/Wire.antt =====
-- Lists of instructions, and an instruction on the wire.
use old_so_tp.Prelude.{
  ℕ, ◌+◌, ◌^◌, ◌<◌, ◌≡◌, refl, ap, some, List, [], ◌∷◌, ◌++◌, length, map, length-map, All, arith,
  subst,
}
use old_so_tp.Prelude.Bytes.{to_bytes}
use old_so_tp.Prelude.Int.{ℤ, pos, to_word, to_word-lt}
use old_so_tp.Commons.{Commons}
use old_so_tp.Shared.Buffer.{Buffer, add_int32_to_buffer, take_list_from_buffer}
use old_so_tp.Shared.Buffer.Spec.{Holds, Remains, list_bytes, item_bytes, Appends, Reads}
use old_so_tp.Shared.Buffer.Write.{
  Appends-then, add_uint8-Appends, add_int32-Appends, add_list-Appends,
}
use old_so_tp.Shared.Buffer.Read.{
  Reads-then, Reads-map, take_uint8-Reads, take_uint32-Reads, take_list-Reads,
}
use old_so_tp.Shared.Instructions.{
  Instruction, add_instruction_to_buffer, take_instruction_from_buffer, take_param,
}

abbrev pub param_bytes : ℤ → List ℕ
param_bytes z = to_bytes 4 (to_word z)

abbrev pub instruction_bytes : Instruction → List ℕ
instruction_bytes i = to_bytes 1 i.instruction_type ++ list_bytes param_bytes i.params

-- The parameter that arrives: the number of its word.
abbrev pub received_param : ℤ → ℤ
received_param z = pos (to_word z)

abbrev pub received : Instruction → Instruction
received i = record i { params = map received_param i.params }

-- The numbers of 32-bit words.
abbrev IsParam : ℤ → Type 0
IsParam z = (n : ℕ) × (z ≡ pos n) × (n < 2 ^ 32)

to_word_same : (n : ℕ) → n < 2 ^ 32 → to_word (pos n) ≡ n
unfolding to_word
to_word_same n h = omega arith

take_param-Reads : (z : ℤ) → IsParam z → Reads take_param z (param_bytes z)
unfolding take_param
take_param-Reads z (n, e, h) = rw e (rw (to_word_same n h) (Reads-map pos (take_uint32-Reads n h)))

received-All : (params : List ℤ) → All IsParam (map received_param params)
received-All [] = tt
received-All (z ∷ params) = ((to_word z, refl, to_word-lt z), received-All params)

received_bytes :
    (params : List ℤ)
    → item_bytes param_bytes (map received_param params) ≡ item_bytes param_bytes params
received_bytes [] = refl
received_bytes (z ∷ params) = rw (received_bytes params) (
    ap (λ n. to_bytes 4 n ++ item_bytes param_bytes params)
      (to_word_same (to_word z) (to_word-lt z)))

received_list_bytes :
    (params : List ℤ)
    → list_bytes param_bytes (map received_param params) ≡ list_bytes param_bytes params
received_list_bytes params = rw (length-map params received_param) (rw (received_bytes params) refl)

module _ (lib : Commons) where
  pub add_instruction-Appends :
      (i : Instruction) → Appends (λ b. add_instruction_to_buffer lib b i) (instruction_bytes i)
  unfolding add_instruction_to_buffer
  add_instruction-Appends i =
      Appends-then (add_uint8-Appends i.instruction_type)
        (add_list-Appends lib param_bytes add_int32_to_buffer add_int32-Appends i.params)

  pub take_instruction-Reads :
      (i : Instruction)
      → i.instruction_type < 2 ^ 8
      → length i.params < 2 ^ 32
      → Reads (take_instruction_from_buffer lib) (received i) (instruction_bytes i)
  unfolding take_instruction_from_buffer
  take_instruction-Reads i byte small = Reads-then _ (take_uint8-Reads i.instruction_type byte) (
      Reads-map (λ params. record { instruction_type = i.instruction_type; params = params })
        (subst (Reads (λ b. take_list_from_buffer lib b take_param) (map received_param i.params))
          (received_list_bytes i.params)
          (take_list-Reads lib param_bytes take_param IsParam take_param-Reads
            (map received_param i.params) (received-All i.params)
            (rw (length-map i.params received_param) small))))

  -- For an instruction whose type is a byte and whose parameters are fewer than 2^32,
  -- `add_instruction_to_buffer` adds its wire format to a buffer that can count the bytes, and
  -- `take_instruction_from_buffer` on a received buffer that begins with these bytes reads the
  -- same type, each parameter modulo 2^32, and leaves what follows.
  pub take_instruction-Remains :
      (i : Instruction) (b : Buffer) (bs ds : List ℕ) (r : Buffer)
      → i.instruction_type < 2 ^ 8
      → length i.params < 2 ^ 32
      → Holds b bs
      → length bs + length (instruction_bytes i) < 2 ^ 32
      → Remains r (instruction_bytes i ++ ds)
      → (b' : Buffer) × (r' : Buffer) × (add_instruction_to_buffer lib b i ≡ some b')
        × Holds b' (bs ++ instruction_bytes i)
        × (take_instruction_from_buffer lib r ≡ some (received i, r'))
        × Remains r' ds
  take_instruction-Remains i b bs ds r byte small h fits m =
      let (b', e, h') = (add_instruction-Appends i).at b bs h fits in
      let (r', f, m') = (take_instruction-Reads i byte small).at r ds m in (b', r', e, h', f, m')
