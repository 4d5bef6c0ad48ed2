-- ===== src/Shared/Buffer/Copy.antt =====
-- `memcpy` to and from a stream, where it stays within the allocation.
use old_so_tp.Prelude.{
  ℕ, ◌+◌, ◌≤◌, ◌<◌, ◌≡◌, refl, sym, ap, ◌∙◌, none, some, List, [], ◌∷◌, ◌++◌, map, append_assoc,
  arith, length, take, drop, length-append, length-map, length-take, length-drop, take-append_all,
}
use old_so_tp.Shared.Buffer.{Cell, memcpy_in, memcpy_out, all_written}

-- The stream after `memcpy`.
abbrev pub spliced : List Cell → ℕ → List ℕ → List Cell
spliced s at bytes = take at s ++ (map some bytes ++ drop (at + length bytes) s)

module _ (s : List Cell) (at : ℕ) (bytes : List ℕ) (room : at + length bytes ≤ length s) where
  pub memcpy_in_lem : memcpy_in s at bytes ≡ some (spliced s at bytes)
  unfolding memcpy_in
  memcpy_in_lem = ground arith

  length_written : length (take at s ++ map some bytes) ≡ at + length bytes
  length_written = omega (
    arith,
    length-append (take at s) (map some bytes),
    length-take at s,
    length-map {B = Cell} bytes some,
  )

  pub length-spliced : length (spliced s at bytes) ≡ length s
  length-spliced = omega (
    arith,
    length-append (take at s) (map some bytes ++ drop (at + length bytes) s),
    length-append (map some bytes) (drop (at + length bytes) s),
    length-take at s,
    length-drop (at + length bytes) s,
    length-map {B = Cell} bytes some,
  )

  pub take-spliced : take (at + length bytes) (spliced s at bytes) ≡ take at s ++ map some bytes
  take-spliced =
      ap (λ n. take n (spliced s at bytes)) (sym length_written)
      ∙ ap (take (length (take at s ++ map some bytes)))
          (sym (append_assoc (take at s) (map some bytes) (drop (at + length bytes) s)))
      ∙ take-append_all (take at s ++ map some bytes) (drop (at + length bytes) s)

pub all_written-map : (bs : List ℕ) → all_written (map some bs) ≡ some bs
unfolding all_written
all_written-map [] = refl
all_written-map (b ∷ bs) = ground (arith, all_written-map bs)

-- The first bytes of a stream that were all written.
pub memcpy_out_start :
    (s : List Cell) (n : ℕ) (bs : List ℕ)
    → n ≤ length s
    → take n s ≡ map some bs
    → memcpy_out s 0 n ≡ some bs
unfolding memcpy_out
memcpy_out_start s n bs h e =
    let r : all_written (take n s) ≡ some bs = ap all_written e ∙ all_written-map bs in
    ground (arith, r)

-- A copy that would leave the allocation is a fault.
pub memcpy_in_fault :
    (s : List Cell) (at : ℕ) (bytes : List ℕ)
    → length s < at + length bytes
    → memcpy_in s at bytes ≡ none
unfolding memcpy_in
memcpy_in_fault s at bytes h = ground arith
