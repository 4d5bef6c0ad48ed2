-- ===== src/Prelude/Decimal.antt =====
-- `atoi` of the C library, and a decimal print that it reads back.
use old_so_tp.Prelude.{
  ℕ, zero, suc, ◌+◌, ◌-◌, ◌*◌, ◌/◌, ◌%◌, ◌<◌, ◌≡◌, refl, sym, ◌∙◌, ap, inl, inr, Bool, ◌&&◌, ◌||◌,
  [], ◌∷◌, arith, leb, ◌==◌, if◌then◌else◌, Bool-cases,
}
use old_so_tp.Prelude.Int.{ℤ, pos, negsuc, IsInt, sub_ℕ, wrap_int, wrap_int-IsInt}
use old_so_tp.Prelude.CString.{CString, codes}

is_digit : ℕ → Bool
is_digit c = leb 48 c && leb c 57

is_space : ℕ → Bool
is_space c = c == 32 || (leb 9 c && leb c 13)

-- The value of the digits at the start, after those already read.
read_digits : ℕ → CString → ℕ
unfolding is_digit
read_digits n [] = n
read_digits n (c ∷ cs) =
    let rest = read_digits (n * 10 + (c - 48)) cs in if is_digit c then rest else n

read_signed : CString → ℤ
read_signed [] = pos 0
read_signed (c ∷ cs) =
    if c == 45
    then sub_ℕ 0 (read_digits 0 cs)
    else if c == 43
    then pos (read_digits 0 cs)
    else pos (read_digits 0 (c ∷ cs))

skip_spaces : CString → CString
unfolding is_space
skip_spaces [] = []
skip_spaces (c ∷ cs) = let rest = skip_spaces cs in if is_space c then rest else c ∷ cs

unfoldable pub atoi : CString → ℤ
unfolding read_digits read_signed skip_spaces wrap_int
atoi s = wrap_int (read_signed (skip_spaces s))

-- The digits of `n` before those already printed; the fuel `suc n` is enough.
show_digits : ℕ → ℕ → CString → CString
show_digits zero n done = done
show_digits (suc f) n done =
    let rest = show_digits f (n / 10) ((48 + n % 10) ∷ done) in
    if n / 10 == 0 then (48 + n % 10) ∷ done else rest

unfoldable pub show_int : ℤ → CString
unfolding show_digits
show_int (pos n) = show_digits (suc n) n []
show_int (negsuc n) = 45 ∷ show_digits (suc (suc n)) (suc n) []

read_digits-show_digits :
    (f n : ℕ) (done : CString) → n < f → read_digits 0 (show_digits f n done) ≡ read_digits n done
unfolding read_digits show_digits
read_digits-show_digits zero n done h = elim h [ ]
read_digits-show_digits (suc f) n done h = elim (Bool-cases (n / 10 == 0)) [
  | inl last ↦ rw last (ground arith)
  | inr more ↦
      rw more
        (read_digits-show_digits f (n / 10) ((48 + n % 10) ∷ done) (ground arith) ∙ ground arith)
]

show_digits_head :
    (f n : ℕ) (done : CString)
    → n < f
    → (d : ℕ) × (rest : CString) × (show_digits f n done ≡ (48 + d) ∷ rest) × (d < 10)
unfolding show_digits
show_digits_head zero n done h = elim h [ ]
show_digits_head (suc f) n done h = elim (Bool-cases (n / 10 == 0)) [
  | inl last ↦ rw last (n % 10, done, refl, omega arith)
  | inr more ↦ rw more (show_digits_head f (n / 10) ((48 + n % 10) ∷ done) (ground arith))
]

-- A text that starts with a digit is read as its digits.
read_signed_digit :
    (d : ℕ) (rest : CString)
    → d < 10
    → read_signed (skip_spaces ((48 + d) ∷ rest)) ≡ pos (read_digits 0 ((48 + d) ∷ rest))
unfolding read_signed skip_spaces
read_signed_digit d rest h = ground arith

read_signed-show_digits : (n : ℕ) → read_signed (skip_spaces (show_digits (suc n) n [])) ≡ pos n
unfolding read_digits
read_signed-show_digits n =
    let (d, rest, e, lt) = show_digits_head (suc n) n [] (omega arith) in
    ap (λ s. read_signed (skip_spaces s)) e
    ∙ read_signed_digit d rest lt
    ∙ ap (λ s. pos (read_digits 0 s)) (sym e)
    ∙ ap pos (read_digits-show_digits (suc n) n [] (omega arith))

read_signed-minus : (s : CString) → read_signed (skip_spaces (45 ∷ s)) ≡ sub_ℕ 0 (read_digits 0 s)
unfolding read_signed skip_spaces
read_signed-minus s = refl

pub atoi-show_int : (z : ℤ) → IsInt z → atoi (show_int z) ≡ z
unfolding read_digits show_int atoi
atoi-show_int (pos n) h = ap wrap_int (read_signed-show_digits n) ∙ wrap_int-IsInt (pos n) h
atoi-show_int (negsuc n) h =
    ap wrap_int (read_signed-minus (show_digits (suc (suc n)) (suc n) []))
    ∙ ap (λ k. wrap_int (sub_ℕ 0 k))
        (read_digits-show_digits (suc (suc n)) (suc n) [] (omega arith))
    ∙ ground (arith, wrap_int-IsInt (negsuc n) h)

atoi_tests : (atoi (codes " -12x") ≡ negsuc 11) × (atoi (codes "1000") ≡ pos 1000)
unfolding atoi
atoi_tests = (refl, refl)
