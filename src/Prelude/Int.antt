-- ===== src/Prelude/Int.antt =====
-- Signed integers over the native numbers (the library's ℤ stands on the unary ℕ), and the C types
-- `int` and `int32_t`: a value in range, and its two's complement pattern of 32 bits.
use old_so_tp.Prelude.{
  ℕ, zero, suc, ◌+◌, ◌-◌, ◌*◌, ◌/◌, ◌==◌, ◌&&◌, Option, none, some, ◌%◌, ◌^◌, ◌≤◌, ◌<◌, ◌≡◌, Bool,
  arith, ltb, leb, if◌then◌else◌, Bool-cases, inl, inr, true, ltb→lt,
}

-- `negsuc n` is -(n + 1).
pub data ℤ : Type 0 where
  pos : ℕ → ℤ
  negsuc : ℕ → ℤ

abbrev pub pos_part : ℤ → ℕ
pos_part (pos n) = n
pos_part (negsuc n) = 0

abbrev pub neg_part : ℤ → ℕ
neg_part (pos n) = 0
neg_part (negsuc n) = suc n

-- a - b, as an integer.
abbrev pub sub_ℕ : ℕ → ℕ → ℤ
sub_ℕ a b = if leb b a then pos (a - b) else negsuc (b - a - 1)

infixl 65 ◌+ℤ◌
infix 50 ◌≤ℤ◌
unfoldable pub ◌+ℤ◌ : ℤ → ℤ → ℤ
a +ℤ b = sub_ℕ (pos_part a + pos_part b) (neg_part a + neg_part b)

abbrev pub ◌≤ℤ◌ : ℤ → ℤ → Type 0
a ≤ℤ b = pos_part a + neg_part b ≤ pos_part b + neg_part a

abbrev pub ltb_ℤ : ℤ → ℤ → Bool
ltb_ℤ a b = ltb (pos_part a + neg_part b) (pos_part b + neg_part a)

-- One lemma for the sum lets `omega` work with it shut, at any depth.
pub +ℤ_parts :
    (a b : ℤ)
    → pos_part (a +ℤ b) + neg_part a + neg_part b ≡ neg_part (a +ℤ b) + pos_part a + pos_part b
unfolding ◌+ℤ◌
+ℤ_parts a b = ground arith

pub eq_of_parts : (a b : ℤ) → pos_part a + neg_part b ≡ pos_part b + neg_part a → a ≡ b
eq_of_parts a b h = ground arith

pub ruleset int_laws = (arith, +ℤ_parts, eq_of_parts)

abbrev pub word_mod : ℕ
word_mod = 2 ^ 32

-- The values of an `int`.
abbrev pub eq_int : ℤ → ℤ → Bool
eq_int a b = pos_part a == pos_part b && neg_part a == neg_part b

-- `int` products and quotients by a size that is not negative; `none` is the division by zero.
abbrev pub negative : ℕ → ℤ
negative zero = pos 0
negative (suc n) = negsuc n

abbrev pub times : ℤ → ℕ → ℤ
times (pos n) k = pos (n * k)
times (negsuc n) k = negative (suc n * k)

abbrev pub divide : ℤ → ℕ → Option ℤ
divide z zero = none
divide (pos n) (suc k) = some (pos (n / suc k))
divide (negsuc n) (suc k) = some (negative (suc n / suc k))

abbrev pub IsInt : ℤ → Type 0
IsInt z = (pos_part z < 2 ^ 31) × (neg_part z ≤ 2 ^ 31)

-- The conversion of an `int` to `uint32_t`, which is also its pattern in memory.
unfoldable pub to_word : ℤ → ℕ
to_word (pos n) = n % word_mod
to_word (negsuc n) = word_mod - 1 - n % word_mod

-- The conversion back.
unfoldable pub of_word : ℕ → ℤ
of_word w = if ltb w (2 ^ 31) then pos w else negsuc (word_mod - 1 - w)

-- An `int` sum as the machine computes it.
unfoldable pub wrap_int : ℤ → ℤ
unfolding of_word to_word
wrap_int z = of_word (to_word z)

pub to_word-lt : (z : ℤ) → to_word z < word_mod
unfolding to_word
to_word-lt (pos n) = omega arith
to_word-lt (negsuc n) = omega arith

pub of_word-to_word : (z : ℤ) → IsInt z → of_word (to_word z) ≡ z
unfolding of_word to_word
of_word-to_word (pos n) h = ground arith
of_word-to_word (negsuc n) h = ground arith

pub wrap_int-IsInt : (z : ℤ) → IsInt z → wrap_int z ≡ z
unfolding wrap_int
wrap_int-IsInt z h = of_word-to_word z h

of_word-range : (w : ℕ) → w < 2 ^ 32 → IsInt (of_word w)
unfolding of_word
of_word-range w h = elim (Bool-cases (ltb w (2 ^ 31))) [
  | inl small ↦ let l = ltb→lt w (2 ^ 31) small in rw small (omega arith, omega arith)
  | inr large ↦ let l : 2 ^ 31 ≤ w = ground arith in rw large (omega arith, omega arith)
]

-- The result of an `int` sum is in the range of `int`.
pub wrap_int-range : (z : ℤ) → IsInt (wrap_int z)
unfolding wrap_int
wrap_int-range z = of_word-range (to_word z) (to_word-lt z)
