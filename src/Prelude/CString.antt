-- ===== src/Prelude/CString.antt =====
-- C strings as the bytes before the terminating zero, and `strcmp(a, b) == 0` on them.
use Prim.Native.Char.{code}
use Prim.Native.String.{String}
use old_so_tp.Prelude.{
  ℕ, ◌<◌, ◌≡◌, refl, ◌↔◌, Bool, true, false, ◌&&◌, Option, none, some, List, [], ◌∷◌, ◌++◌, arith,
  ◌==◌, if◌then◌else◌,
}

abbrev pub CString : Type 0
CString = List ℕ

-- The bytes of a literal of the source.
abbrev pub codes : String → CString
codes String.[] = []
codes (String.◌∷◌ c s) = code c ∷ codes s

unfoldable pub str_eq : CString → CString → Bool
str_eq [] [] = true
str_eq [] (y ∷ ys) = false
str_eq (x ∷ xs) [] = false
str_eq (x ∷ xs) (y ∷ ys) = x == y && str_eq xs ys

pub str_eq_sound : (a b : CString) → str_eq a b ≡ true → a ≡ b
unfolding str_eq
str_eq_sound [] [] h = refl
str_eq_sound [] (y ∷ ys) h = cc
str_eq_sound (x ∷ xs) [] h = cc
str_eq_sound (x ∷ xs) (y ∷ ys) h = ground (arith, str_eq_sound xs ys)

pub str_eq_refl : (a : CString) → str_eq a a ≡ true
unfolding str_eq
str_eq_refl [] = refl
str_eq_refl (x ∷ xs) = ground (arith, str_eq_refl xs)

pub str_eq_iff : (a b : CString) → (str_eq a b ≡ true) ↔ (a ≡ b)
str_eq_iff a b = (str_eq_sound a b, λ e. rw e (str_eq_refl b))

-- No byte of a C string is zero, and each is below 256.
abbrev pub IsCString : List ℕ → Type 0
IsCString [] = Unit {0}
IsCString (c ∷ cs) = (0 < c) × (c < 256) × IsCString cs

-- The string that starts at a given byte: `none` if no zero byte ends it.
unfoldable pub until_zero : List ℕ → Option CString
until_zero [] = none
until_zero (c ∷ cs) =
    let rest = until_zero cs in
    if c == 0 then some [] else elim rest [ none ↦ none | some s ↦ some (c ∷ s) ]

pub until_zero-append : (s : CString) → IsCString s → until_zero (s ++ 0 ∷ []) ≡ some s
unfolding until_zero
until_zero-append [] h = refl
until_zero-append (c ∷ cs) h = ground (arith, until_zero-append cs h.2)
