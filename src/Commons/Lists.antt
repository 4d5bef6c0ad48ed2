-- ===== src/Commons/Lists.antt =====
-- What the reference operations on lists do to lengths and elements.
use old_so_tp.Prelude.{ℕ, zero, suc, ◌+◌, ◌≡◌, some, List, [], ◌∷◌, length, get_elem?, set, arith}
use old_so_tp.Commons.{remove_first}

-- The removal of an element that is there.
pub length-remove_first :
    (xs : List ℕ) (i a : ℕ) → get_elem? xs i ≡ some a → length (remove_first xs a) + 1 ≡ length xs
length-remove_first [] i a h = cc
length-remove_first (x ∷ xs) zero a h = ground arith
length-remove_first (x ∷ xs) (suc i) a h = ground (arith, length-remove_first xs i a h)

-- The number of elements in a list of queues.
abbrev pub total : List (List ℕ) → ℕ
total [] = 0
total (q ∷ qs) = length q + total qs

pub total-set :
    (qs : List (List ℕ)) (i : ℕ) (q q' : List ℕ)
    → get_elem? qs i ≡ some q
    → total (set qs i q') + length q ≡ total qs + length q'
total-set [] i q q' h = cc
total-set (x ∷ qs) zero q q' h = ground arith
total-set (x ∷ qs) (suc i) q q' h = omega (arith, total-set qs i q q' h)
