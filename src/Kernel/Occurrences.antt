-- ===== src/Kernel/Occurrences.antt =====
-- How often a process is in a queue, and what the operations on queues do to that number.
use old_so_tp.Prelude.{
  ℕ, zero, suc, ◌+◌, ◌<◌, ◌≤◌, ◌≡◌, some, Bool, true, false, List, [], ◌∷◌, ◌++◌, get_elem?, set,
  arith, ◌==◌, ap, false, zero,
}
use old_so_tp.Commons.{Commons, remove_first}
use old_so_tp.Kernel.State.{or_empty}

abbrev pub one : Bool → ℕ
one true = 1
one false = 0

abbrev pub count : ℕ → List ℕ → ℕ
count a [] = 0
count a (x ∷ q) = one (a == x) + count a q

abbrev pub count_all : ℕ → List (List ℕ) → ℕ
count_all a [] = 0
count_all a (q ∷ qs) = count a q + count_all a qs

pub one-le : (w : Bool) → one w ≤ 1
one-le true = omega arith
one-le false = omega arith

count-snoc : (q : List ℕ) (x a : ℕ) → count a (q ++ x ∷ []) ≡ count a q + one (a == x)
count-snoc [] x a = omega arith
count-snoc (y ∷ q) x a = omega (arith, count-snoc q x a)

one_same : (a : ℕ) → one (a == a) ≡ 1
one_same a = ground arith

pub count-mem : (q : List ℕ) (i a : ℕ) → get_elem? q i ≡ some a → 0 < count a q
count-mem [] i a h = cc
count-mem (x ∷ q) zero a h = ground (arith, h)
count-mem (x ∷ q) (suc i) a h = omega (arith, count-mem q i a h)

pub count-remove_first :
    (q : List ℕ) (x a : ℕ) → 0 < count x q → count a (remove_first q x) + one (a == x) ≤ count a q
count-remove_first [] x a h = absurd (omega arith)
count-remove_first (y ∷ q) x a h = ground (arith, h, count-remove_first q x a)

pub count_all-set :
    (qs : List (List ℕ)) (i : ℕ) (q : List ℕ) (a : ℕ)
    → count_all a (set qs i q) + count a (or_empty (get_elem? qs i)) ≤ count_all a qs + count a q
count_all-set [] i q a = omega arith
count_all-set (x ∷ qs) zero q a = omega arith
count_all-set (x ∷ qs) (suc i) q a = omega (arith, count_all-set qs i q a)

pub count-count_all :
    (qs : List (List ℕ)) (i a : ℕ) → count a (or_empty (get_elem? qs i)) ≤ count_all a qs
count-count_all [] i a = omega arith
count-count_all (x ∷ qs) zero a = omega arith
count-count_all (x ∷ qs) (suc i) a = omega (arith, count-count_all qs i a)

pub count-append : (p q : List ℕ) (a : ℕ) → count a (p ++ q) ≡ count a p + count a q
count-append [] q a = omega arith
count-append (x ∷ p) q a = omega (arith, count-append p q a)

pub remove_first-middle :
    (p q : List ℕ) (x : ℕ) → count x p ≡ 0 → remove_first (p ++ x ∷ q) x ≡ p ++ q
remove_first-middle [] q x h = ground arith
remove_first-middle (y ∷ p) q x h =
    let other : (y == x) ≡ false = ground (arith, h) in
    rw other (ap (λ r. y ∷ r) (remove_first-middle p q x (omega arith)))

module _ (lib : Commons) where
  pub count-push : (q : List ℕ) (x a : ℕ) → count a (lib.queue_push q x) ≡ count a q + one (a == x)
  count-push q x a = rw (lib.queue_push_lem q x) (count-snoc q x a)

  pub count-remove :
      (q : List ℕ) (x a : ℕ)
      → 0 < count x q
      → count a (lib.list_remove_element q x) + one (a == x) ≤ count a q
  count-remove q x a h = rw (lib.list_remove_element_lem q x) (count-remove_first q x a h)
