-- ===== src/Commons.antt =====
-- The so-commons library, which the program links and the repository does not hold: the operations
-- that the code calls, with the documented effect of each as a law. A `t_list` and a `t_queue` are
-- the sequences of their elements.
pub mod Lists
pub mod Reference
use old_so_tp.Prelude.{
  ℕ, zero, suc, ◌≤◌, ◌≡◌, Bool, Option, none, some, List, [], ◌∷◌, ◌++◌, ◌>>=◌, length, get_elem?,
  set, take, drop, ◌==◌, if◌then◌else◌,
}
use old_so_tp.Prelude.Int.{ℤ, IsInt}
use old_so_tp.Prelude.CString.{CString}
use old_so_tp.Prelude.Decimal.{atoi}

module _ {A : Type 0} where
  abbrev pub remove_at : List A → ℕ → List A
  remove_at [] i = []
  remove_at (x ∷ xs) zero = xs
  remove_at (x ∷ xs) (suc i) = x ∷ remove_at xs i

  abbrev pub insert_at : List A → ℕ → A → List A
  insert_at xs zero a = a ∷ xs
  insert_at [] (suc i) a = []
  insert_at (x ∷ xs) (suc i) a = x ∷ insert_at xs i a

  abbrev pub find_first : (A → Bool) → List A → Option A
  find_first p [] = none
  find_first p (x ∷ xs) = if p x then some x else find_first p xs

module _ {A S : Type 0} where
  -- A callback that changes the state `S`, run on each element in turn.
  abbrev pub each : (A → S → Option S) → List A → S → Option S
  each f [] s = some s
  each f (x ∷ xs) s = f x s >>= each f xs

-- Elements are pointers here, and are compared as such.
abbrev pub remove_first : List ℕ → ℕ → List ℕ
remove_first [] a = []
remove_first (x ∷ xs) a = if x == a then xs else x ∷ remove_first xs a

module _ {A : Type 0} where
  abbrev pub first_of_queue : List A → Option (A × List A)
  first_of_queue [] = none
  first_of_queue (x ∷ xs) = some (x, xs)

pub record Commons : Type 1 where
  pub list_size : {A : Type 0} → List A → ℕ
  pub list_add : {A : Type 0} → List A → A → List A
  -- `none` is the null pointer, of an index that is out of range.
  pub list_get : {A : Type 0} → List A → ℕ → Option A
  -- The removed element and the list that is left.
  pub list_remove : {A : Type 0} → List A → ℕ → Option A × List A
  pub list_add_in_index : {A : Type 0} → List A → ℕ → A → List A
  pub list_replace : {A : Type 0} → List A → ℕ → A → List A
  pub list_find : {A : Type 0} → List A → (A → Bool) → Option A
  pub list_iterate : {A S : Type 0} → List A → (A → S → Option S) → S → Option S
  -- The elements taken and those that are left.
  pub list_take_and_remove : {A : Type 0} → List A → ℕ → List A × List A
  pub list_remove_element : List ℕ → ℕ → List ℕ
  pub queue_push : {A : Type 0} → List A → A → List A
  pub queue_pop : {A : Type 0} → List A → Option (A × List A)
  pub string_itoa : ℤ → CString
  pub list_size_lem : {A : Type 0} (xs : List A) → list_size xs ≡ length xs
  pub list_add_lem : {A : Type 0} (xs : List A) (a : A) → list_add xs a ≡ xs ++ a ∷ []
  pub list_get_lem : {A : Type 0} (xs : List A) (i : ℕ) → list_get xs i ≡ get_elem? xs i
  pub list_remove_lem :
      {A : Type 0} (xs : List A) (i : ℕ) → list_remove xs i ≡ (get_elem? xs i, remove_at xs i)
  pub list_add_in_index_lem :
      {A : Type 0} (xs : List A) (i : ℕ) (a : A)
      → i ≤ length xs
      → list_add_in_index xs i a ≡ insert_at xs i a
  pub list_replace_lem :
      {A : Type 0} (xs : List A) (i : ℕ) (a : A) → list_replace xs i a ≡ set xs i a
  pub list_find_lem : {A : Type 0} (xs : List A) (p : A → Bool) → list_find xs p ≡ find_first p xs
  pub list_iterate_lem :
      {A S : Type 0} (xs : List A) (f : A → S → Option S) (s : S)
      → list_iterate xs f s ≡ each f xs s
  pub list_take_and_remove_lem :
      {A : Type 0} (xs : List A) (n : ℕ)
      → n ≤ length xs
      → list_take_and_remove xs n ≡ (take n xs, drop n xs)
  pub list_remove_element_lem : (xs : List ℕ) (a : ℕ) → list_remove_element xs a ≡ remove_first xs a
  pub queue_push_lem : {A : Type 0} (xs : List A) (a : A) → queue_push xs a ≡ xs ++ a ∷ []
  pub queue_pop_lem : {A : Type 0} (xs : List A) → queue_pop xs ≡ first_of_queue xs
  pub atoi-string_itoa : (z : ℤ) → IsInt z → atoi (string_itoa z) ≡ z
