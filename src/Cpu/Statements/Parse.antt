-- ===== src/Cpu/Statements/Parse.antt =====
-- The parameters of a statement, and a register that is replaced in the list.
use old_so_tp.Prelude.{
  ℕ, suc, zero, ◌<◌, ◌≡◌, refl, ap, ◌∙◌, none, some, List, [], ◌∷◌, ◌++◌, get_elem?, set, length,
  arith,
}
use old_so_tp.Prelude.CString.{str_eq}
use old_so_tp.Commons.{Commons, remove_at, insert_at}
use old_so_tp.Cpu.Execution.{
  Word, Param, register, identifier, param_of, parse_loop, parse_register_param, index_at, as_index,
  register_at, set_register,
}
use old_so_tp.Cpu.Statements.{Register, ax, bx, cx, dx, place, register_name, IsName, value_of}

-- The word that names a register, and one that names none.
pub param_of-register :
    (address : ℕ) (r : Register)
    → param_of (record { address = address; text = register_name r }) ≡ register (place r)
unfolding param_of str_eq
param_of-register address ax = refl
param_of-register address bx = refl
param_of-register address cx = refl
param_of-register address dx = refl

pub param_of-name : (w : Word) → IsName w.text → param_of w ≡ identifier w
unfolding param_of
param_of-name w h = rw h.not_ax (rw h.not_bx (rw h.not_cx (rw h.not_dx refl)))

remove_at-length :
    {A : Type 0} (xs : List A) (i : ℕ) → i < length xs → suc (length (remove_at xs i)) ≡ length xs
remove_at-length [] i h = absurd (omega arith)
remove_at-length (x ∷ xs) zero h = refl
remove_at-length (x ∷ xs) (suc i) h = ap suc (remove_at-length xs i (omega arith))

insert_at-remove_at :
    {A : Type 0} (xs : List A) (i : ℕ) (a : A)
    → i < length xs
    → insert_at (remove_at xs i) i a ≡ set xs i a
insert_at-remove_at [] i a h = absurd (omega arith)
insert_at-remove_at (x ∷ xs) zero a h = refl
insert_at-remove_at (x ∷ xs) (suc i) a h = ap (◌∷◌ x) (insert_at-remove_at xs i a (omega arith))

module _ (lib : Commons) where
  pub set_register-set :
      (registers : List ℕ) (i v : ℕ)
      → i < length registers
      → set_register lib registers i v ≡ set registers i v
  set_register-set registers i v h =
      let n = remove_at-length registers i h in
      ap (λ p. lib.list_add_in_index p.1 i v) (lib.list_remove_lem registers i)
      ∙ lib.list_add_in_index_lem (remove_at registers i) i v (omega arith)
      ∙ insert_at-remove_at registers i v h

  -- The parameters are those of the words behind the first.
  pub parse-one :
      (first a : Word) (rest : List Word)
      → parse_register_param lib (first ∷ a ∷ rest) 1 ≡ some (param_of a ∷ [])
  unfolding parse_register_param parse_loop
  parse-one first a rest = ap some (lib.list_add_lem [] (param_of a))

  pub parse-two :
      (first a b : Word) (rest : List Word)
      → parse_register_param lib (first ∷ a ∷ b ∷ rest) 2 ≡ some (param_of a ∷ param_of b ∷ [])
  unfolding parse_register_param parse_loop
  parse-two first a b rest = ap some (
      lib.list_add_lem (lib.list_add [] (param_of a)) (param_of b)
      ∙ ap (λ l. l ++ param_of b ∷ []) (lib.list_add_lem [] (param_of a)))

  pub index_at-get_elem? :
      (params : List Param) (n : ℕ) (p : Param)
      → get_elem? params n ≡ some p
      → index_at lib params n ≡ as_index p
  index_at-get_elem? params n p e =
      ap (λ o. elim o as (λ x. ℕ) [ none ↦ 0 | some q ↦ as_index q ])
        (lib.list_get_lem params n ∙ e)

  pub register_at-value_of :
      (registers : List ℕ) (r : Register)
      → register_at lib registers (place r) ≡ value_of registers r
  register_at-value_of registers r =
      ap (λ o. elim o as (λ x. ℕ) [ none ↦ 0 | some v ↦ v ]) (lib.list_get_lem registers (place r))
