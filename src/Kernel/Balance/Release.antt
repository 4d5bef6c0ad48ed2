-- ===== src/Kernel/Balance/Release.antt =====
-- `free_resources_retained` and the changes of the resources' instances touch nothing else.
use old_so_tp.Prelude.{
  ℕ, zero, suc, ◌+◌, ◌≡◌, refl, ap, ◌∙◌, sym, List, length, arith, get_elem?-lt, length-set,
  Bool-cases, inl, inr,
}
use old_so_tp.Prelude.Int.{ℤ, pos, ◌+ℤ◌, wrap_int}
use old_so_tp.Prelude.CString.{CString, str_eq}
use old_so_tp.Prelude.Decimal.{atoi}
use old_so_tp.Commons.{Commons}
use old_so_tp.Kernel.State.{Kernel}
use old_so_tp.Kernel.Resources.{
  modify_loop, modify_resource_instance, add_resource_instance, free_loop, free_resources_retained,
}
use old_so_tp.Kernel.Balance.{Returns}
use old_so_tp.Kernel.Balance.Rules.{Ends-bind, Ends-weaken}

-- `k'` is `k` but for the instances, whose list is as long as before.
pub record SameBut (k k' : Kernel) : Type 0 where
  pub instances : List CString
  pub same_length : length instances ≡ length k.all_resources_instances
  pub changed : k' ≡ record k { all_resources_instances = instances }

SameBut-refl : (k : Kernel) → SameBut k k
SameBut-refl k = record {
  instances = k.all_resources_instances;
  same_length = refl;
  changed = refl;
}

SameBut-trans : (k k' k'' : Kernel) → SameBut k k' → SameBut k' k'' → SameBut k k''
SameBut-trans k k' k'' a b = record {
  instances = b.instances;
  same_length =
      b.same_length ∙ ap (λ j. length j.all_resources_instances) a.changed ∙ a.same_length;
  changed =
      b.changed ∙ ap (λ (j : Kernel). record j { all_resources_instances = b.instances }) a.changed;
}

module _ (lib : Commons) where
  modify_loop-SameBut :
      (left : ℕ) (k : Kernel) (index : ℕ) (resource : CString) (value : ℤ)
      → length k.all_resources_instances ≡ length k.all_resources
      → index + left ≡ length k.all_resources
      → Returns (SameBut k) (modify_loop lib left k index resource value)
  unfolding modify_loop
  modify_loop-SameBut zero k index resource value aligned inside = SameBut-refl k
  modify_loop-SameBut (suc left) k index resource value aligned inside =
      let (candidate, e) = get_elem?-lt k.all_resources index (omega arith) in
      let (initial, f) = get_elem?-lt k.all_resources_instances index (omega arith) in
      rw (lib.list_get_lem k.all_resources index) (
        rw e (elim (Bool-cases (str_eq candidate resource)) [
          | inl hit ↦ rw hit (
              rw (lib.list_get_lem k.all_resources_instances index) (
                rw f (record {
                  instances =
                      lib.list_replace k.all_resources_instances index
                        (lib.string_itoa (wrap_int (atoi initial +ℤ value)));
                  same_length =
                      ap length (lib.list_replace_lem k.all_resources_instances index _)
                      ∙ length-set k.all_resources_instances index _;
                  changed = refl;
                })))
          | inr miss ↦
              rw miss (modify_loop-SameBut left k (suc index) resource value aligned (omega arith))
        ]))

  pub modify_resource_instance-SameBut :
      (k : Kernel) (resource : CString) (value : ℤ)
      → length k.all_resources_instances ≡ length k.all_resources
      → Returns (SameBut k) (modify_resource_instance lib k resource value)
  unfolding modify_resource_instance
  modify_resource_instance-SameBut k resource value aligned =
      modify_loop-SameBut (lib.list_size k.all_resources_instances) k 0 resource value aligned
        (omega (arith, lib.list_size_lem k.all_resources_instances))

  still_aligned :
      (k k' : Kernel)
      → SameBut k k'
      → length k.all_resources_instances ≡ length k.all_resources
      → length k'.all_resources_instances ≡ length k'.all_resources
  still_aligned k k' b aligned =
      ap (λ j. length j.all_resources_instances) b.changed
      ∙ b.same_length
      ∙ aligned
      ∙ sym (ap (λ j. length j.all_resources) b.changed)

  free_loop-SameBut :
      (left : ℕ) (k : Kernel) (held : List CString) (index : ℕ)
      → length k.all_resources_instances ≡ length k.all_resources
      → index + left ≡ length held
      → Returns (SameBut k) (free_loop lib left k held index)
  unfolding free_loop add_resource_instance
  free_loop-SameBut zero k held index aligned inside = SameBut-refl k
  free_loop-SameBut (suc left) k held index aligned inside =
      let (resource, e) = get_elem?-lt held index (omega arith) in
      rw (lib.list_get_lem held index) (
        rw e (
          Ends-bind ⊥ (SameBut k) (SameBut k) (modify_resource_instance lib k resource (pos 1)) _
            (modify_resource_instance-SameBut k resource (pos 1) aligned)
            (λ k' b.
              Ends-weaken ⊥ (SameBut k') (SameBut k) (free_loop lib left k' held (suc index))
                (λ k'' d. SameBut-trans k k' k'' b d)
                (free_loop-SameBut left k' held (suc index) (still_aligned k k' b aligned)
                  (omega arith)))))

  -- The resources of a process are given back one by one, and nothing else changes.
  pub free_resources_retained-SameBut :
      (k : Kernel) (process : ℕ)
      → length k.all_resources_instances ≡ length k.all_resources
      → Returns (SameBut k) (free_resources_retained lib k process)
  unfolding free_resources_retained
  free_resources_retained-SameBut k process aligned =
      free_loop-SameBut (lib.list_size (k.heap process).resources) k (k.heap process).resources 0
        aligned (omega (arith, lib.list_size_lem (k.heap process).resources))
