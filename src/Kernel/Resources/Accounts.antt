-- ===== src/Kernel/Resources/Accounts.antt =====
-- The instances of a resource as `quantity_resource_instance_available` reads them, through the
-- changes that `_modify_resource_instance` makes.
use old_so_tp.Prelude.{
  ℕ, zero, suc, ◌+◌, ◌≡◌, refl, ap, ◌∙◌, sym, some, length, arith, get_elem?, get_elem?-lt,
  get_elem?-set, true, false, Bool-cases, inl, inr,
}
use old_so_tp.Prelude.Int.{ℤ, ◌+ℤ◌, wrap_int, wrap_int-range}
use old_so_tp.Prelude.CString.{CString, str_eq}
use old_so_tp.Prelude.Decimal.{atoi}
use old_so_tp.Commons.{Commons}
use old_so_tp.Kernel.State.{Kernel, Run, done, crash}
use old_so_tp.Kernel.Resources.{
  modify_loop, modify_resource_instance, available_loop, quantity_resource_instance_available,
}

done_inj : {x y : ℤ} → ◌≡◌ {A = Run ℤ} (done x) (done y) → x ≡ y
done_inj h = cc

crash≢done : {x : ℤ} → ◌≡◌ {A = Run ℤ} crash (done x) → ⊥
crash≢done h = cc

module _ (lib : Commons) where
  -- The instances from an index on, one string at that index replaced.
  hit_lem :
      (left : ℕ) (k : Kernel) (index : ℕ) (resource candidate initial : CString) (z : ℤ)
      → get_elem? k.all_resources index ≡ some candidate
      → str_eq candidate resource ≡ true
      → get_elem? k.all_resources_instances index ≡ some initial
      → available_loop lib
          (suc left)
          (record k {
            all_resources_instances =
                lib.list_replace k.all_resources_instances index (lib.string_itoa (wrap_int z));
          })
          index
          resource
        ≡ done (wrap_int z)
  unfolding available_loop
  hit_lem left k index resource candidate initial z e hit f =
      rw (lib.list_get_lem k.all_resources index) (
        rw e (
          rw hit (
            rw
              (lib.list_get_lem
                (lib.list_replace k.all_resources_instances index (lib.string_itoa (wrap_int z)))
                index)
              (rw
                (lib.list_replace_lem k.all_resources_instances index
                  (lib.string_itoa (wrap_int z)))
                (rw (get_elem?-set k.all_resources_instances index initial _ f)
                  (ap done (lib.atoi-string_itoa (wrap_int z) (wrap_int-range z))))))))

  module _ (left : ℕ) (k : Kernel) (index : ℕ) (resource candidate : CString)
      (e : get_elem? k.all_resources index ≡ some candidate) where
    avail_hit :
        (initial : CString)
        → str_eq candidate resource ≡ true
        → get_elem? k.all_resources_instances index ≡ some initial
        → available_loop lib (suc left) k index resource ≡ done (atoi initial)
    unfolding available_loop
    avail_hit initial hit f =
        rw (lib.list_get_lem k.all_resources index)
          (rw e (rw hit (rw (lib.list_get_lem k.all_resources_instances index) (rw f refl))))

    avail_miss :
        str_eq candidate resource ≡ false
        → available_loop lib (suc left) k index resource
          ≡ available_loop lib left k (suc index) resource
    unfolding available_loop
    avail_miss miss = rw (lib.list_get_lem k.all_resources index) (rw e (rw miss refl))

    modify_hit :
        (initial : CString) (value : ℤ)
        → str_eq candidate resource ≡ true
        → get_elem? k.all_resources_instances index ≡ some initial
        → modify_loop lib (suc left) k index resource value
          ≡ done (record k {
            all_resources_instances =
                lib.list_replace k.all_resources_instances index
                  (lib.string_itoa (wrap_int (atoi initial +ℤ value)));
          })
    unfolding modify_loop
    modify_hit initial value hit f =
        rw (lib.list_get_lem k.all_resources index)
          (rw e (rw hit (rw (lib.list_get_lem k.all_resources_instances index) (rw f refl))))

    modify_miss :
        (value : ℤ)
        → str_eq candidate resource ≡ false
        → modify_loop lib (suc left) k index resource value
          ≡ modify_loop lib left k (suc index) resource value
    unfolding modify_loop
    modify_miss value miss = rw (lib.list_get_lem k.all_resources index) (rw e (rw miss refl))

  -- What a change of a resource leaves, from an index on.
  record Changed (left index : ℕ) (resource : CString) (value n : ℤ) (k : Kernel) : Type 0 where
    kernel : Kernel
    modified : modify_loop lib left k index resource value ≡ done kernel
    same_names : kernel.all_resources ≡ k.all_resources
    available : available_loop lib left kernel index resource ≡ done (wrap_int (n +ℤ value))

  loop_lem :
      (left : ℕ) (k : Kernel) (index : ℕ) (resource : CString) (value n : ℤ)
      → length k.all_resources_instances ≡ length k.all_resources
      → index + left ≡ length k.all_resources
      → available_loop lib left k index resource ≡ done n
      → Changed left index resource value n k
  unfolding available_loop
  loop_lem zero k index resource value n aligned inside before = absurd (crash≢done before)
  loop_lem (suc left) k index resource value n aligned inside before =
      let (candidate, e) = get_elem?-lt k.all_resources index (omega arith) in
      let (initial, f) = get_elem?-lt k.all_resources_instances index (omega arith) in
      elim (Bool-cases (str_eq candidate resource)) [
        | inl hit ↦
            let same : atoi initial ≡ n =
              done_inj (sym (avail_hit left k index resource candidate e initial hit f) ∙ before) in
            record {
              kernel = record k {
                all_resources_instances =
                    lib.list_replace k.all_resources_instances index
                      (lib.string_itoa (wrap_int (n +ℤ value)));
              };
              modified =
                  modify_hit left k index resource candidate e initial value hit f
                  ∙ ap
                      (λ z. done (record k {
                        all_resources_instances =
                            lib.list_replace k.all_resources_instances index
                              (lib.string_itoa (wrap_int (z +ℤ value)));
                      }))
                      same;
              same_names = refl;
              available = hit_lem left k index resource candidate initial (n +ℤ value) e hit f;
            }
        | inr miss ↦
            let r =
              loop_lem left k (suc index) resource value n aligned (omega arith)
                (sym (avail_miss left k index resource candidate e miss) ∙ before) in
            record {
              kernel = r.kernel;
              modified = modify_miss left k index resource candidate e value miss ∙ r.modified;
              same_names = r.same_names;
              available =
                  avail_miss left r.kernel index resource candidate
                    (ap (λ xs. get_elem? xs index) r.same_names ∙ e) miss
                  ∙ r.available;
            }
      ]

  -- When there are as many strings of instances as resources, and
  -- `quantity_resource_instance_available` gives `n` for a resource, `_modify_resource_instance`
  -- by `value` returns and leaves the 32-bit sum of `n` and `value` available, through the decimal
  -- strings in which the counts are kept.
  pub modify_resource_instance-available :
      (k : Kernel) (resource : CString) (value n : ℤ)
      → length k.all_resources_instances ≡ length k.all_resources
      → quantity_resource_instance_available lib k resource ≡ done n
      → (k' : Kernel) × (modify_resource_instance lib k resource value ≡ done k')
        × (quantity_resource_instance_available lib k' resource ≡ done (wrap_int (n +ℤ value)))
  unfolding modify_resource_instance quantity_resource_instance_available
  modify_resource_instance-available k resource value n aligned before =
      let size = lib.list_size k.all_resources in
      let s : size ≡ length k.all_resources = lib.list_size_lem k.all_resources in
      let t : lib.list_size k.all_resources_instances ≡ size =
        lib.list_size_lem k.all_resources_instances ∙ aligned ∙ sym s in
      let r = loop_lem size k 0 resource value n aligned (omega arith) before in
      (
        r.kernel,
        ap (λ m. modify_loop lib m k 0 resource value) t ∙ r.modified,
        ap (λ xs. available_loop lib (lib.list_size xs) r.kernel 0 resource) r.same_names
            ∙ r.available,
      )
