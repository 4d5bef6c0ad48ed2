-- ===== src/Kernel/Balance/Wait.antt =====
-- The loops of deadlocks.c and queues.c over the resources, for a resource that exists.
use old_so_tp.Prelude.{
  ℕ, zero, suc, ◌+◌, ◌≤◌, ◌≡◌, refl, ◌∙◌, sym, some, List, [], ◌∷◌, length, arith, get_elem?,
  get_elem?-lt, lt-get_elem?, Bool, true, false, Bool-cases, inl, inr, ltb, ltb→lt,
}
use old_so_tp.Prelude.CString.{CString, str_eq}
use old_so_tp.Commons.{Commons, find_first}
use old_so_tp.Shared.Process.{Pcb}
use old_so_tp.Kernel.State.{Kernel, QueueRef, blocked_queue}
use old_so_tp.Kernel.Queues.{get_loop, get_queue_blocked}
use old_so_tp.Kernel.Resources.{
  find_resource, available_loop, quantity_resource_instance_available, retained_loop,
  quantity_resource_instance_retained,
}
use old_so_tp.Kernel.Balance.{Returns}

-- The resource is one of the kernel's, at some index.
pub record Exists (k : Kernel) (resource : CString) : Type 0 where
  pub index : ℕ
  pub name : CString
  pub member : get_elem? k.all_resources index ≡ some name
  pub same : str_eq name resource ≡ true

-- The queue is one of the kernel's.
pub record Stands (k : Kernel) (ref : QueueRef) : Type 0 where
  pub index : ℕ
  pub queue : List ℕ
  pub is_blocked : ref ≡ blocked_queue index
  pub found : get_elem? k.list_of_queue_blocked index ≡ some queue

find_first-index :
    (p : CString → Bool) (xs : List CString) (x : CString)
    → find_first p xs ≡ some x
    → (i : ℕ) × (c : CString) × (get_elem? xs i ≡ some c) × (p c ≡ true)
find_first-index p [] x h = cc
find_first-index p (y ∷ xs) x h = elim (Bool-cases (p y)) [
  | inl here ↦ (0, y, refl, here)
  | inr there ↦
      let (i, c, e, f) = find_first-index p xs x (ground (arith, h, there)) in (suc i, c, e, f)
]

-- A loop that has passed an index without a match has the match ahead.
ahead :
    (xs : List CString) (index i : ℕ) (candidate name resource : CString)
    → index ≤ i
    → get_elem? xs index ≡ some candidate
    → get_elem? xs i ≡ some name
    → str_eq name resource ≡ true
    → str_eq candidate resource ≡ false
    → suc index ≤ i
ahead xs index i candidate name resource before here there hit miss =
    elim (Bool-cases (ltb index i)) [
      | inl less ↦ let l = ltb→lt _ _ less in omega arith
      | inr not_less ↦ let same : i ≡ index = ground arith in cc
    ]

module _ (lib : Commons) where
  pub find_resource-Exists :
      (k : Kernel) (resource found : CString)
      → find_resource lib k.all_resources resource ≡ some found
      → Exists k resource
  unfolding find_resource
  find_resource-Exists k resource found h =
      let (i, c, e, f) =
        find_first-index (λ element. str_eq element resource) k.all_resources found
          (sym (lib.list_find_lem k.all_resources _) ∙ h) in
      record { index = i; name = c; member = e; same = f }

  available_loop-safe :
      (left : ℕ) (k : Kernel) (index : ℕ) (resource : CString) (x : Exists k resource)
      → length k.all_resources_instances ≡ length k.all_resources
      → index + left ≡ length k.all_resources
      → index ≤ x.index
      → Returns (λ z. Unit {0}) (available_loop lib left k index resource)
  unfolding available_loop
  available_loop-safe zero k index resource x aligned inside before =
      let l = lt-get_elem? k.all_resources x.index x.name x.member in absurd (omega arith)
  available_loop-safe (suc left) k index resource x aligned inside before =
      let (candidate, e) = get_elem?-lt k.all_resources index (omega arith) in
      let (instances, f) = get_elem?-lt k.all_resources_instances index (omega arith) in
      rw (lib.list_get_lem k.all_resources index) (
        rw e (elim (Bool-cases (str_eq candidate resource)) [
          | inl hit ↦ rw hit (rw (lib.list_get_lem k.all_resources_instances index) (rw f tt))
          | inr miss ↦ rw miss (
              available_loop-safe left k (suc index) resource x aligned (omega arith) (
                ahead k.all_resources index x.index candidate x.name resource before e x.member
                  x.same miss))
        ]))

  pub available-safe :
      (k : Kernel) (resource : CString)
      → Exists k resource
      → length k.all_resources_instances ≡ length k.all_resources
      → Returns (λ z. Unit {0}) (quantity_resource_instance_available lib k resource)
  unfolding quantity_resource_instance_available
  available-safe k resource x aligned =
      available_loop-safe (lib.list_size k.all_resources) k 0 resource x aligned
        (omega (arith, lib.list_size_lem k.all_resources)) (omega arith)

  retained_loop-safe :
      (left : ℕ) (held : List CString) (index : ℕ) (resource : CString) (count : ℕ)
      → index + left ≡ length held
      → Returns (λ n. Unit {0}) (retained_loop lib left held index resource count)
  unfolding retained_loop
  retained_loop-safe zero held index resource count inside = tt
  retained_loop-safe (suc left) held index resource count inside =
      let (candidate, e) = get_elem?-lt held index (omega arith) in
      rw (lib.list_get_lem held index)
        (rw e (retained_loop-safe left held (suc index) resource _ (omega arith)))

  pub retained-safe :
      (pcb : Pcb) (resource : CString)
      → Returns (λ n. Unit {0}) (quantity_resource_instance_retained lib pcb resource)
  unfolding quantity_resource_instance_retained
  retained-safe pcb resource =
      retained_loop-safe (lib.list_size pcb.resources) pcb.resources 0 resource 0
        (omega (arith, lib.list_size_lem pcb.resources))

  get_loop-keeps :
      (left : ℕ) (k : Kernel) (index : ℕ) (tag : CString) (found : QueueRef)
      → length k.list_of_queue_blocked ≡ length k.all_resources
      → index + left ≡ length k.list_of_queue_blocked
      → Stands k found
      → Returns (Stands k) (get_loop lib left k index tag found)
  unfolding get_loop
  get_loop-keeps zero k index tag found aligned inside s = s
  get_loop-keeps (suc left) k index tag found aligned inside s =
      let (candidate, e) = get_elem?-lt k.all_resources index (omega arith) in
      let (queue, f) = get_elem?-lt k.list_of_queue_blocked index (omega arith) in
      rw (lib.list_get_lem k.all_resources index) (
        rw e (
          get_loop-keeps left k (suc index) tag _ aligned (omega arith)
            (elim (Bool-cases (str_eq candidate tag)) [
              | inl hit ↦
                  rw hit (record { index = index; queue = queue; is_blocked = refl; found = f })
              | inr miss ↦ rw miss s
            ])))

  get_loop-Stands :
      (left : ℕ) (k : Kernel) (index : ℕ) (tag : CString) (found : QueueRef) (x : Exists k tag)
      → length k.list_of_queue_blocked ≡ length k.all_resources
      → index + left ≡ length k.list_of_queue_blocked
      → index ≤ x.index
      → Returns (Stands k) (get_loop lib left k index tag found)
  unfolding get_loop
  get_loop-Stands zero k index tag found x aligned inside before =
      let l = lt-get_elem? k.all_resources x.index x.name x.member in absurd (omega arith)
  get_loop-Stands (suc left) k index tag found x aligned inside before =
      let (candidate, e) = get_elem?-lt k.all_resources index (omega arith) in
      let (queue, f) = get_elem?-lt k.list_of_queue_blocked index (omega arith) in
      rw (lib.list_get_lem k.all_resources index) (
        rw e (elim (Bool-cases (str_eq candidate tag)) [
          | inl hit ↦ rw hit (
              get_loop-keeps left k (suc index) tag (blocked_queue index) aligned (omega arith)
                (record { index = index; queue = queue; is_blocked = refl; found = f }))
          | inr miss ↦ rw miss (
              get_loop-Stands left k (suc index) tag found x aligned (omega arith) (
                ahead k.all_resources index x.index candidate x.name tag before e x.member x.same
                  miss))
        ]))

  -- A resource that exists has a queue of blocked processes.
  pub get_queue_blocked-Stands :
      (k : Kernel) (tag : CString)
      → Exists k tag
      → length k.list_of_queue_blocked ≡ length k.all_resources
      → Returns (Stands k) (get_queue_blocked lib k tag)
  unfolding get_queue_blocked
  get_queue_blocked-Stands k tag x aligned =
      get_loop-Stands (lib.list_size k.list_of_queue_blocked) k 0 tag _ x aligned
        (omega (arith, lib.list_size_lem k.list_of_queue_blocked)) (omega arith)
