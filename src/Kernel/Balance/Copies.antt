-- ===== src/Kernel/Balance/Copies.antt =====
-- The control block that comes with a report of the CPU is a copy, and WAIT records the instance
-- that it grants in the copy.
use old_so_tp.Prelude.{
  ℕ, zero, suc, ◌<◌, ◌≡◌, refl, ap, ◌∙◌, sym, subst, if◌then◌else◌, some, List, length, true, false,
  arith, ◌==◌,
}
use old_so_tp.Prelude.Int.{ℤ, pos, negsuc, ltb_ℤ, ◌+ℤ◌, wrap_int}
use old_so_tp.Prelude.CString.{CString, str_eq}
use old_so_tp.Prelude.Decimal.{atoi}
use old_so_tp.Commons.{Commons}
use old_so_tp.Shared.Process.{Pcb}
use old_so_tp.Kernel.State.{
  Kernel, Message, Run, done, waits, crash, ◌>>=◌, not_null, allocate, write_pcb,
}
use old_so_tp.Kernel.Resources.{
  available_loop, find_resource, quantity_resource_instance_available,
  quantity_resource_instance_retained, remove_resource_instance, modify_resource_instance,
}
use old_so_tp.Kernel.Deadlocks.{assign, wait_valid, handle_wait_interruption}
use old_so_tp.Kernel.Resources.Accounts.{modify_resource_instance-available}
use old_so_tp.Kernel.Connection.{wait_for, handle_dispatch}
use old_so_tp.Kernel.Balance.{Counts, settled, Returns}
use old_so_tp.Kernel.Balance.Release.{SameBut, modify_resource_instance-SameBut}
use old_so_tp.Kernel.Balance.Grant.{valid_lem, handle_wait_interruption-Counts}
use old_so_tp.Kernel.Balance.Rules.{Ends-weaken}
use old_so_tp.Kernel.Balance.Dispatch.{allocate-Counts}
use old_so_tp.Kernel.Placed.{Leaves}
use old_so_tp.Kernel.Placed.Rules.{
  Leaves-bind, Leaves-then, Leaves-weaken, Leaves-Ends, Ends-Leaves,
}

-- The control blocks below an address, and the queues, are those of `k`.
pub record SameBelow (k : Kernel) (address : ℕ) (k' : Kernel) : Type 0 where
  pub blocks_below : (a : ℕ) → a < address → k'.heap a ≡ k.heap a
  pub same_exec : k'.queue_exec ≡ k.queue_exec
  pub same_ready : k'.queue_ready ≡ k.queue_ready
  pub same_blocked : k'.list_of_queue_blocked ≡ k.list_of_queue_blocked

not_at :
    (heap : ℕ → Pcb) (address : ℕ) (pcb : Pcb) (a : ℕ)
    → a < address
    → write_pcb heap address pcb a ≡ heap a
not_at heap address pcb a below = let other : (a == address) ≡ false = ground arith in rw other refl

Leaves-both :
    {A : Type 0} (P Q : A → Type 0) (m : Run A)
    → Leaves P m
    → Leaves Q m
    → Leaves (λ a. P a × Q a) m
Leaves-both P Q (done a) p q = (p, q)
Leaves-both P Q waits p q = tt
Leaves-both P Q crash p q = tt

module _ (lib : Commons) where
  -- One instance fewer is available, and no control block of before is changed.
  abbrev pub Granted : Kernel → CString → ℤ → Kernel → Type 0
  Granted k resource available k' =
      SameBelow k k.next_address k'
      × (quantity_resource_instance_available lib k' resource
          ≡ done (wrap_int (available +ℤ negsuc 0)))

module _ (lib : Commons) (degree long short : ℕ) where
  -- The instances do not depend on the control blocks and the messages.
  available_same :
      (left : ℕ) (k : Kernel) (heap : ℕ → Pcb) (n : ℕ) (sent : List Message) (index : ℕ)
      (resource : CString)
      → available_loop lib left
          (record k { heap = heap; next_address = n; sent = sent })
          index
          resource
        ≡ available_loop lib left k index resource
  unfolding available_loop
  available_same zero k heap n sent index resource = refl
  available_same (suc left) k heap n sent index resource =
      ap
        (λ rest. not_null (lib.list_get k.all_resources index) >>= λ candidate.
          if str_eq candidate resource
          then (not_null (lib.list_get k.all_resources_instances index) >>= λ instances.
              done (atoi instances))
          else rest)
        (available_same left k heap n sent (suc index) resource)

  quantity_same :
      (k : Kernel) (heap : ℕ → Pcb) (n : ℕ) (sent : List Message) (resource : CString)
      → quantity_resource_instance_available lib
          (record k { heap = heap; next_address = n; sent = sent })
          resource
        ≡ quantity_resource_instance_available lib k resource
  unfolding quantity_resource_instance_available
  quantity_same k heap n sent resource =
      available_same (lib.list_size k.all_resources) k heap n sent 0 resource

  assign-SameBelow :
      (k : Kernel) (pcb : Pcb) (resource : CString) (available : ℤ)
      → Counts settled degree long short k
      → quantity_resource_instance_available lib k resource ≡ done available
      → Leaves
          (Granted lib k resource available)
          (assign lib (allocate k pcb) k.next_address resource)
  unfolding assign remove_resource_instance
  assign-SameBelow k pcb resource available c known =
      let k0 = allocate k pcb in
      let n = k.next_address in
      let granted : Pcb = record (k0.heap n) {
        program_counter = wrap_int ((k0.heap n).program_counter +ℤ pos 1);
        resources = lib.list_add (k0.heap n).resources resource;
      } in
      let k1 : Kernel = record k0 { heap = write_pcb k0.heap n granted } in
      let m = modify_resource_instance lib k1 resource (negsuc 0) in
      let (k2, changed, left) =
        modify_resource_instance-available lib k1 resource (negsuc 0) available c.instance_count
          (quantity_same k k1.heap k1.next_address k.sent resource ∙ known) in
      Leaves-weaken
        (λ k'.
          SameBut k1 k'
          × (quantity_resource_instance_available lib k' resource
              ≡ done (wrap_int (available +ℤ negsuc 0))))
        (Granted lib k resource available) m
        (λ k' (b, fewer). (
          record {
            blocks_below = λ a below.
                ap (λ (j : Kernel). j.heap a) b.changed
                ∙ not_at k0.heap n granted a below
                ∙ not_at k.heap n pcb a below;
            same_exec = ap (λ (j : Kernel). j.queue_exec) b.changed;
            same_ready = ap (λ (j : Kernel). j.queue_ready) b.changed;
            same_blocked = ap (λ (j : Kernel). j.list_of_queue_blocked) b.changed;
          },
          fewer,
        ))
        (Leaves-both (SameBut k1)
          (λ k'.
            quantity_resource_instance_available lib k' resource
            ≡ done (wrap_int (available +ℤ negsuc 0)))
          m
          (Leaves-Ends ⊥ (SameBut k1) m
            (modify_resource_instance-SameBut lib k1 resource (negsuc 0) c.instance_count))
          (subst
            (Leaves (λ k'.
              quantity_resource_instance_available lib k' resource
              ≡ done (wrap_int (available +ℤ negsuc 0))))
            (sym changed) left))

  Granted_lem :
      (k : Kernel) (pcb : Pcb) (resource found : CString) (available : ℤ)
      → Counts settled degree long short k
      → find_resource lib k.all_resources resource ≡ some found
      → quantity_resource_instance_available lib k resource ≡ done available
      → ltb_ℤ (pos 0) available ≡ true
      → Leaves
          (Granted lib k resource available)
          (handle_wait_interruption lib (allocate k pcb) k.next_address resource)
  unfolding handle_wait_interruption wait_valid
  Granted_lem k pcb resource found available c exists known free =
      let P = Granted lib k resource available in
      let k0 = allocate k pcb in
      let known0 : quantity_resource_instance_available lib k0 resource ≡ done available =
        quantity_same k k0.heap k0.next_address k.sent resource ∙ known in
      rw (valid_lem lib degree long short k0 k.next_address resource found exists) (
        rw known0 (
          rw free (
            Leaves-bind P P (assign lib k0 k.next_address resource) _
              (assign-SameBelow k pcb resource available c known)
              (λ k1 (same, fewer).
                Leaves-then P
                  (quantity_resource_instance_retained lib (k1.heap k.next_address) resource) _
                  (λ n. Leaves-then P (quantity_resource_instance_available lib k1 resource) _ (λ m.
                    (
                      record {
                        blocks_below = same.blocks_below;
                        same_exec = same.same_exec;
                        same_ready = same.same_ready;
                        same_blocked = same.same_blocked;
                      },
                      quantity_same k1 k1.heap k1.next_address _ resource ∙ fewer,
                    )))))))

  -- Where the counts fit the queues and a process runs, WAIT for a resource that exists and has an
  -- instance available returns with one instance fewer available, while every control block that
  -- was allocated before, so each in a queue, is as it was, and the execution, ready and blocked
  -- queues too: no process in a queue holds the instance.
  pub handle_dispatch-Granted :
      (k : Kernel) (pcb : Pcb) (resource found : CString) (available : ℤ)
      → Counts settled degree long short k
      → 0 < length k.queue_exec
      → find_resource lib k.all_resources resource ≡ some found
      → quantity_resource_instance_available lib k resource ≡ done available
      → ltb_ℤ (pos 0) available ≡ true
      → Returns (Granted lib k resource available) (handle_dispatch lib k (wait_for pcb resource))
  unfolding handle_dispatch
  handle_dispatch-Granted k pcb resource found available c running exists known free =
      let k0 = allocate k pcb in
      let m = handle_wait_interruption lib k0 k.next_address resource in
      Ends-weaken ⊥
        (λ k'. Counts settled degree long short k' × Granted lib k resource available k')
        (Granted lib k resource available) m (λ k' both. both.1)
        (Ends-Leaves ⊥ (Counts settled degree long short) (Granted lib k resource available) m
          (handle_wait_interruption-Counts lib degree long short k0 k.next_address resource found
            (allocate-Counts lib degree long short k pcb c) exists running)
          (Granted_lem k pcb resource found available c exists known free))
