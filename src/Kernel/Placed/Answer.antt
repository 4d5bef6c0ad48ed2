-- ===== src/Kernel/Placed/Answer.antt =====
-- The answers to WAIT and SIGNAL (kernel/src/deadlocks.c) keep the places.
use old_so_tp.Prelude.{
  ℕ, ◌≡◌, refl, sym, subst, false, List, ◌==◌, arith, Bool-cases, Option-cases, inl, inr,
  if◌then◌else◌,
}
use old_so_tp.Prelude.Int.{pos, negsuc, ltb_ℤ, ◌+ℤ◌, wrap_int}
use old_so_tp.Prelude.CString.{CString}
use old_so_tp.Commons.{Commons}
use old_so_tp.Shared.Process.{Pcb}
use old_so_tp.Kernel.State.{Kernel, Run, done, ◌>>=◌, write_pcb}
use old_so_tp.Kernel.Resources.{
  find_resource, remove_resource_instance, add_resource_instance, modify_resource_instance,
  quantity_resource_instance_available, quantity_resource_instance_retained,
}
use old_so_tp.Kernel.Queues.{get_queue_blocked, finish_process_by_id}
use old_so_tp.Kernel.Deadlocks.{
  finish_process_if_is_not_valid, remove_found, signal_valid, handle_signal_interruption, assign,
  wait_valid, handle_wait_interruption,
}
use old_so_tp.Kernel.Balance.Release.{SameBut, modify_resource_instance-SameBut}
use old_so_tp.Kernel.Placed.{Placed, Leaves}
use old_so_tp.Kernel.Placed.Rules.{Fits-state, Leaves-bind, Leaves-then, Leaves-Ends, Leaves-weaken}
use old_so_tp.Kernel.Placed.Block.{
  get_queue_blocked-IsBlocked, move_process_from_exec_to_blocked-Placed,
}
use old_so_tp.Kernel.Placed.Moves.{IsBlocked}
use old_so_tp.Kernel.Placed.Finish.{Aligned, finish_process_by_id-Placed}

write_pcb-state :
    (heap : ℕ → Pcb) (process : ℕ) (pcb : Pcb) (a : ℕ)
    → pcb.state ≡ (heap process).state
    → (write_pcb heap process pcb a).state ≡ (heap a).state
write_pcb-state heap process pcb a same = elim (Bool-cases (a == process)) [
  | inl here ↦
      let e : process ≡ a = ground (arith, here) in
      rw here (subst (λ b. pcb.state ≡ (heap b).state) e same)
  | inr there ↦ rw there refl
]

module _ (lib : Commons) (asleep : List ℕ) where
  -- A control block is written whose state is not new.
  write_pcb-Placed :
      (k : Kernel) (process : ℕ) (pcb : Pcb) (instances : List CString)
      → pcb.state ≡ (k.heap process).state
      → Placed asleep k
      → Placed asleep
          (record k { heap = write_pcb k.heap process pcb; all_resources_instances = instances })
  write_pcb-Placed k process pcb instances same placed a =
      Fits-state (sym (write_pcb-state k.heap process pcb a same)) (placed a)

  -- The process was finished, or nothing has changed.
  finish_process_if_is_not_valid-Placed :
      (k : Kernel) (process : ℕ) (resource : CString)
      → Placed asleep k
      → Aligned k
      → Leaves
          (λ r. Placed asleep r.1 × (r.0 ≡ false → Aligned r.1))
          (finish_process_if_is_not_valid lib k process resource)
  unfolding finish_process_if_is_not_valid
  finish_process_if_is_not_valid-Placed k process resource placed aligned =
      elim (Option-cases (find_resource lib k.all_resources resource)) [
        | inl missing ↦
            rw (missing, finish_process_if_is_not_valid)
              (Leaves-bind (Placed asleep) _ (finish_process_by_id lib k (k.heap process).pid) _
                (finish_process_by_id-Placed lib asleep k (k.heap process).pid placed aligned)
                (λ k' placed'. (placed', λ e. cc)))
        | inr (x, found) ↦ rw (found, finish_process_if_is_not_valid) (placed, λ e. aligned)
      ]

  -- What follows the check of the resource.
  checked_first :
      (k : Kernel) (process : ℕ) (resource : CString) (next : Kernel → Run Kernel)
      → Placed asleep k
      → Aligned k
      → ((k' : Kernel) → Placed asleep k' → Aligned k' → Leaves (Placed asleep) (next k'))
      → Leaves (Placed asleep) (
          finish_process_if_is_not_valid lib k process resource >>= λ (is_not_valid, k').
          if is_not_valid then done k' else next k')
  checked_first k process resource next placed aligned h =
      Leaves-bind (λ r. Placed asleep r.1 × (r.0 ≡ false → Aligned r.1)) (Placed asleep)
        (finish_process_if_is_not_valid lib k process resource) _
        (finish_process_if_is_not_valid-Placed k process resource placed aligned)
        (λ r c. elim (Bool-cases r.0) [
          | inl finished ↦ rw finished c.0
          | inr valid ↦ rw valid (h r.1 c.0 (c.1 valid))
        ])

  release-Placed :
      (k : Kernel) (process : ℕ) (resource : CString) (pcb : Pcb)
      → pcb.state ≡ (k.heap process).state
      → Placed asleep k
      → Aligned k
      → Leaves (Placed asleep) (
          add_resource_instance lib k resource >>= λ k1.
          done (record k1 { heap = write_pcb k1.heap process pcb }))
  unfolding add_resource_instance
  release-Placed k process resource pcb same placed aligned =
      Leaves-bind (SameBut k) (Placed asleep) (modify_resource_instance lib k resource (pos 1)) _
        (Leaves-Ends ⊥ (SameBut k) (modify_resource_instance lib k resource (pos 1))
          (modify_resource_instance-SameBut lib k resource (pos 1) aligned))
        (λ k1 b.
          subst (λ (j : Kernel). Placed asleep (record j { heap = write_pcb j.heap process pcb }))
            (sym b.changed) (write_pcb-Placed k process pcb b.instances same placed))

  signal_valid-Placed :
      (k : Kernel) (process : ℕ) (resource : CString)
      → Placed asleep k
      → Aligned k
      → Leaves (Placed asleep) (signal_valid lib k process resource)
  unfolding signal_valid
  signal_valid-Placed k process resource placed aligned =
      elim (Option-cases (find_resource lib (k.heap process).resources resource)) [
        | inl missing ↦
            rw (missing, signal_valid)
              (Leaves-then (Placed asleep)
                (quantity_resource_instance_retained lib (k.heap process) resource) _
                (λ n.
                  Leaves-then (Placed asleep) (quantity_resource_instance_available lib k resource)
                    _
                    (λ m.
                      finish_process_by_id-Placed lib asleep k (k.heap process).pid placed
                        aligned)))
        | inr (x, found) ↦
            rw (found, signal_valid)
              (Leaves-bind (Placed asleep) (Placed asleep) _ _
                (release-Placed k process resource
                  (record (k.heap process) {
                    resources = remove_found lib (k.heap process).resources resource;
                    program_counter = wrap_int ((k.heap process).program_counter +ℤ pos 1);
                  })
                  refl placed aligned)
                (λ k2 placed2.
                  Leaves-then (Placed asleep)
                    (quantity_resource_instance_retained lib (k2.heap process) resource) _
                    (λ n.
                      Leaves-then (Placed asleep)
                        (quantity_resource_instance_available lib k2 resource) _ (λ m. placed2))))
      ]

  pub handle_signal_interruption-Placed :
      (k : Kernel) (process : ℕ) (resource : CString)
      → Placed asleep k
      → Aligned k
      → Leaves (Placed asleep) (handle_signal_interruption lib k process resource)
  unfolding handle_signal_interruption
  handle_signal_interruption-Placed k process resource placed aligned =
      checked_first k process resource (λ k'. signal_valid lib k' process resource) placed aligned
        (λ k' placed' aligned'. signal_valid-Placed k' process resource placed' aligned')

  assign-Placed :
      (k : Kernel) (process : ℕ) (resource : CString)
      → Placed asleep k
      → Aligned k
      → Leaves (Placed asleep) (assign lib k process resource)
  unfolding assign remove_resource_instance
  assign-Placed k process resource placed aligned =
      let pcb : Pcb = record (k.heap process) {
        program_counter = wrap_int ((k.heap process).program_counter +ℤ pos 1);
        resources = lib.list_add (k.heap process).resources resource;
      } in
      let k0 : Kernel = record k { heap = write_pcb k.heap process pcb } in
      let m = modify_resource_instance lib k0 resource (negsuc 0) in
      Leaves-weaken (SameBut k0) (Placed asleep) m
        (λ k1 b.
          subst (Placed asleep) (sym b.changed)
            (write_pcb-Placed k process pcb b.instances refl placed))
        (Leaves-Ends ⊥ (SameBut k0) m
          (modify_resource_instance-SameBut lib k0 resource (negsuc 0) aligned))

  wait_valid-Placed :
      (k : Kernel) (process : ℕ) (resource : CString)
      → Placed asleep k
      → Aligned k
      → Leaves (Placed asleep) (wait_valid lib k process resource)
  unfolding wait_valid
  wait_valid-Placed k process resource placed aligned =
      Leaves-then (Placed asleep) (quantity_resource_instance_available lib k resource) _
        (λ available. elim (Bool-cases (ltb_ℤ (pos 0) available)) [
          | inl free ↦ rw free (
              Leaves-bind (Placed asleep) (Placed asleep) (assign lib k process resource) _
                (assign-Placed k process resource placed aligned)
                (λ k1 placed1.
                  Leaves-then (Placed asleep)
                    (quantity_resource_instance_retained lib (k1.heap process) resource) _
                    (λ n.
                      Leaves-then (Placed asleep)
                        (quantity_resource_instance_available lib k1 resource) _ (λ m. placed1))))
          | inr taken ↦ rw taken (
              Leaves-then (Placed asleep)
                (quantity_resource_instance_retained lib (k.heap process) resource) _
                (λ n.
                  Leaves-bind IsBlocked (Placed asleep) (get_queue_blocked lib k resource) _
                    (get_queue_blocked-IsBlocked lib asleep k resource)
                    (λ ref b. move_process_from_exec_to_blocked-Placed lib asleep k ref b placed)))
        ])

  pub handle_wait_interruption-Placed :
      (k : Kernel) (process : ℕ) (resource : CString)
      → Placed asleep k
      → Aligned k
      → Leaves (Placed asleep) (handle_wait_interruption lib k process resource)
  unfolding handle_wait_interruption
  handle_wait_interruption-Placed k process resource placed aligned =
      checked_first k process resource (λ k'. wait_valid lib k' process resource) placed aligned
        (λ k' placed' aligned'. wait_valid-Placed k' process resource placed' aligned')
