-- ===== src/Kernel/Balance/Grant.antt =====
-- `handle_wait_interruption` for a resource that exists: the process gets an instance or blocks.
use old_so_tp.Prelude.{
  ℕ, ◌<◌, ◌≡◌, refl, ap, ◌∙◌, sym, subst, some, length, get_elem?, false, Bool-cases, inl, inr,
}
use old_so_tp.Prelude.Int.{pos, negsuc, ltb_ℤ, ◌+ℤ◌, wrap_int}
use old_so_tp.Prelude.CString.{CString}
use old_so_tp.Commons.{Commons}
use old_so_tp.Shared.Operation.{wait_response}
use old_so_tp.Kernel.State.{Kernel, done, ◌>>=◌, send_pcb, to_cpu, write_pcb}
use old_so_tp.Kernel.Queues.{get_queue_blocked}
use old_so_tp.Kernel.Resources.{
  find_resource, quantity_resource_instance_available, quantity_resource_instance_retained,
  remove_resource_instance, modify_resource_instance,
}
use old_so_tp.Kernel.Deadlocks.{
  finish_process_if_is_not_valid, assign, wait_valid, handle_wait_interruption,
  move_process_from_exec_to_blocked,
}
use old_so_tp.Kernel.Balance.{Counts, settled, Returns}
use old_so_tp.Kernel.Balance.Rules.{Ends-bind, Ends-weaken}
use old_so_tp.Kernel.Balance.Release.{SameBut, modify_resource_instance-SameBut}
use old_so_tp.Kernel.Balance.Finish.{repack, Counts-same}
use old_so_tp.Kernel.Balance.Block.{move_process_from_exec_to_blocked-Counts}
use old_so_tp.Kernel.Balance.Wait.{
  Exists, Stands, find_resource-Exists, available-safe, retained-safe, get_queue_blocked-Stands,
}

module _ (lib : Commons) (degree long short : ℕ) where
  -- One instance goes to the process; nothing else of the counts changes.
  pub assign-Counts :
      (k : Kernel) (process : ℕ) (resource : CString)
      → Counts settled degree long short k
      → Returns
          (λ k'. Counts settled degree long short k' × (k'.all_resources ≡ k.all_resources))
          (assign lib k process resource)
  unfolding assign remove_resource_instance
  assign-Counts k process resource c =
      let k0 : Kernel = record k {
        heap = write_pcb k.heap process (record (k.heap process) {
          program_counter = wrap_int ((k.heap process).program_counter +ℤ pos 1);
          resources = lib.list_add (k.heap process).resources resource;
        });
      } in
      Ends-weaken ⊥ (SameBut k0) _ (modify_resource_instance lib k0 resource (negsuc 0))
        (λ k' b. (
          Counts-same settled degree long short k0 k'
              (repack settled degree long short k k.all_resources_instances k0 c refl refl) b,
          ap (λ j. j.all_resources) b.changed,
        ))
        (modify_resource_instance-SameBut lib k0 resource (negsuc 0) c.instance_count)

  grant_step :
      (k : Kernel) (process : ℕ) (resource : CString)
      → Counts settled degree long short k
      → Exists k resource
      → Returns (Counts settled degree long short) (
          assign lib k process resource >>= λ k1.
          quantity_resource_instance_retained lib (k1.heap process) resource >>= λ n.
          quantity_resource_instance_available lib k1 resource >>= λ m.
          done (send_pcb k1 to_cpu wait_response process))
  grant_step k process resource c x =
      let Q = Counts settled degree long short in
      Ends-bind ⊥ (λ k'. Q k' × (k'.all_resources ≡ k.all_resources)) Q
        (assign lib k process resource) _ (assign-Counts k process resource c)
        (λ k1 r.
          Ends-bind ⊥ (λ n. Unit {0}) Q
            (quantity_resource_instance_retained lib (k1.heap process) resource) _
            (retained-safe lib (k1.heap process) resource)
            (λ n u.
              Ends-bind ⊥ (λ z. Unit {0}) Q (quantity_resource_instance_available lib k1 resource) _
                (available-safe lib k1 resource
                  (record {
                    index = x.index;
                    name = x.name;
                    member = ap (λ xs. get_elem? xs x.index) r.1 ∙ x.member;
                    same = x.same;
                  })
                  r.0.instance_count)
                (λ m v.
                  repack settled degree long short k1 k1.all_resources_instances
                    (send_pcb k1 to_cpu wait_response process) r.0 refl refl)))

  block_step :
      (k : Kernel) (process : ℕ) (resource : CString)
      → Counts settled degree long short k
      → Exists k resource
      → 0 < length k.queue_exec
      → Returns (Counts settled degree long short) (
          quantity_resource_instance_retained lib (k.heap process) resource >>= λ n.
          get_queue_blocked lib k resource >>= λ queue.
          move_process_from_exec_to_blocked lib k queue)
  block_step k process resource c x running =
      let Q = Counts settled degree long short in
      Ends-bind ⊥ (λ n. Unit {0}) Q
        (quantity_resource_instance_retained lib (k.heap process) resource) _
        (retained-safe lib (k.heap process) resource)
        (λ n u.
          Ends-bind ⊥ (Stands k) Q (get_queue_blocked lib k resource) _
            (get_queue_blocked-Stands lib k resource x c.queue_count)
            (λ ref s.
              subst (λ r. Returns Q (move_process_from_exec_to_blocked lib k r)) (sym s.is_blocked)
                (move_process_from_exec_to_blocked-Counts lib settled degree long short k s.index
                  s.queue c s.found running)))

  wait_valid-Counts :
      (k : Kernel) (process : ℕ) (resource : CString)
      → Counts settled degree long short k
      → Exists k resource
      → 0 < length k.queue_exec
      → Returns (Counts settled degree long short) (wait_valid lib k process resource)
  unfolding wait_valid
  wait_valid-Counts k process resource c x running =
      let Q = Counts settled degree long short in
      Ends-bind ⊥ (λ z. Unit {0}) Q (quantity_resource_instance_available lib k resource) _
        (available-safe lib k resource x c.instance_count)
        (λ available u. elim (Bool-cases (ltb_ℤ (pos 0) available)) [
          | inl free ↦ rw free (grant_step k process resource c x)
          | inr taken ↦ rw taken (block_step k process resource c x running)
        ])

  pub valid_lem :
      (k : Kernel) (process : ℕ) (resource found : CString)
      → find_resource lib k.all_resources resource ≡ some found
      → finish_process_if_is_not_valid lib k process resource ≡ done (false, k)
  unfolding finish_process_if_is_not_valid
  valid_lem k process resource found h = rw (h, finish_process_if_is_not_valid) refl

  -- Where the counts fit the queues, a process runs and the requested resource exists,
  -- `handle_wait_interruption` never waits, uses no null pointer and no unset value, whether it
  -- grants an instance or blocks the running process, and the counts fit the queues after it.
  pub handle_wait_interruption-Counts :
      (k : Kernel) (process : ℕ) (resource found : CString)
      → Counts settled degree long short k
      → find_resource lib k.all_resources resource ≡ some found
      → 0 < length k.queue_exec
      → Returns (Counts settled degree long short) (handle_wait_interruption lib k process resource)
  unfolding handle_wait_interruption
  handle_wait_interruption-Counts k process resource found c h running =
      rw (valid_lem k process resource found h) (
        wait_valid-Counts k process resource c (find_resource-Exists lib k resource found h)
          running)
