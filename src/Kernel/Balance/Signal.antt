-- ===== src/Kernel/Balance/Signal.antt =====
-- `handle_signal_interruption` and `handle_wait_interruption` for any resource, whether it exists or
-- not.
use old_so_tp.Prelude.{
  ℕ, ◌<◌, ◌≡◌, refl, ap, ◌∙◌, Option, none, some, length, get_elem?, true, if◌then◌else◌,
}
use old_so_tp.Prelude.Int.{pos, ◌+ℤ◌, wrap_int}
use old_so_tp.Prelude.CString.{CString}
use old_so_tp.Commons.{Commons}
use old_so_tp.Shared.Operation.{signal_response}
use old_so_tp.Kernel.State.{Kernel, Run, done, waits, crash, ◌>>=◌, send_pcb, to_cpu, write_pcb}
use old_so_tp.Kernel.Queues.{finish_process_by_id}
use old_so_tp.Kernel.Resources.{
  find_resource, quantity_resource_instance_available, quantity_resource_instance_retained,
  add_resource_instance, modify_resource_instance,
}
use old_so_tp.Kernel.Deadlocks.{
  finish_process_if_is_not_valid, remove_found, signal_valid, handle_signal_interruption,
  handle_wait_interruption,
}
use old_so_tp.Kernel.Balance.{Counts, settled, Ends, Returns}
use old_so_tp.Kernel.Balance.Rules.{Ends-bind, Ends-weaken, Ends-map, Returns-Ends}
use old_so_tp.Kernel.Balance.Release.{SameBut, modify_resource_instance-SameBut}
use old_so_tp.Kernel.Balance.Finish.{repack, Counts-same}
use old_so_tp.Kernel.Balance.Search.{InState, finish_process_by_id-Counts}
use old_so_tp.Kernel.Balance.Wait.{Exists, find_resource-Exists, available-safe, retained-safe}
use old_so_tp.Kernel.Balance.Grant.{valid_lem, handle_wait_interruption-Counts}

-- A handler that returns after the process was finished.
finished_first :
    (W : Type 0) (Q : Kernel → Type 0) (m : Run Kernel) (next : Kernel → Run Kernel)
    → Ends W Q m
    → Ends W Q
        (m >>= (λ k. done (true, k)) >>= λ (finished, k). if finished then done k else next k)
finished_first W Q (done k) next h = h
finished_first W Q waits next h = h
finished_first W Q crash next h = h

module _ (lib : Commons) (degree long short : ℕ) where
  invalid_lem :
      (k : Kernel) (process : ℕ) (resource : CString)
      → find_resource lib k.all_resources resource ≡ none
      → finish_process_if_is_not_valid lib k process resource
        ≡ (finish_process_by_id lib k (k.heap process).pid >>= λ k'. done (true, k'))
  unfolding finish_process_if_is_not_valid
  invalid_lem k process resource h = rw (h, finish_process_if_is_not_valid) refl

  -- The process without one of its resources, at the next instruction.
  abbrev signalled : Kernel → ℕ → CString → Kernel → Kernel
  signalled k process resource k1 = record k1 {
    heap = write_pcb k1.heap process (record (k.heap process) {
      resources = remove_found lib (k.heap process).resources resource;
      program_counter = wrap_int ((k.heap process).program_counter +ℤ pos 1);
    });
  }

  release-Counts :
      (k : Kernel) (process : ℕ) (resource : CString)
      → Counts settled degree long short k
      → Returns
          (λ k'. Counts settled degree long short k' × (k'.all_resources ≡ k.all_resources))
          (add_resource_instance lib k resource >>= λ k1. done (signalled k process resource k1))
  unfolding add_resource_instance
  release-Counts k process resource c =
      let P : Kernel → Type 0 =
        λ k'. Counts settled degree long short k' × (k'.all_resources ≡ k.all_resources) in
      Ends-map ⊥ P (modify_resource_instance lib k resource (pos 1)) (signalled k process resource)
        (Ends-weaken ⊥ (SameBut k) (λ k1. P (signalled k process resource k1))
          (modify_resource_instance lib k resource (pos 1))
          (λ k1 b. (
            repack settled degree long short k1 k1.all_resources_instances
                (signalled k process resource k1) (Counts-same settled degree long short k k1 c b)
                refl refl,
            ap (λ j. j.all_resources) b.changed,
          ))
          (modify_resource_instance-SameBut lib k resource (pos 1) c.instance_count))

  -- The resource is given back, and the CPU is told.
  answer_step :
      (k : Kernel) (process : ℕ) (resource : CString)
      → Counts settled degree long short k
      → Exists k resource
      → Ends (0 < short) (Counts settled degree long short) (
          (add_resource_instance lib k resource >>= λ k1. done (signalled k process resource k1))
          >>= λ k2. quantity_resource_instance_retained lib (k2.heap process) resource >>= λ n.
              quantity_resource_instance_available lib k2 resource >>= λ m.
              done (send_pcb k2 to_cpu signal_response process))
  answer_step k process resource c x =
      let Q = Counts settled degree long short in
      Ends-bind (0 < short) (λ k'. Q k' × (k'.all_resources ≡ k.all_resources)) Q
        (add_resource_instance lib k resource >>= λ k1. done (signalled k process resource k1)) _
        (release-Counts k process resource c)
        (λ k2 r.
          Ends-bind (0 < short) (λ n. Unit {0}) Q
            (quantity_resource_instance_retained lib (k2.heap process) resource) _
            (retained-safe lib (k2.heap process) resource)
            (λ n u.
              Ends-bind (0 < short) (λ z. Unit {0}) Q
                (quantity_resource_instance_available lib k2 resource) _
                (available-safe lib k2 resource
                  (record {
                    index = x.index;
                    name = x.name;
                    member = ap (λ xs. get_elem? xs x.index) r.1 ∙ x.member;
                    same = x.same;
                  })
                  r.0.instance_count)
                (λ m v.
                  repack settled degree long short k2 k2.all_resources_instances
                    (send_pcb k2 to_cpu signal_response process) r.0 refl refl)))

  refuse_step :
      (k : Kernel) (process : ℕ) (resource : CString)
      → Counts settled degree long short k
      → InState k
      → Exists k resource
      → Ends (0 < short) (Counts settled degree long short) (
          quantity_resource_instance_retained lib (k.heap process) resource >>= λ n.
          quantity_resource_instance_available lib k resource >>= λ m.
          finish_process_by_id lib k (k.heap process).pid)
  refuse_step k process resource c s x =
      let Q = Counts settled degree long short in
      Ends-bind (0 < short) (λ n. Unit {0}) Q
        (quantity_resource_instance_retained lib (k.heap process) resource) _
        (retained-safe lib (k.heap process) resource)
        (λ n u.
          Ends-bind (0 < short) (λ z. Unit {0}) Q
            (quantity_resource_instance_available lib k resource) _
            (available-safe lib k resource x c.instance_count)
            (λ m v. finish_process_by_id-Counts lib degree long short k (k.heap process).pid c s))

  signal_valid-Counts :
      (k : Kernel) (process : ℕ) (resource : CString) (o : Option CString)
      → find_resource lib (k.heap process).resources resource ≡ o
      → Counts settled degree long short k
      → InState k
      → Exists k resource
      → Ends (0 < short) (Counts settled degree long short) (signal_valid lib k process resource)
  unfolding signal_valid
  signal_valid-Counts k process resource none e c s x =
      rw (e, signal_valid) (refuse_step k process resource c s x)
  signal_valid-Counts k process resource (some found) e c s x =
      rw (e, signal_valid) (answer_step k process resource c x)

  signal_any :
      (k : Kernel) (process : ℕ) (resource : CString) (o : Option CString)
      → find_resource lib k.all_resources resource ≡ o
      → Counts settled degree long short k
      → InState k
      → Ends
          (0 < short)
          (Counts settled degree long short)
          (handle_signal_interruption lib k process resource)
  unfolding handle_signal_interruption
  signal_any k process resource none e c s = rw (invalid_lem k process resource e) (
      finished_first (0 < short) (Counts settled degree long short)
        (finish_process_by_id lib k (k.heap process).pid)
        (λ k'. signal_valid lib k' process resource)
        (finish_process_by_id-Counts lib degree long short k (k.heap process).pid c s))
  signal_any k process resource (some found) e c s =
      rw (valid_lem lib degree long short k process resource found e) (
        signal_valid-Counts k process resource _ refl c s
          (find_resource-Exists lib k resource found e))

  pub handle_signal_interruption-Counts :
      (k : Kernel) (process : ℕ) (resource : CString)
      → Counts settled degree long short k
      → InState k
      → Ends
          (0 < short)
          (Counts settled degree long short)
          (handle_signal_interruption lib k process resource)
  handle_signal_interruption-Counts k process resource =
      signal_any k process resource (find_resource lib k.all_resources resource) refl

  wait_any :
      (k : Kernel) (process : ℕ) (resource : CString) (o : Option CString)
      → find_resource lib k.all_resources resource ≡ o
      → Counts settled degree long short k
      → InState k
      → 0 < length k.queue_exec
      → Ends
          (0 < short)
          (Counts settled degree long short)
          (handle_wait_interruption lib k process resource)
  unfolding handle_wait_interruption
  wait_any k process resource none e c s running = rw (invalid_lem k process resource e) (
      finished_first (0 < short) (Counts settled degree long short)
        (finish_process_by_id lib k (k.heap process).pid) _
        (finish_process_by_id-Counts lib degree long short k (k.heap process).pid c s))
  wait_any k process resource (some found) e c s running =
      Returns-Ends (0 < short) (Counts settled degree long short)
        (handle_wait_interruption lib k process resource)
        (handle_wait_interruption-Counts lib degree long short k process resource found c e running)

  pub handle_wait_interruption-Counts_any :
      (k : Kernel) (process : ℕ) (resource : CString)
      → Counts settled degree long short k
      → InState k
      → 0 < length k.queue_exec
      → Ends
          (0 < short)
          (Counts settled degree long short)
          (handle_wait_interruption lib k process resource)
  handle_wait_interruption-Counts_any k process resource =
      wait_any k process resource (find_resource lib k.all_resources resource) refl
