-- ===== src/Kernel/Balance/Idle.antt =====
-- The reports of the CPU when no process is in the execution queue, as after the console has
-- finished the running process, of which the CPU is not told.
use old_so_tp.Prelude.{ℕ, ◌≡◌, refl, ap, ◌∙◌, none, some, [], length, arith, false}
use old_so_tp.Prelude.Int.{ℤ, pos, ltb_ℤ}
use old_so_tp.Prelude.CString.{CString}
use old_so_tp.Commons.{Commons}
use old_so_tp.Shared.Process.{Pcb}
use old_so_tp.Kernel.State.{Kernel, Run, done, waits, crash, ◌>>=◌, QueueRef}
use old_so_tp.Kernel.Queues.{pop, block_executing, get_queue_blocked}
use old_so_tp.Kernel.Resources.{
  find_resource, quantity_resource_instance_available, quantity_resource_instance_retained,
}
use old_so_tp.Kernel.Deadlocks.{
  wait_valid, handle_wait_interruption, move_process_from_exec_to_blocked,
}
use old_so_tp.Kernel.Connection.{interrupted, handle_dispatch, interrupted_process}
use old_so_tp.Kernel.Balance.{Counts, settled, Returns}
use old_so_tp.Kernel.Balance.Wait.{
  Stands, find_resource-Exists, retained-safe, get_queue_blocked-Stands,
}
use old_so_tp.Kernel.Balance.Grant.{valid_lem}

crash-bind :
    {A B : Type 0} (P : A → Type 0) (m : Run A) (f : A → Run B)
    → Returns P m
    → ((a : A) → f a ≡ crash)
    → (m >>= f) ≡ crash
crash-bind P (done a) f r h = h a
crash-bind P waits f r h = absurd r
crash-bind P crash f r h = refl

module _ (lib : Commons) (degree long short : ℕ) where
  block_executing-idle :
      (k : Kernel) (ref : QueueRef) → k.queue_exec ≡ [] → block_executing lib k ref ≡ crash
  unfolding block_executing pop
  block_executing-idle k ref idle =
      let empty : lib.queue_pop k.queue_exec ≡ none =
        ap lib.queue_pop idle ∙ lib.queue_pop_lem [] in
      rw empty refl

  -- Where the counts fit the queues and the execution queue is empty, WAIT for a resource that
  -- exists and has no instance available uses the null pointer of the empty queue.
  pub handle_wait_interruption-idle :
      (k : Kernel) (process : ℕ) (resource found : CString) (available : ℤ)
      → Counts settled degree long short k
      → k.queue_exec ≡ []
      → find_resource lib k.all_resources resource ≡ some found
      → quantity_resource_instance_available lib k resource ≡ done available
      → ltb_ℤ (pos 0) available ≡ false
      → handle_wait_interruption lib k process resource ≡ crash
  unfolding handle_wait_interruption wait_valid move_process_from_exec_to_blocked
  handle_wait_interruption-idle k process resource found available c idle exists known taken =
      rw (valid_lem lib degree long short k process resource found exists) (
        rw known (
          rw taken (
            crash-bind (λ n. Unit {0})
              (quantity_resource_instance_retained lib (k.heap process) resource) _
              (retained-safe lib (k.heap process) resource)
              (λ n.
                crash-bind (Stands k) (get_queue_blocked lib k resource) _
                  (get_queue_blocked-Stands lib k resource
                    (find_resource-Exists lib k resource found exists) c.queue_count)
                  (λ ref. rw (block_executing-idle k ref idle) refl)))))

  -- Where the counts fit the queues and the execution queue is empty, the report of an interrupted
  -- process leaves the semaphore of the one CPU with the count 2.
  pub handle_dispatch-idle :
      (k : Kernel) (pcb : Pcb)
      → Counts settled degree long short k
      → k.queue_exec ≡ []
      → Returns (λ k'. k'.sem_cpu_available ≡ 2) (handle_dispatch lib k (interrupted pcb))
  unfolding handle_dispatch interrupted_process
  handle_dispatch-idle k pcb c idle =
      let none_runs = ap length idle in let cpu = c.cpu_count in omega arith
