-- ===== src/Kernel/Deadlocks.antt =====
-- kernel/src/deadlocks.c: the search for deadlocks when a process is blocked, and the answers to
-- the requests WAIT and SIGNAL of the CPU.
use old_so_tp.Prelude.{
  ℕ, zero, suc, Bool, true, false, Option, none, some, List, [], ◌∷◌, ◌++◌, if◌then◌else◌,
}
use old_so_tp.Prelude.Int.{ℤ, pos, ltb_ℤ, ◌+ℤ◌, wrap_int}
use old_so_tp.Prelude.CString.{CString, str_eq}
use old_so_tp.Commons.{Commons}
use old_so_tp.Shared.Operation.{signal_response, wait_response}
use old_so_tp.Kernel.State.{
  Kernel, Run, done, ◌>>=◌, not_null, send_pcb, to_cpu, write_pcb, QueueRef, blocked_queue,
  queue_at,
}
use old_so_tp.Kernel.Resources.{
  find_resource, add_resource_instance, remove_resource_instance,
  quantity_resource_instance_available, quantity_resource_instance_retained,
}
use old_so_tp.Kernel.Queues.{
  find_process_from_queue, block_executing, get_queue_blocked, finish_process_by_id,
}

module _ (lib : Commons) where
  open lib use {list_size, list_add, list_get, list_remove}

  -- Without a match the function ends with no `return`: `none`.
  unfoldable pub required_loop : ℕ → Kernel → ℕ → ℤ → Run (Option CString)
  required_loop zero k list_index pid = done none
  required_loop (suc left) k list_index pid =
      let next = required_loop left k (suc list_index) pid in
      let hit = (do
        resource ← not_null (list_get k.all_resources list_index)
        done (some resource)) in
      elim (find_process_from_queue lib k (queue_at k (blocked_queue list_index)) pid) [
        | none ↦ next
        | some process ↦ hit
      ]

  unfoldable pub get_required_resource : Kernel → ℕ → Run (Option CString)
  unfolding required_loop
  get_required_resource k process =
      required_loop (list_size k.list_of_queue_blocked) k 0 (k.heap process).pid

  -- The message has the id, the resources held and the resource required; the id is kept here.
  unfoldable pub log_deadlock : Kernel → ℕ → Kernel
  log_deadlock k process = record k { deadlocks = k.deadlocks ++ (k.heap process).pid ∷ [] }

  -- One process of a queue. To compare with a resource that was never set is an error.
  unfoldable pub evaluate : Kernel → ℕ → Option CString → ℕ → Run Kernel
  unfolding log_deadlock
  evaluate k to_check required candidate = do
    resource ← not_null required
    done (elim (find_resource lib (k.heap candidate).resources resource) [
      | none ↦ k
      | some found ↦ log_deadlock (log_deadlock k to_check) candidate
    ])

  unfoldable pub process_loop : ℕ → Kernel → ℕ → Option CString → List ℕ → ℕ → Run Kernel
  unfolding evaluate
  process_loop zero k to_check required queue process_index = done k
  process_loop (suc left) k to_check required queue process_index = do
    candidate ← not_null (list_get queue process_index)
    k' ← evaluate k to_check required candidate
    process_loop left k' to_check required queue (suc process_index)

  unfoldable pub queue_loop : ℕ → Kernel → ℕ → Option CString → ℕ → Run Kernel
  unfolding process_loop
  queue_loop zero k to_check required list_index = done k
  queue_loop (suc left) k to_check required list_index = do
    let queue = queue_at k (blocked_queue list_index)
    k' ← process_loop (list_size queue) k to_check required queue 0
    queue_loop left k' to_check required (suc list_index)

  unfoldable pub check_deadlocks : Kernel → ℕ → Run Kernel
  unfolding queue_loop
  check_deadlocks k process_to_check = do
    required ← get_required_resource k process_to_check
    queue_loop (list_size k.list_of_queue_blocked) k process_to_check required 0

  unfoldable pub move_process_from_exec_to_blocked : Kernel → QueueRef → Run Kernel
  move_process_from_exec_to_blocked k queue_blocked = do
    (process, k') ← block_executing lib k queue_blocked
    check_deadlocks k' process

  -- Whether the process was finished, because it asked for a resource that does not exist.
  unfoldable pub finish_process_if_is_not_valid : Kernel → ℕ → CString → Run (Bool × Kernel)
  finish_process_if_is_not_valid k process resource_requested =
      let finish = (do k' ← finish_process_by_id lib k (k.heap process).pid; done (true, k')) in
      elim (find_resource lib k.all_resources resource_requested) [
        | none ↦ finish
        | some found ↦ done (false, k)
      ]

  -- `find_resource` returns the pointer of the first equal string, which is then removed.
  remove_loop : ℕ → List CString → ℕ → CString → List CString
  remove_loop zero held index resource = held
  remove_loop (suc left) held index resource =
      let next = remove_loop left held (suc index) resource in
      elim (list_get held index) [
        | none ↦ held
        | some candidate ↦ if str_eq candidate resource then (list_remove held index).1 else next
      ]

  unfoldable pub remove_found : List CString → CString → List CString
  unfolding remove_loop
  remove_found held resource = remove_loop (list_size held) held 0 resource

  unfoldable pub signal_valid : Kernel → ℕ → CString → Run Kernel
  signal_valid k process resource_requested = do
    let pcb = k.heap process
    let release = (do
      k1 ← add_resource_instance lib k resource_requested
      done (record k1 {
        heap = write_pcb k1.heap process (record pcb {
          resources = remove_found pcb.resources resource_requested;
          program_counter = wrap_int (pcb.program_counter +ℤ pos 1);
        });
      }))
    let answer = (do
      k2 ← release
      retained ← quantity_resource_instance_retained lib (k2.heap process) resource_requested
      available ← quantity_resource_instance_available lib k2 resource_requested
      done (send_pcb k2 to_cpu signal_response process))
    let refuse = (do
      retained ← quantity_resource_instance_retained lib pcb resource_requested
      available ← quantity_resource_instance_available lib k resource_requested
      finish_process_by_id lib k pcb.pid)
    elim (find_resource lib pcb.resources resource_requested) [
      | none ↦ refuse
      | some found ↦ answer
    ]

  unfoldable pub handle_signal_interruption : Kernel → ℕ → CString → Run Kernel
  unfolding signal_valid
  handle_signal_interruption k process resource_requested = do
    (is_not_valid, k') ← finish_process_if_is_not_valid k process resource_requested
    (if is_not_valid then done k' else signal_valid k' process resource_requested)

  unfoldable pub assign : Kernel → ℕ → CString → Run Kernel
  assign k process resource_requested =
      let pcb = k.heap process in
      remove_resource_instance lib
        (record k {
          heap = write_pcb k.heap process (record pcb {
            program_counter = wrap_int (pcb.program_counter +ℤ pos 1);
            resources = list_add pcb.resources resource_requested;
          });
        })
        resource_requested

  unfoldable pub wait_valid : Kernel → ℕ → CString → Run Kernel
  unfolding assign
  wait_valid k process resource_requested = do
    available ← quantity_resource_instance_available lib k resource_requested
    let grant = (do
      k1 ← assign k process resource_requested
      retained ← quantity_resource_instance_retained lib (k1.heap process) resource_requested
      left ← quantity_resource_instance_available lib k1 resource_requested
      done (send_pcb k1 to_cpu wait_response process))
    let block = (do
      retained ← quantity_resource_instance_retained lib (k.heap process) resource_requested
      queue ← get_queue_blocked lib k resource_requested
      move_process_from_exec_to_blocked k queue)
    (if ltb_ℤ (pos 0) available then grant else block)

  unfoldable pub handle_wait_interruption : Kernel → ℕ → CString → Run Kernel
  unfolding wait_valid
  handle_wait_interruption k process resource_requested = do
    (is_not_valid, k') ← finish_process_if_is_not_valid k process resource_requested
    (if is_not_valid then done k' else wait_valid k' process resource_requested)
