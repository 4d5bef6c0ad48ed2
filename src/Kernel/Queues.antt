-- ===== src/Kernel/Queues.antt =====
-- kernel/src/queues.c: the moves of processes between the queues, and how a process is finished.
use old_so_tp.Prelude.{ℕ, zero, suc, Option, none, some, List, [], ◌∷◌, ltb, ◌==◌, if◌then◌else◌}
use old_so_tp.Prelude.Int.{ℤ, pos_part}
use old_so_tp.Prelude.CString.{CString, str_eq}
use old_so_tp.Prelude.Decimal.{atoi}
use old_so_tp.Commons.{Commons}
use old_so_tp.Shared.Operation.{create_process, finish_process, execute_process}
use old_so_tp.Shared.Process.{ready, execution, blocked, exit}
use old_so_tp.Kernel.State.{
  Kernel, Run, done, ◌>>=◌, not_null, down, with_state, send_pcb, to_memory, to_cpu, QueueRef,
  new_queue, ready_queue, exec_queue, blocked_queue, fresh_queue, queue_at, write_queue, eq_int,
}
use old_so_tp.Kernel.Resources.{free_resources_retained}

module _ (lib : Commons) where
  open lib use {
    list_size, list_get, list_find, list_add, list_remove_element, queue_push, queue_pop,
  }

  -- `get_minimun` of shared/src/utils.c.
  unfoldable pub get_minimun : ℕ → ℕ → ℕ
  get_minimun first second = if ltb first second then first else second

  unfoldable pub find_process_from_queue : Kernel → List ℕ → ℤ → Option ℕ
  find_process_from_queue k queue_from pid =
      list_find queue_from (λ element. eq_int (k.heap element).pid pid)

  -- An empty queue gives the null pointer.
  unfoldable pub pop : List ℕ → Run (ℕ × List ℕ)
  pop q = not_null (queue_pop q)

  unfoldable pub move_process_to_new : Kernel → ℕ → Run Kernel
  move_process_to_new k process =
      let k1 = send_pcb k to_memory create_process process in
      done (record k1 {
        queue_new = queue_push k1.queue_new process;
        sem_process_new = suc k1.sem_process_new;
      })

  unfoldable pub move_process_to_ready : Kernel → Run Kernel
  unfolding pop
  move_process_to_ready k = do
    (process, rest) ← pop k.queue_new
    done (record k {
      queue_new = rest;
      heap = with_state k.heap process ready;
      queue_ready = queue_push k.queue_ready process;
    })

  unfoldable pub move_process_to_exec : Kernel → Run Kernel
  unfolding pop
  move_process_to_exec k = do
    (process, rest) ← pop k.queue_ready
    let k1 = record k {
      queue_ready = rest;
      heap = with_state k.heap process execution;
      queue_exec = queue_push k.queue_exec process;
    }
    done (send_pcb k1 to_cpu execute_process process)

  unfoldable pub move_process_from_execution_to_ready : Kernel → Run Kernel
  unfolding pop
  move_process_from_execution_to_ready k = do
    (process, rest) ← pop k.queue_exec
    done (record k {
      queue_exec = rest;
      sem_cpu_available = suc k.sem_cpu_available;
      heap = with_state k.heap process ready;
      queue_ready = queue_push k.queue_ready process;
      sem_process_ready = suc k.sem_process_ready;
    })

  -- Finishes with `check_deadlocks`, which is in Kernel/Deadlocks.
  unfoldable pub block_executing : Kernel → QueueRef → Run (ℕ × Kernel)
  unfolding pop
  block_executing k queue_blocked = do
    (process, rest) ← pop k.queue_exec
    let k1 = record k {
      queue_exec = rest;
      sem_cpu_available = suc k.sem_cpu_available;
      heap = with_state k.heap process blocked;
    }
    let k2 = write_queue k1 queue_blocked (queue_push (queue_at k1 queue_blocked) process)
    done (process, record k2 { sem_process_blocked = suc k2.sem_process_blocked })

  unfoldable pub move_process_from_block_to_ready : Kernel → ℕ → QueueRef → Run Kernel
  move_process_from_block_to_ready k process queue_blocked =
      let k1 = record k {
        heap = with_state k.heap process ready;
        queue_ready = queue_push k.queue_ready process;
      } in
      let k2 =
        write_queue k1 queue_blocked (list_remove_element (queue_at k1 queue_blocked) process) in
      down k2.sem_process_blocked
        (λ n. record k2 { sem_process_blocked = n; sem_process_ready = suc k2.sem_process_ready })

  -- The loop goes over all queues, so the last match is returned.
  unfoldable pub get_loop : ℕ → Kernel → ℕ → CString → QueueRef → Run QueueRef
  get_loop zero k index queue_tag found = done found
  get_loop (suc left) k index queue_tag found = do
    resource ← not_null (list_get k.all_resources index)
    get_loop left k (suc index) queue_tag
        (if str_eq resource queue_tag then blocked_queue index else found)

  unfoldable pub get_queue_blocked : Kernel → CString → Run QueueRef
  unfolding get_loop
  get_queue_blocked k queue_tag =
      get_loop (list_size k.list_of_queue_blocked) k 0 queue_tag fresh_queue

  blocked_refs : ℕ → ℕ → List QueueRef
  blocked_refs zero index = []
  blocked_refs (suc left) index = blocked_queue index ∷ blocked_refs left (suc index)

  unfoldable pub build_all_queues_in_list : Kernel → List QueueRef
  unfolding blocked_refs
  build_all_queues_in_list k =
      new_queue ∷ ready_queue ∷ exec_queue ∷ blocked_refs (list_size k.list_of_queue_blocked) 0

  -- The inner loop of `check_process_in_blocked_and_send_to_ready`: the bound is computed anew in
  -- each round, and the process that is moved leaves the queue. The index grows up to the number
  -- of instances, so that many rounds and one more are enough.
  unfoldable pub wake_loop : ℕ → Kernel → QueueRef → ℕ → ℕ → Run Kernel
  unfolding get_minimun
  wake_loop zero k queue available index = done k
  wake_loop (suc fuel) k queue available index =
      let q = queue_at k queue in
      let round = (do
        process ← not_null (list_get q index)
        k' ← move_process_from_block_to_ready k process queue
        wake_loop fuel k' queue available (suc index)) in
      if ltb index (get_minimun available (list_size q)) then round else done k

  unfoldable pub check_loop : ℕ → Kernel → ℕ → Run Kernel
  unfolding wake_loop
  check_loop zero k list_index = done k
  check_loop (suc left) k list_index =
      let next = (λ (k' : Kernel). check_loop left k' (suc list_index)) in
      let wake = (do
        instances ← not_null (list_get k.all_resources_instances list_index)
        let available = pos_part (atoi instances)
        k' ← wake_loop (suc available) k (blocked_queue list_index) available 0
        next k') in
      if ltb 0 (list_size (queue_at k (blocked_queue list_index))) then wake else next k

  unfoldable pub check_process_in_blocked_and_send_to_ready : Kernel → Run Kernel
  unfolding check_loop
  check_process_in_blocked_and_send_to_ready k = check_loop (list_size k.list_of_queue_blocked) k 0

  unfoldable pub update_queue_semaphores : Kernel → ℕ → Run Kernel
  update_queue_semaphores k state =
      if state == execution
      then done (record k {
        sem_cpu_available = suc k.sem_cpu_available;
        sem_multiprogramming_degree = suc k.sem_multiprogramming_degree;
      })
      else if state == ready
      then down k.sem_process_ready (λ n. record k {
        sem_process_ready = n;
        sem_multiprogramming_degree = suc k.sem_multiprogramming_degree;
      })
      else if state == blocked
      then down k.sem_process_blocked (λ n. record k {
        sem_process_blocked = n;
        sem_multiprogramming_degree = suc k.sem_multiprogramming_degree;
      })
      else down k.sem_process_new (λ n. record k { sem_process_new = n })

  -- The first queue that has a process with the id, and the process.
  unfoldable pub find_in : Kernel → List QueueRef → ℤ → Option (QueueRef × ℕ)
  find_in k [] pid = none
  find_in k (ref ∷ refs) pid = elim (find_process_from_queue k (queue_at k ref) pid) [
    | none ↦ find_in k refs pid
    | some process ↦ some (ref, process)
  ]

  -- What `finish_process` does after the search and before the semaphores are updated.
  unfoldable pub finish_begins : Kernel → QueueRef → ℕ → Run Kernel
  finish_begins k queue process = do
    k1 ← free_resources_retained lib (record k { heap = with_state k.heap process exit }) process
    let k2 = write_queue k1 queue (list_remove_element (queue_at k1 queue) process)
    k3 ← check_process_in_blocked_and_send_to_ready k2
    done (send_pcb k3 to_memory finish_process process)

  -- The part of `finish_process` after the search.
  unfoldable pub finish_found : Kernel → QueueRef → ℕ → Run Kernel
  finish_found k queue process = do
    let previous_state = (k.heap process).state
    k' ← finish_begins k queue process
    update_queue_semaphores k' previous_state

  unfoldable pub finish_process_by_id : Kernel → ℤ → Run Kernel
  unfolding find_in
  finish_process_by_id k pid = elim (find_in k (build_all_queues_in_list k) pid) [
    | none ↦ done k
    | some (queue, process) ↦ finish_found k queue process
  ]
