-- ===== src/Kernel/Connection.antt =====
-- kernel/src/handle_connection.c: what the kernel does for the console and for the CPU.
use old_so_tp.Prelude.{ℕ, suc, ◌+◌, ◌%◌, ◌^◌, Option, none, some, List, [], ◌∷◌, ◌++◌}
use old_so_tp.Prelude.Int.{ℤ, pos, of_word, ◌+ℤ◌, wrap_int}
use old_so_tp.Prelude.CString.{CString}
use old_so_tp.Commons.{Commons}
use old_so_tp.Shared.Process.{Pcb, Process, new, ready, translate_process_state}
use old_so_tp.Kernel.State.{
  Kernel, Run, done, ◌>>=◌, down, sem_init, allocate, with_state, write_pcb, queue_at, QueueRef,
}
use old_so_tp.Kernel.Queues.{move_process_to_new, finish_process_by_id, build_all_queues_in_list}
use old_so_tp.Kernel.Deadlocks.{handle_signal_interruption, handle_wait_interruption}

-- What the console asks for.
pub data ConsoleRequest : Type 0 where
  create_process : Process → ConsoleRequest
  finish_process : ℕ → ConsoleRequest
  stop_planning start_planning : ConsoleRequest
  modify_multiprogramming_degree : ℤ → ConsoleRequest
  show_all_processes : ConsoleRequest
  unknown_operation : ConsoleRequest

-- What the CPU reports on the dispatch connection. PAGE_FAULT_REQUEST, which the program of the CPU
-- never sends, is left out.
pub data CpuReport : Type 0 where
  finishes blocks interrupted : Pcb → CpuReport
  wait_for signal : Pcb → CString → CpuReport
  sleep : Pcb → ℤ → CpuReport
  lost : CpuReport

module _ (lib : Commons) where
  open lib use {list_add, queue_push, queue_pop}

  -- The new control block and the kernel that has it. `quantum` is read from the process, whose
  -- structure does not declare it.
  unfoldable pub create_pcb : Kernel → Process → ℤ → ℤ → ℕ × Kernel
  create_pcb k process quantum socket = (
    k.next_address,
    record (allocate k (record {
      pid = of_word k.id_to_assign;
      program_counter = pos 0;
      size = pos 0;
      quantum = quantum;
      cpu_register = list_add (list_add (list_add (list_add [] 0) 0) 0) 0;
      resources = [];
      table_pages = pos 0;
      path = process.path;
      state = new;
      client_socket = socket;
    })) { id_to_assign = (k.id_to_assign + 1) % 2 ^ 32 },
  )

  -- `sem_init` on a semaphore that is in use.
  unfoldable pub set_multiprogramming_degree : Kernel → ℤ → Kernel
  set_multiprogramming_degree k new_degree = record k {
    sem_multiprogramming_degree = sem_init k.sem_multiprogramming_degree new_degree;
  }

  -- The lines that are logged: a process id and its state, for each process of each queue.
  shown : Kernel → List ℕ → List (ℤ × Option CString)
  shown k [] = []
  shown k (a ∷ rest) = ((k.heap a).pid, translate_process_state (k.heap a).state) ∷ shown k rest

  show_queues : Kernel → List QueueRef → List (ℤ × Option CString)
  unfolding shown
  show_queues k [] = []
  show_queues k (ref ∷ refs) = shown k (queue_at k ref) ++ show_queues k refs

  unfoldable pub show_processes : Kernel → List (ℤ × Option CString)
  unfolding show_queues
  show_processes k = show_queues k (build_all_queues_in_list lib k)

  -- One round of `handler_connection`; `socket` is the client's.
  unfoldable pub handle_console : Kernel → ℤ → ℤ → ConsoleRequest → Run Kernel
  handle_console k quantum socket (create_process process) =
      let (pcb, k') = create_pcb k process quantum socket in move_process_to_new lib k' pcb
  handle_console k quantum socket (finish_process pid) = finish_process_by_id lib k (of_word pid)
  handle_console k quantum socket stop_planning = do
    let k0 = record k { mutex_stopping_planner = suc k.mutex_stopping_planner }
    k1 ← down k0.sem_short_term_planner (λ n. record k0 { sem_short_term_planner = n })
    down k1.sem_long_term_planner (λ n. record k1 { sem_long_term_planner = n })
  handle_console k quantum socket start_planning = down k.mutex_stopping_planner (λ n. record k {
    mutex_stopping_planner = n;
    sem_short_term_planner = suc k.sem_short_term_planner;
    sem_long_term_planner = suc k.sem_long_term_planner;
  })
  handle_console k quantum socket (modify_multiprogramming_degree n) =
      done (set_multiprogramming_degree k n)
  handle_console k quantum socket show_all_processes = done k
  handle_console k quantum socket unknown_operation = done k

  -- The control block comes back in a new allocation. The head of the execution queue is dropped.
  unfoldable pub interrupted_process : Kernel → ℕ → Kernel
  interrupted_process k pcb =
      let rest : List ℕ = elim (queue_pop k.queue_exec) [ none ↦ [] | some (a, q) ↦ q ] in
      record k {
        queue_exec = rest;
        sem_cpu_available = suc k.sem_cpu_available;
        heap = with_state k.heap pcb ready;
        queue_ready = queue_push k.queue_ready pcb;
        sem_process_ready = suc k.sem_process_ready;
      }

  -- One round of `handle_dispatch_connection` but for SLEEP_REQUEST, whose process goes on in a
  -- thread: `sleep_begins` and `sleep_ends` are its two parts.
  unfoldable pub handle_dispatch : Kernel → CpuReport → Run Kernel
  unfolding interrupted_process
  handle_dispatch k (finishes pcb) = finish_process_by_id lib (allocate k pcb) pcb.pid
  handle_dispatch k (blocks pcb) = done (allocate k pcb)
  handle_dispatch k (interrupted pcb) = done (interrupted_process (allocate k pcb) k.next_address)
  handle_dispatch k (wait_for pcb resource) =
      handle_wait_interruption lib (allocate k pcb) k.next_address resource
  handle_dispatch k (signal pcb resource) =
      handle_signal_interruption lib (allocate k pcb) k.next_address resource
  handle_dispatch k (sleep pcb time) =
      let k1 = allocate k pcb in done (record k1 { sem_cpu_available = suc k1.sem_cpu_available })
  handle_dispatch k lost = done k

  unfoldable pub sleep_begins : Kernel → Kernel
  sleep_begins k =
      let rest : List ℕ = elim (queue_pop k.queue_exec) [ none ↦ [] | some (a, q) ↦ q ] in
      record k { queue_exec = rest }

  unfoldable pub sleep_ends : Kernel → ℕ → Kernel
  sleep_ends k process =
      let pcb = k.heap process in
      record k {
        heap = write_pcb k.heap process (record pcb {
          state = ready;
          program_counter = wrap_int (pcb.program_counter +ℤ pos 1);
        });
        queue_ready = queue_push k.queue_ready process;
        sem_process_ready = suc k.sem_process_ready;
      }
