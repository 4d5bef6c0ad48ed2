-- ===== src/Kernel/Balance/Requests.antt =====
-- `handler_connection` of the kernel: what the console asks for.
use old_so_tp.Prelude.{ℕ, suc, ◌<◌, ◌≡◌, ◌⊎◌, inl, inr}
use old_so_tp.Prelude.Int.{ℤ, of_word}
use old_so_tp.Commons.{Commons}
use old_so_tp.Shared.Process.{Process}
use old_so_tp.Kernel.State.{Kernel}
use old_so_tp.Kernel.Connection.{
  ConsoleRequest, create_process, finish_process, stop_planning, start_planning,
  modify_multiprogramming_degree, show_all_processes, unknown_operation, create_pcb, handle_console,
}
use old_so_tp.Kernel.Balance.{Counts, settled, Ends}
use old_so_tp.Kernel.Balance.Rules.{Ends-down, Ends-down_last}
use old_so_tp.Kernel.Balance.Moves.{move_process_to_new-Counts}
use old_so_tp.Kernel.Balance.Search.{InState, finish_process_by_id-Counts}

-- Where a request may wait: the end of a process for the short term planner, the stop of the
-- planning for a planner that is under way, and its start for a stop.
abbrev pub MayWait : ℕ → Kernel → ConsoleRequest → Type 0
MayWait short k (create_process process) = ⊥
MayWait short k (finish_process pid) = 0 < short
MayWait short k stop_planning = (k.sem_short_term_planner ≡ 0) ⊎ (k.sem_long_term_planner ≡ 0)
MayWait short k start_planning = k.mutex_stopping_planner ≡ 0
MayWait short k (modify_multiprogramming_degree n) = ⊥
MayWait short k show_all_processes = ⊥
MayWait short k unknown_operation = ⊥

-- Every request but that of a new degree.
abbrev pub KeepsDegree : ConsoleRequest → Type 0
KeepsDegree (create_process process) = Unit {0}
KeepsDegree (finish_process pid) = Unit {0}
KeepsDegree stop_planning = Unit {0}
KeepsDegree start_planning = Unit {0}
KeepsDegree (modify_multiprogramming_degree n) = ⊥
KeepsDegree show_all_processes = Unit {0}
KeepsDegree unknown_operation = Unit {0}

module _ (lib : Commons) (degree long short : ℕ) where
  create_pcb-Counts :
      (k : Kernel) (process : Process) (quantum socket : ℤ)
      → Counts settled degree long short k
      → Counts settled degree long short (create_pcb lib k process quantum socket).1
  unfolding create_pcb
  create_pcb-Counts k process quantum socket c = record {
    new_count = c.new_count;
    ready_count = c.ready_count;
    blocked_count = c.blocked_count;
    cpu_count = c.cpu_count;
    degree_count = c.degree_count;
    instance_count = c.instance_count;
    queue_count = c.queue_count;
  }

  -- The semaphores of the planners themselves count no process.
  pub planner_semaphores :
      (k : Kernel) (a b m : ℕ)
      → Counts settled degree long short k
      → Counts settled degree long short (record k {
        sem_short_term_planner = a;
        sem_long_term_planner = b;
        mutex_stopping_planner = m;
      })
  planner_semaphores k a b m c = record {
    new_count = c.new_count;
    ready_count = c.ready_count;
    blocked_count = c.blocked_count;
    cpu_count = c.cpu_count;
    degree_count = c.degree_count;
    instance_count = c.instance_count;
    queue_count = c.queue_count;
  }

  -- Where the counts of the semaphores fit the queues and each process is in the state of its
  -- queue, any request of the console but a new degree of multiprogramming makes
  -- `handler_connection` use no null pointer and leaves the counts fitting the queues, unless it
  -- waits: the end of a process only when the short term planner holds the token of a ready
  -- process, a stop of the planning only when a planner's own semaphore is 0, a start only when
  -- `mutex_stopping_planner` is 0, and the others never.
  pub handle_console-Counts :
      (k : Kernel) (quantum socket : ℤ) (request : ConsoleRequest)
      → Counts settled degree long short k
      → InState k
      → KeepsDegree request
      → Ends
          (MayWait short k request)
          (Counts settled degree long short)
          (handle_console lib k quantum socket request)
  unfolding handle_console
  handle_console-Counts k quantum socket (create_process process) c s keeps =
      let pcb = create_pcb lib k process quantum socket in
      move_process_to_new-Counts lib settled degree long short pcb.1
        (create_pcb-Counts k process quantum socket c) pcb.0
  handle_console-Counts k quantum socket (finish_process pid) c s keeps =
      finish_process_by_id-Counts lib degree long short k (of_word pid) c s
  handle_console-Counts k quantum socket stop_planning c s keeps =
      let W = MayWait short k stop_planning in
      let Q = Counts settled degree long short in
      let k0 : Kernel = record k { mutex_stopping_planner = suc k.mutex_stopping_planner } in
      Ends-down W Q k.sem_short_term_planner (λ n. record k0 { sem_short_term_planner = n }) _
        (λ e. inl e)
        (λ n e.
          Ends-down_last W Q k.sem_long_term_planner
            (λ m. record k0 { sem_short_term_planner = n; sem_long_term_planner = m }) (λ f. inr f)
            (λ m f. planner_semaphores k n m (suc k.mutex_stopping_planner) c))
  handle_console-Counts k quantum socket start_planning c s keeps =
      Ends-down_last (MayWait short k start_planning) (Counts settled degree long short)
        k.mutex_stopping_planner
        (λ n. record k {
          mutex_stopping_planner = n;
          sem_short_term_planner = suc k.sem_short_term_planner;
          sem_long_term_planner = suc k.sem_long_term_planner;
        })
        (λ e. e)
        (λ n e.
          planner_semaphores k (suc k.sem_short_term_planner) (suc k.sem_long_term_planner) n c)
  handle_console-Counts k quantum socket (modify_multiprogramming_degree n) c s keeps = absurd keeps
  handle_console-Counts k quantum socket show_all_processes c s keeps = c
  handle_console-Counts k quantum socket unknown_operation c s keeps = c
