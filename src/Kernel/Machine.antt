-- ===== src/Kernel/Machine.antt =====
-- The kernel at work (kernel/src/kernel.c, planners.c, handle_connection.c): the threads of the
-- planners and of the connections take turns. A turn goes up to the next wait of a planner or of a
-- stop of the planning, or over one whole message of a connection, with no other thread in between.
-- Any other message comes only when its handler does not wait midway. A report of the CPU comes only
-- while a process runs, and none of a sleep, whose thread reads the arguments of a function that may
-- have returned.
pub mod Safe
pub mod Reach
pub mod Progress
mod Tests
use old_so_tp.Prelude.{ℕ, suc, ◌+◌, ◌-◌, ◌<◌, ◌≡◌, List, [], ◌∷◌, length}
use old_so_tp.Prelude.Int.{ℤ, pos, negsuc}
use old_so_tp.Commons.{Commons}
use old_so_tp.Commons.Lists.{total}
use old_so_tp.Kernel.State.{Kernel, Run, done, waits, ◌>>=◌, down}
use old_so_tp.Kernel.Connection.{
  ConsoleRequest, create_process, finish_process, stop_planning, start_planning,
  modify_multiprogramming_degree, show_all_processes, unknown_operation, CpuReport, handle_console,
  handle_dispatch,
}
use old_so_tp.Kernel.Planners.{
  System, Algorithm, at_long_planner, at_short_planner, long_term_step, short_term_step,
}
use old_so_tp.Kernel.Balance.{degree_token}
use old_so_tp.Kernel.Balance.Dispatch.{IsAwake}

-- How many handlers of STOP_PLANNING wait for the short term planner, and how many for the long
-- term planner.
pub record Machine : Type 0 where
  pub system : System
  pub stopping_short : ℕ
  pub stopping_long : ℕ

-- The threads: the planners, a message of the console with the quantum and the client's socket that
-- a new process gets, the two waits of a stop of the planning, and a report of the CPU.
pub data Event : Type 0 where
  long_term_planner short_term_planner : Event
  console : ℤ → ℤ → ConsoleRequest → Event
  stop_short stop_long : Event
  cpu : CpuReport → Event

abbrev pub with_kernel : Machine → Kernel → Machine
with_kernel m k = record m { system = record m.system { kernel = k } }

module _ (lib : Commons) where
  -- A message of the console. STOP_PLANNING goes up to its first wait.
  unfoldable pub asked : Machine → ℤ → ℤ → ConsoleRequest → Run Machine
  asked m quantum socket stop_planning =
      let k = m.system.kernel in
      done
        (record (with_kernel m
          (record k { mutex_stopping_planner = suc k.mutex_stopping_planner })) {
            stopping_short = suc m.stopping_short;
          })
  asked m quantum socket (create_process process) = do
    k ← handle_console lib m.system.kernel quantum socket (create_process process)
    done (with_kernel m k)
  asked m quantum socket (finish_process pid) = do
    k ← handle_console lib m.system.kernel quantum socket (finish_process pid)
    done (with_kernel m k)
  asked m quantum socket start_planning = do
    k ← handle_console lib m.system.kernel quantum socket start_planning
    done (with_kernel m k)
  asked m quantum socket (modify_multiprogramming_degree n) = do
    k ← handle_console lib m.system.kernel quantum socket (modify_multiprogramming_degree n)
    done (with_kernel m k)
  asked m quantum socket show_all_processes = do
    k ← handle_console lib m.system.kernel quantum socket show_all_processes
    done (with_kernel m k)
  asked m quantum socket unknown_operation = do
    k ← handle_console lib m.system.kernel quantum socket unknown_operation
    done (with_kernel m k)

  unfoldable pub turn : Machine → Event → Run Machine
  unfolding asked
  turn m long_term_planner = do s ← long_term_step lib m.system; done (record m { system = s })
  turn m short_term_planner = do s ← short_term_step lib m.system; done (record m { system = s })
  turn m (console quantum socket request) = asked m quantum socket request
  turn m stop_short = do
    let k = m.system.kernel
    k1 ← down k.sem_short_term_planner (λ n. record k { sem_short_term_planner = n })
    done (record (with_kernel m k1) {
      stopping_short = m.stopping_short - 1;
      stopping_long = suc m.stopping_long;
    })
  turn m stop_long = do
    let k = m.system.kernel
    k1 ← down k.sem_long_term_planner (λ n. record k { sem_long_term_planner = n })
    done (record (with_kernel m k1) { stopping_long = m.stopping_long - 1 })
  turn m (cpu report) = do k ← handle_dispatch lib m.system.kernel report; done (with_kernel m k)

  -- Several turns.
  unfoldable pub turns : Machine → List Event → Run Machine
  turns m [] = done m
  turns m (event ∷ events) = do m' ← turn m event; turns m' events

  -- A message comes when its handler does not wait before its end: FINISH_PROCESS of a ready
  -- process would, while the short term planner holds the token of it, after the process has left
  -- its queue. A report of the CPU comes while a process runs, and none of a sleep.
  abbrev pub MayCome : Machine → Event → Type 0
  MayCome m long_term_planner = Unit {0}
  MayCome m short_term_planner = Unit {0}
  MayCome m (console quantum socket request) = ¬ (asked m quantum socket request ≡ waits)
  MayCome m stop_short = 0 < m.stopping_short
  MayCome m stop_long = 0 < m.stopping_long
  MayCome m (cpu report) =
      ((0 < length m.system.kernel.queue_exec) × IsAwake report)
      × (¬ (handle_dispatch lib m.system.kernel report ≡ waits))

-- The planners before their first wait.
abbrev pub at_start : Algorithm → Kernel → Machine
at_start algorithm k = record {
  system = record {
    kernel = k;
    long = at_long_planner;
    short = at_short_planner;
    algorithm = algorithm;
  };
  stopping_short = 0;
  stopping_long = 0;
}

-- The processes that were admitted and not finished, and the one that the long term planner is about
-- to admit.
abbrev pub in_degree : Machine → ℕ
in_degree m =
    degree_token m.system.long
    + length m.system.kernel.queue_ready
    + length m.system.kernel.queue_exec
    + total m.system.kernel.list_of_queue_blocked

-- A degree of multiprogramming that the console sets: a negative one changes nothing, and another
-- counts from the processes that are admitted already.
abbrev pub degree_set : Machine → ℤ → ℕ → ℕ
degree_set m (pos n) degree = n + in_degree m
degree_set m (negsuc n) degree = degree

abbrev pub new_degree : Machine → ConsoleRequest → ℕ → ℕ
new_degree m (create_process process) degree = degree
new_degree m (finish_process pid) degree = degree
new_degree m stop_planning degree = degree
new_degree m start_planning degree = degree
new_degree m (modify_multiprogramming_degree n) degree = degree_set m n degree
new_degree m show_all_processes degree = degree
new_degree m unknown_operation degree = degree

abbrev pub degree_after : Machine → Event → ℕ → ℕ
degree_after m long_term_planner degree = degree
degree_after m short_term_planner degree = degree
degree_after m (console quantum socket request) degree = new_degree m request degree
degree_after m stop_short degree = degree
degree_after m stop_long degree = degree
degree_after m (cpu report) degree = degree

-- What whole turns make of a kernel that has started, with the degree of multiprogramming, which
-- was `configured` at the start. The states in which a message waits midway are not among them.
pub data Reachable (lib : Commons) (algorithm : Algorithm) (start : Kernel) (configured : ℕ)
    : ℕ → Machine → Type 0 where
  started : Reachable lib algorithm start configured configured (at_start algorithm start)
  next :
      (degree : ℕ) (m m' : Machine) (event : Event)
      → Reachable lib algorithm start configured degree m
      → MayCome lib m event
      → turn lib m event ≡ done m'
      → Reachable lib algorithm start configured (degree_after m event degree) m'
