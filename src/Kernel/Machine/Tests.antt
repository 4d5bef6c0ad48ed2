-- ===== src/Kernel/Machine/Tests.antt =====
-- A kernel that starts, admits a process and gives it the CPU.
use old_so_tp.Prelude.{ℕ, ◌≡◌, refl, subst, List, [], ◌∷◌, arith}
use old_so_tp.Prelude.Int.{pos}
use old_so_tp.Prelude.CString.{codes, str_eq}
use old_so_tp.Commons.Reference.{reference}
use old_so_tp.Shared.Process.{Pcb, new}
use old_so_tp.Kernel.State.{Kernel, done, waits, crash}
use old_so_tp.Kernel.Start.{globals, start_kernel}
use old_so_tp.Kernel.Resources.{
  init_resources, find_resource, quantity_resource_instance_available, remove_resource_instance,
  modify_resource_instance, quantity_resource_instance_retained,
}
use old_so_tp.Kernel.Deadlocks.{handle_wait_interruption, finish_process_if_is_not_valid}
use old_so_tp.Prelude.Decimal.{atoi}
use old_so_tp.Kernel.Queues.{move_process_to_new, move_process_to_ready, move_process_to_exec}
use old_so_tp.Kernel.Connection.{
  create_process, start_planning, wait_for, create_pcb, handle_console, handle_dispatch,
}
use old_so_tp.Kernel.Balance.{Ends, Returns}
use old_so_tp.Kernel.Planners.{
  at_long_planner, at_short_planner, round_robin, long_term_step, short_term_step,
}
use old_so_tp.Kernel.Machine.{
  Machine, Event, long_term_planner, short_term_planner, console, cpu, asked, turn, turns, MayCome,
  degree_after, at_start, Reachable, started, next,
}
use old_so_tp.Kernel.Machine.Safe.{Safe, MayBlock}
use old_so_tp.Kernel.Machine.Progress.{
  machine, Admitted, Dispatched, Reachable-Admitted, Reachable-Dispatched,
}
use old_so_tp.Kernel.Machine.Reach.{turn-Reachable}

abbrev nothing : ℕ → Pcb
nothing a = record {
  pid = pos 0;
  program_counter = pos 0;
  quantum = pos 0;
  size = pos 0;
  cpu_register = [];
  resources = [];
  table_pages = pos 0;
  path = [];
  state = new;
  client_socket = pos 0;
}

abbrev start : Kernel
start = record (globals nothing) {
  list_of_queue_blocked = [] ∷ [];
  all_resources = codes "DISCO" ∷ [];
  all_resources_instances = codes "1" ∷ [];
  sem_cpu_available = 1;
  sem_multiprogramming_degree = 4;
  mutex_stopping_planner = 1;
}

start_kernel_test :
    start_kernel reference nothing (pos 4) (codes "DISCO" ∷ []) (codes "1" ∷ []) ≡ done start
unfolding start_kernel init_resources
start_kernel_test = refl

abbrev after : Machine → Event → Machine
after m event = elim (turn reference m event) [ done m' ↦ m' | waits ↦ m | crash ↦ m ]

abbrev creates : Event
creates = console (pos 2) (pos 9) (create_process (record { path = codes "f" }))

abbrev played : Machine → List Event → Machine
played m [] = m
played m (event ∷ events) = played (after m event) events

-- Each turn may come, returns, and keeps the degree.
abbrev Plays : Machine → List Event → Type 0
Plays m [] = Unit {0}
Plays m (event ∷ events) =
    (degree_after m event 4 ≡ 4)
    × (MayCome reference m event
        × ((turn reference m event ≡ done (after m event)) × Plays (after m event) events))

played-Reachable :
    (m : Machine) (events : List Event)
    → Reachable reference round_robin start 4 4 m
    → Plays m events
    → Reachable reference round_robin start 4 4 (played m events)
played-Reachable m [] reached plays = reached
played-Reachable m (event ∷ events) reached plays =
    played-Reachable (after m event) events
      (subst (λ d. Reachable reference round_robin start 4 d (after m event)) plays.0
        (next 4 m (after m event) event reached plays.1.0 plays.1.1.0))
      plays.1.1.1

-- A process is created, admitted and given the CPU.
abbrev events : List Event
events =
    creates
    ∷ console (pos 2) (pos 9) start_planning
    ∷ long_term_planner
    ∷ long_term_planner
    ∷ long_term_planner
    ∷ short_term_planner
    ∷ short_term_planner
    ∷ short_term_planner
    ∷ []

abbrev running : Machine
running = played (at_start round_robin start) events

running-Reachable : Reachable reference round_robin start 4 4 running
unfolding turn asked handle_console move_process_to_new create_pcb long_term_step short_term_step
    move_process_to_ready move_process_to_exec
running-Reachable = played-Reachable (at_start round_robin start) events started (
  refl,
  (
    (λ e. cc),
    (
      refl,
      (
        refl,
        (
          (λ e. cc),
          (
            refl,
            (
              refl,
              (
                tt,
                (
                  refl,
                  (
                    refl,
                    (
                      tt,
                      (
                        refl,
                        (
                          refl,
                          (
                            tt,
                            (
                              refl,
                              (refl, (tt, (refl, (refl, (tt, (refl, (refl, (tt, (refl, tt))))))))),
                            ),
                          ),
                        ),
                      ),
                    ),
                  ),
                ),
              ),
            ),
          ),
        ),
      ),
    ),
  ),
)

abbrev waits_for_disco : Event
waits_for_disco = cpu (wait_for (nothing 0) (codes "DISCO"))

turn-Reachable_example :
    Ends
      (MayBlock running waits_for_disco)
      (Reachable reference round_robin start 4 4)
      (turn reference running waits_for_disco)
unfolding turn asked handle_console move_process_to_new create_pcb long_term_step short_term_step
    move_process_to_ready move_process_to_exec handle_dispatch handle_wait_interruption
    finish_process_if_is_not_valid find_resource str_eq quantity_resource_instance_available atoi
    remove_resource_instance modify_resource_instance quantity_resource_instance_retained
turn-Reachable_example =
    turn-Reachable reference nothing 4 (codes "DISCO" ∷ []) (codes "1" ∷ []) round_robin
      (omega arith) start start_kernel_test 4 running waits_for_disco running-Reachable
      ((omega arith, tt), λ e. subst (Ends ⊥ (λ k. Unit {0})) e tt)

-- The process is created and the planners may work.
abbrev to_plan : List Event
to_plan = creates ∷ console (pos 2) (pos 9) start_planning ∷ []

abbrev planned : Machine
planned = played (at_start round_robin start) to_plan

Reachable-Admitted_example :
    Returns
      (λ m. Admitted 0 [] planned.system.kernel m.system.kernel)
      (turns reference
        (machine planned.system.kernel at_long_planner at_short_planner round_robin 0 0)
        (long_term_planner ∷ long_term_planner ∷ long_term_planner ∷ []))
unfolding turn asked handle_console move_process_to_new create_pcb long_term_step short_term_step
    move_process_to_ready move_process_to_exec
Reachable-Admitted_example =
    Reachable-Admitted reference nothing 4 (codes "DISCO" ∷ []) (codes "1" ∷ []) round_robin
      (omega arith) start start_kernel_test 4 planned.system.kernel at_short_planner round_robin 0 0
      0 []
      (played-Reachable (at_start round_robin start) to_plan started
        (refl, ((λ e. cc), (refl, (refl, ((λ e. cc), (refl, tt)))))))
      refl (omega arith) (omega arith)

-- The process is ready.
abbrev to_ready : List Event
to_ready =
    creates
    ∷ console (pos 2) (pos 9) start_planning
    ∷ long_term_planner
    ∷ long_term_planner
    ∷ long_term_planner
    ∷ []

abbrev admitted : Machine
admitted = played (at_start round_robin start) to_ready

Reachable-Dispatched_example :
    Returns
      (λ m. Dispatched 0 [] admitted.system.kernel m.system.kernel)
      (turns reference
        (machine admitted.system.kernel at_long_planner at_short_planner round_robin 0 0)
        (short_term_planner ∷ short_term_planner ∷ short_term_planner ∷ []))
unfolding turn asked handle_console move_process_to_new create_pcb long_term_step short_term_step
    move_process_to_ready move_process_to_exec
Reachable-Dispatched_example =
    Reachable-Dispatched reference nothing 4 (codes "DISCO" ∷ []) (codes "1" ∷ []) round_robin
      (omega arith) start start_kernel_test 4 admitted.system.kernel at_long_planner round_robin 0 0
      0 []
      (played-Reachable (at_start round_robin start) to_ready started (
        refl,
        (
          (λ e. cc),
          (
            refl,
            (
              refl,
              (
                (λ e. cc),
                (refl, (refl, (tt, (refl, (refl, (tt, (refl, (refl, (tt, (refl, tt)))))))))),
              ),
            ),
          ),
        ),
      ))
      refl refl (omega arith)
