-- ===== src/Kernel/Balance/Tests.antt =====
-- A kernel with a process in each queue.
use old_so_tp.Prelude.{◌<◌, ℕ, ◌≡◌, refl, [], ◌∷◌, arith, ◌==◌, if◌then◌else◌}
use old_so_tp.Prelude.Int.{pos}
use old_so_tp.Prelude.CString.{codes, str_eq}
use old_so_tp.Prelude.Decimal.{atoi}
use old_so_tp.Commons.Reference.{reference}
use old_so_tp.Shared.Process.{Pcb, new, ready, execution, blocked}
use old_so_tp.Kernel.State.{Kernel, crash, waits, ready_queue, blocked_queue}
use old_so_tp.Kernel.Queues.{wake_loop, finish_begins, finish_found}
use old_so_tp.Kernel.Deadlocks.{check_deadlocks, handle_wait_interruption}
use old_so_tp.Kernel.Planners.{
  System, fifo, round_robin, at_new, at_cpu, at_ready, long_term_step, short_term_step,
}
use old_so_tp.Kernel.Balance.{Counts, settled, Balanced, Ends, Returns, long_count, short_count}
use old_so_tp.Kernel.Balance.Search.{InState}
use old_so_tp.Kernel.Start.{start_kernel}
use old_so_tp.Kernel.Balance.Copies.{Granted, handle_dispatch-Granted}
use old_so_tp.Kernel.Balance.Woken.{Woken, wake_loop-Woken}
use old_so_tp.Kernel.Balance.Race.{Overtaken, finish_found-Overtaken}
use old_so_tp.Kernel.Balance.Idle.{handle_wait_interruption-idle, handle_dispatch-idle}
use old_so_tp.Kernel.Resources.{find_resource, quantity_resource_instance_available}
use old_so_tp.Kernel.Balance.Initial.{Sound, start_kernel-Sound}
use old_so_tp.Kernel.Connection.{
  signal, wait_for, interrupted, handle_dispatch, create_process, handle_console,
}
use old_so_tp.Kernel.Balance.Requests.{handle_console-Counts}
use old_so_tp.Kernel.Balance.Dispatch.{Allocated, handle_dispatch-Counts}
use old_so_tp.Kernel.Balance.Planners.{long_term_step-Balanced, short_term_step-Balanced}
use old_so_tp.Kernel.Balance.Block.{Logged, check_deadlocks-Logged}

-- The processes 0 runs, 1 is ready, 2 is blocked, and the others are new.
abbrev block : ℕ → Pcb
block a = record {
  pid = pos a;
  program_counter = pos 0;
  quantum = pos 0;
  size = pos 0;
  cpu_register = [];
  resources = if a == 0 then codes "DISCO" ∷ [] else [];
  table_pages = pos 0;
  path = codes "f";
  state = if a == 0 then execution else if a == 1 then ready else if a == 2 then blocked else new;
  client_socket = pos 9;
}

abbrev busy : Kernel
busy = record {
  heap = block;
  next_address = 4;
  queue_new = 3 ∷ [];
  queue_ready = 1 ∷ [];
  queue_exec = 0 ∷ [];
  list_of_queue_blocked = (2 ∷ []) ∷ [];
  all_resources = codes "DISCO" ∷ [];
  all_resources_instances = codes "0" ∷ [];
  sem_process_new = 1;
  sem_process_ready = 1;
  sem_process_blocked = 1;
  sem_cpu_available = 0;
  sem_multiprogramming_degree = 1;
  sem_short_term_planner = 0;
  sem_long_term_planner = 0;
  mutex_stopping_planner = 0;
  id_to_assign = 4;
  sent = [];
  interrupts = [];
  deadlocks = [];
}

busy-Counts : Counts settled 4 0 0 busy
busy-Counts = record {
  new_count = refl;
  ready_count = omega arith;
  blocked_count = omega arith;
  cpu_count = omega arith;
  degree_count = omega arith;
  instance_count = refl;
  queue_count = refl;
}

-- The long term planner holds the token of the new process.
abbrev admitting : System
admitting = record { kernel = busy; long = at_new; short = at_ready; algorithm = fifo }

long_term_step-Balanced_example :
    Ends (long_count busy at_new ≡ 0) (Balanced 5) (long_term_step reference admitting)
long_term_step-Balanced_example = long_term_step-Balanced reference 5 admitting (record {
  new_count = refl;
  ready_count = omega arith;
  blocked_count = omega arith;
  cpu_count = omega arith;
  degree_count = omega arith;
  instance_count = refl;
  queue_count = refl;
})

abbrev dispatching : System
dispatching = record {
  kernel = record busy { queue_exec = []; sem_process_ready = 0; sem_cpu_available = 1 };
  long = at_new;
  short = at_cpu;
  algorithm = round_robin;
}

short_term_step-Balanced_example :
    Ends
      (short_count dispatching.kernel at_cpu ≡ 0)
      (Balanced 4)
      (short_term_step reference dispatching)
short_term_step-Balanced_example = short_term_step-Balanced reference 4 dispatching (record {
  new_count = refl;
  ready_count = omega arith;
  blocked_count = omega arith;
  cpu_count = omega arith;
  degree_count = omega arith;
  instance_count = refl;
  queue_count = refl;
})

-- The planner has the token of the process 1, and no process is blocked.
abbrev taken : Kernel
taken = record busy {
  list_of_queue_blocked = [] ∷ [];
  sem_process_ready = 0;
  sem_process_blocked = 0;
}

finish_found-Overtaken_example :
    Returns (Overtaken reference at_new fifo) (finish_begins reference taken ready_queue 1)
    × (finish_found reference taken ready_queue 1 ≡ waits)
finish_found-Overtaken_example =
    finish_found-Overtaken reference 4 1 taken 1 at_new fifo
      (record {
        new_count = refl;
        ready_count = omega arith;
        blocked_count = omega arith;
        cpu_count = omega arith;
        degree_count = omega arith;
        instance_count = refl;
        queue_count = refl;
      })
      refl refl refl

check_deadlocks-Logged_example : Returns (Logged busy) (check_deadlocks reference busy 2)
check_deadlocks-Logged_example = check_deadlocks-Logged reference busy 0 0 2 refl refl

busy-InState : InState busy
busy-InState = record {
  all_new = (refl, tt);
  all_ready = (refl, tt);
  all_exec = (refl, tt);
  all_blocked = ((refl, tt), tt);
}

busy-Allocated : Allocated busy
busy-Allocated = record {
  new_below = (omega arith, tt);
  ready_below = (omega arith, tt);
  exec_below = (omega arith, tt);
  blocked_below = ((omega arith, tt), tt);
}

handle_dispatch-Counts_example :
    Ends
      (0 < 0)
      (Counts settled 4 0 0)
      (handle_dispatch reference busy (signal (block 0) (codes "DISCO")))
handle_dispatch-Counts_example =
    handle_dispatch-Counts reference 4 0 0 busy (signal (block 0) (codes "DISCO")) busy-Counts
      busy-InState busy-Allocated (omega arith) tt

handle_console-Counts_example :
    Ends ⊥
      (Counts settled 4 0 0)
      (handle_console reference busy (pos 2) (pos 9) (create_process (record { path = codes "f" })))
handle_console-Counts_example =
    handle_console-Counts reference 4 0 0 busy (pos 2) (pos 9)
      (create_process (record { path = codes "f" })) busy-Counts busy-InState tt

-- A resource with an instance.
abbrev rich : Kernel
rich = record busy { all_resources_instances = codes "1" ∷ [] }

rich-Counts : Counts settled 4 0 0 rich
rich-Counts = record {
  new_count = refl;
  ready_count = omega arith;
  blocked_count = omega arith;
  cpu_count = omega arith;
  degree_count = omega arith;
  instance_count = refl;
  queue_count = refl;
}

handle_dispatch-Granted_example :
    Returns
      (Granted reference rich (codes "DISCO") (pos 1))
      (handle_dispatch reference rich (wait_for (block 0) (codes "DISCO")))
unfolding find_resource quantity_resource_instance_available str_eq atoi
handle_dispatch-Granted_example =
    handle_dispatch-Granted reference 4 0 0 rich (block 0) (codes "DISCO") (codes "DISCO") (pos 1)
      rich-Counts (omega arith) refl refl refl

-- The CPU waits for a process.
abbrev idle : Kernel
idle = record busy { queue_exec = []; sem_cpu_available = 1 }

idle-Counts : Counts settled 3 0 0 idle
idle-Counts = record {
  new_count = refl;
  ready_count = omega arith;
  blocked_count = omega arith;
  cpu_count = omega arith;
  degree_count = omega arith;
  instance_count = refl;
  queue_count = refl;
}

handle_wait_interruption-idle_example :
    handle_wait_interruption reference idle 0 (codes "DISCO") ≡ crash
unfolding find_resource quantity_resource_instance_available str_eq atoi
handle_wait_interruption-idle_example =
    handle_wait_interruption-idle reference 3 0 0 idle 0 (codes "DISCO") (codes "DISCO") (pos 0)
      idle-Counts refl refl refl refl

handle_dispatch-idle_example :
    Returns (λ k. k.sem_cpu_available ≡ 2) (handle_dispatch reference idle (interrupted (block 0)))
handle_dispatch-idle_example = handle_dispatch-idle reference 3 0 0 idle (block 0) idle-Counts refl

start_kernel-Sound_example :
    Returns
      (Sound reference 4 0 0)
      (start_kernel reference block (pos 4) (codes "DISCO" ∷ []) (codes "1" ∷ []))
start_kernel-Sound_example =
    start_kernel-Sound reference block 4 (codes "DISCO" ∷ []) (codes "1" ∷ []) (omega arith)

-- Two processes wait for the same resource.
abbrev crowded : Kernel
crowded = record busy { list_of_queue_blocked = (2 ∷ 5 ∷ []) ∷ []; sem_process_blocked = 2 }

-- Of two instances, one is used.
wake_loop-Woken_example :
    Returns
      (Woken crowded 0 [] 2 (2 ∷ 5 ∷ []))
      (wake_loop reference 3 crowded (blocked_queue 0) 2 0)
wake_loop-Woken_example =
    wake_loop-Woken reference settled 5 0 0 crowded 0 (2 ∷ 5 ∷ []) 2
      (record {
        new_count = refl;
        ready_count = omega arith;
        blocked_count = omega arith;
        cpu_count = omega arith;
        degree_count = omega arith;
        instance_count = refl;
        queue_count = refl;
      })
      refl (λ a. ground arith)
