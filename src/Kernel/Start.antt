-- ===== src/Kernel/Start.antt =====
-- The start of the kernel: `main` of kernel/src/kernel.c up to the connections.
use old_so_tp.Prelude.{ℕ, List, []}
use old_so_tp.Prelude.Int.{ℤ}
use old_so_tp.Prelude.CString.{CString}
use old_so_tp.Commons.{Commons}
use old_so_tp.Shared.Process.{Pcb}
use old_so_tp.Kernel.State.{Kernel, Run, done, ◌>>=◌, sem_init}
use old_so_tp.Kernel.Resources.{init_resources}

-- The globals before `main`. `heap` is what memory holds where nothing is allocated.
abbrev pub globals : (ℕ → Pcb) → Kernel
globals heap = record {
  heap = heap;
  next_address = 0;
  queue_new = [];
  queue_ready = [];
  queue_exec = [];
  list_of_queue_blocked = [];
  all_resources = [];
  all_resources_instances = [];
  sem_process_new = 0;
  sem_process_ready = 0;
  sem_process_blocked = 0;
  sem_cpu_available = 0;
  sem_multiprogramming_degree = 0;
  sem_short_term_planner = 0;
  sem_long_term_planner = 0;
  mutex_stopping_planner = 0;
  id_to_assign = 0;
  sent = [];
  interrupts = [];
  deadlocks = [];
}

unfoldable pub init_queues : Kernel → Kernel
init_queues k = record k { queue_new = []; queue_ready = []; queue_exec = [] }

unfoldable pub init_semaphores_process : Kernel → Kernel
init_semaphores_process k = record k {
  sem_process_new = 0;
  sem_process_ready = 0;
  sem_process_blocked = 0;
  sem_cpu_available = 1;
}

-- With a negative degree the semaphore is not initialised and holds what the memory held, which the
-- model takes as the 0 of the globals.
unfoldable pub init_semaphores_planners : ℤ → Kernel → Kernel
init_semaphores_planners multiprogramming_degree k = record k {
  sem_short_term_planner = 0;
  sem_long_term_planner = 0;
  sem_multiprogramming_degree = sem_init k.sem_multiprogramming_degree multiprogramming_degree;
  mutex_stopping_planner = 1;
}

-- With the resources and the instances of the configuration.
unfoldable pub start_kernel : Commons → (ℕ → Pcb) → ℤ → List CString → List CString → Run Kernel
unfolding init_queues init_semaphores_process init_semaphores_planners
start_kernel lib heap multiprogramming_degree resources instances = do
  k ← init_resources lib (init_queues (globals heap)) resources instances
  done (init_semaphores_planners multiprogramming_degree (init_semaphores_process k))
