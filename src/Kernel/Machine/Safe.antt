-- ===== src/Kernel/Machine/Safe.antt =====
-- The invariant of the kernel at work, and that each turn keeps it.
use old_so_tp.Prelude.{ℕ, suc, ◌-◌, ◌<◌, ◌≡◌, refl, [], arith}
use old_so_tp.Prelude.Int.{ℤ, pos, negsuc}
use old_so_tp.Commons.{Commons}
use old_so_tp.Kernel.State.{Kernel, Run, done, waits, crash, down, ◌>>=◌}
use old_so_tp.Kernel.Connection.{
  ConsoleRequest, create_process, finish_process, stop_planning, start_planning,
  modify_multiprogramming_degree, show_all_processes, unknown_operation,
  set_multiprogramming_degree, CpuReport, handle_console, handle_dispatch,
}
use old_so_tp.Kernel.Planners.{System, long_term_step, short_term_step}
use old_so_tp.Kernel.Balance.{
  Counts, settled, Balanced, Ends, Returns, degree_token, ready_token, long_count, short_count,
}
use old_so_tp.Kernel.Balance.Rules.{Ends-map, Ends-weaken, Ends-down_last}
use old_so_tp.Kernel.Balance.Planners.{long_term_step-Balanced, short_term_step-Balanced}
use old_so_tp.Kernel.Balance.Requests.{
  MayWait, KeepsDegree, planner_semaphores, handle_console-Counts,
}
use old_so_tp.Kernel.Balance.Dispatch.{handle_dispatch-Counts}
use old_so_tp.Kernel.Placed.{Placed}
use old_so_tp.Kernel.Placed.Rules.{Ends-Leaves}
use old_so_tp.Kernel.Placed.Facts.{Placed-InState, Placed-Allocated}
use old_so_tp.Kernel.Placed.Handlers.{
  long_term_step-Placed, short_term_step-Placed, handle_console-Placed, handle_dispatch-Placed,
}
use old_so_tp.Kernel.Machine.{
  Machine, Event, long_term_planner, short_term_planner, console, stop_short, stop_long, cpu,
  with_kernel, asked, turn, degree_set, new_degree, degree_after, MayCome,
}

-- The counts of the semaphores fit the queues, and each process is at one place.
pub record Safe (degree : ℕ) (m : Machine) : Type 0 where
  pub counts :
      Counts settled degree
        (degree_token m.system.long)
        (ready_token m.system.short)
        m.system.kernel
  pub placed : Placed [] m.system.kernel

-- Where a turn may wait: a planner, or a stop of the planning, at a semaphore whose count is 0.
abbrev pub MayBlock : Machine → Event → Type 0
MayBlock m long_term_planner = long_count m.system.kernel m.system.long ≡ 0
MayBlock m short_term_planner = short_count m.system.kernel m.system.short ≡ 0
MayBlock m (console quantum socket request) = ⊥
MayBlock m stop_short = m.system.kernel.sem_short_term_planner ≡ 0
MayBlock m stop_long = m.system.kernel.sem_long_term_planner ≡ 0
MayBlock m (cpu report) = ⊥

-- A call that does not wait returns.
Ends-Returns :
    {A : Type 0} (W : Type 0) (P : A → Type 0) (o : Run A)
    → Ends W P o
    → ¬ (o ≡ waits)
    → Returns P o
Ends-Returns W P (done a) ends runs = ends
Ends-Returns W P waits ends runs = runs refl
Ends-Returns W P crash ends runs = ends

module _ (lib : Commons) (degree : ℕ) (m : Machine) (safe : Safe degree m) where
  with_system :
      (s : System) → Balanced degree s × Placed [] s.kernel → Safe degree (record m { system = s })
  with_system s both = record { counts = both.0; placed = both.1 }

  Safe-with_kernel :
      (k : Kernel)
      → Counts settled degree (degree_token m.system.long) (ready_token m.system.short) k
        × Placed [] k
      → Safe degree (with_kernel m k)
  Safe-with_kernel k both = record { counts = both.0; placed = both.1 }

  -- The semaphores of the planners themselves count no process.
  stopped :
      (a b c short long : ℕ)
      → Safe degree
          (record (with_kernel m (record m.system.kernel {
            sem_short_term_planner = a;
            sem_long_term_planner = b;
            mutex_stopping_planner = c;
          })) { stopping_short = short; stopping_long = long })
  stopped a b c short long = record {
    counts =
        planner_semaphores lib degree (degree_token m.system.long) (ready_token m.system.short)
          m.system.kernel a b c safe.counts;
    placed = safe.placed;
  }

  report_turn :
      (report : CpuReport)
      → MayCome lib m (cpu report)
      → Ends
          (0 < ready_token m.system.short)
          (λ k. Safe degree (with_kernel m k))
          (handle_dispatch lib m.system.kernel report)
  report_turn report come =
      let k = m.system.kernel in
      let long = degree_token m.system.long in
      let short = ready_token m.system.short in
      Ends-weaken (0 < short) _ _ (handle_dispatch lib k report) Safe-with_kernel (
        Ends-Leaves (0 < short) (Counts settled degree long short) (Placed [])
          (handle_dispatch lib k report)
          (handle_dispatch-Counts lib degree long short k report safe.counts
            (Placed-InState [] k safe.placed) (Placed-Allocated [] k safe.placed) come.0.0 come.0.1)
          (handle_dispatch-Placed lib [] k report safe.placed safe.counts.instance_count))

  console_turn :
      (quantum socket : ℤ) (request : ConsoleRequest)
      → KeepsDegree request
      → Ends (MayWait (ready_token m.system.short) m.system.kernel request) (Safe degree) (
          handle_console lib m.system.kernel quantum socket request
          >>= (λ k. done (with_kernel m k)))
  console_turn quantum socket request keeps =
      let k = m.system.kernel in
      let long = degree_token m.system.long in
      let short = ready_token m.system.short in
      Ends-map (MayWait short k request) (Safe degree) (handle_console lib k quantum socket request)
        (with_kernel m)
        (Ends-weaken (MayWait short k request) _ _ (handle_console lib k quantum socket request)
          Safe-with_kernel
          (Ends-Leaves (MayWait short k request) (Counts settled degree long short) (Placed [])
            (handle_console lib k quantum socket request)
            (handle_console-Counts lib degree long short k quantum socket request safe.counts
              (Placed-InState [] k safe.placed) keeps)
            (handle_console-Placed lib [] k quantum socket request safe.placed
              safe.counts.instance_count)))

  -- A new degree is set on the semaphore, whatever the number of processes that are admitted.
  modified :
      (n : ℤ)
      → Safe
          (degree_set m n degree)
          (with_kernel m (set_multiprogramming_degree lib m.system.kernel n))
  unfolding set_multiprogramming_degree
  modified (pos n) =
      let c = safe.counts in
      record {
        counts = record {
          new_count = c.new_count;
          ready_count = c.ready_count;
          blocked_count = c.blocked_count;
          cpu_count = c.cpu_count;
          degree_count = omega arith;
          instance_count = c.instance_count;
          queue_count = c.queue_count;
        };
        placed = safe.placed;
      }
  modified (negsuc n) = safe

  request_turn :
      (quantum socket : ℤ) (request : ConsoleRequest)
      → Ends
          (MayWait (ready_token m.system.short) m.system.kernel request)
          (Safe (new_degree m request degree))
          (asked lib m quantum socket request)
  unfolding asked handle_console
  request_turn quantum socket (create_process process) =
      console_turn quantum socket (create_process process) tt
  request_turn quantum socket (finish_process pid) =
      console_turn quantum socket (finish_process pid) tt
  request_turn quantum socket stop_planning =
      stopped m.system.kernel.sem_short_term_planner m.system.kernel.sem_long_term_planner
        (suc m.system.kernel.mutex_stopping_planner) (suc m.stopping_short) m.stopping_long
  request_turn quantum socket start_planning = console_turn quantum socket start_planning tt
  request_turn quantum socket (modify_multiprogramming_degree n) = modified n
  request_turn quantum socket show_all_processes = console_turn quantum socket show_all_processes tt
  request_turn quantum socket unknown_operation = console_turn quantum socket unknown_operation tt

  stop_turn :
      Ends (MayBlock m stop_short) (Safe degree) (turn lib m stop_short)
      × Ends (MayBlock m stop_long) (Safe degree) (turn lib m stop_long)
  unfolding turn
  stop_turn =
      let k = m.system.kernel in
      let mutex = k.mutex_stopping_planner in
      (
        Ends-map (MayBlock m stop_short) (Safe degree)
            (down k.sem_short_term_planner (λ n. record k { sem_short_term_planner = n }))
            (λ k1. record (with_kernel m k1) {
              stopping_short = m.stopping_short - 1;
              stopping_long = suc m.stopping_long;
            })
            (Ends-down_last (MayBlock m stop_short) _ k.sem_short_term_planner _ (λ e. e)
              (λ n e.
                stopped n k.sem_long_term_planner mutex (m.stopping_short - 1)
                  (suc m.stopping_long))),
        Ends-map (MayBlock m stop_long) (Safe degree)
            (down k.sem_long_term_planner (λ n. record k { sem_long_term_planner = n }))
            (λ k1. record (with_kernel m k1) { stopping_long = m.stopping_long - 1 })
            (Ends-down_last (MayBlock m stop_long) _ k.sem_long_term_planner _ (λ e. e)
              (λ n e.
                stopped k.sem_short_term_planner n mutex m.stopping_short (m.stopping_long - 1))),
      )

  -- Where the invariant holds, each turn that may come keeps it or waits where `MayBlock` says; it
  -- uses no null pointer and no unset value.
  pub turn-Safe :
      (event : Event)
      → MayCome lib m event
      → Ends (MayBlock m event) (Safe (degree_after m event degree)) (turn lib m event)
  unfolding turn
  turn-Safe long_term_planner come =
      Ends-map (MayBlock m long_term_planner) (Safe degree) (long_term_step lib m.system)
        (λ s. record m { system = s })
        (Ends-weaken (MayBlock m long_term_planner) _ _ (long_term_step lib m.system) with_system (
          Ends-Leaves (MayBlock m long_term_planner) (Balanced degree) (λ s. Placed [] s.kernel)
            (long_term_step lib m.system) (long_term_step-Balanced lib degree m.system safe.counts)
            (long_term_step-Placed lib [] m.system safe.placed)))
  turn-Safe short_term_planner come =
      Ends-map (MayBlock m short_term_planner) (Safe degree) (short_term_step lib m.system)
        (λ s. record m { system = s })
        (Ends-weaken (MayBlock m short_term_planner) _ _ (short_term_step lib m.system) with_system
          (Ends-Leaves (MayBlock m short_term_planner) (Balanced degree) (λ s. Placed [] s.kernel)
            (short_term_step lib m.system)
            (short_term_step-Balanced lib degree m.system safe.counts)
            (short_term_step-Placed lib [] m.system safe.placed)))
  turn-Safe (console quantum socket request) come =
      Ends-Returns (MayWait (ready_token m.system.short) m.system.kernel request)
        (Safe (new_degree m request degree)) (asked lib m quantum socket request)
        (request_turn quantum socket request) come
  turn-Safe stop_short come = stop_turn.0
  turn-Safe stop_long come = stop_turn.1
  turn-Safe (cpu report) come =
      Ends-map ⊥ (Safe degree) (handle_dispatch lib m.system.kernel report) (with_kernel m) (
        Ends-Returns (0 < ready_token m.system.short) (λ k. Safe degree (with_kernel m k))
          (handle_dispatch lib m.system.kernel report) (report_turn report come) come.1)
