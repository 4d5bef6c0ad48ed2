-- ===== src/Kernel/Placed/Handlers.antt =====
-- The planners (kernel/src/planners.c) and the connections (kernel/src/handle_connection.c) keep the
-- places.
use old_so_tp.Prelude.{
  ℕ, suc, ◌+◌, ◌<◌, ◌≤◌, ◌≡◌, refl, sym, subst, none, some, List, [], ◌∷◌, leb, ◌==◌, arith,
  Bool-cases, inl, inr, if◌then◌else◌,
}
use old_so_tp.Prelude.Int.{ℤ, pos, of_word, ◌+ℤ◌, wrap_int}
use old_so_tp.Commons.{Commons, first_of_queue, remove_first}
use old_so_tp.Shared.Process.{Pcb, Process, new, ready}
use old_so_tp.Kernel.State.{Kernel, allocate, write_pcb, with_state}
use old_so_tp.Kernel.Queues.{move_process_to_new, move_process_to_ready, move_process_to_exec}
use old_so_tp.Kernel.Connection.{
  ConsoleRequest, create_process, finish_process, stop_planning, start_planning,
  modify_multiprogramming_degree, show_all_processes, unknown_operation, CpuReport, finishes,
  blocks, interrupted, wait_for, signal, sleep, lost, create_pcb, set_multiprogramming_degree,
  handle_console, handle_dispatch, interrupted_process, sleep_begins, sleep_ends,
}
use old_so_tp.Kernel.Planners.{
  LongAt, at_long_planner, at_degree, at_new, ShortAt, at_short_planner, at_ready, at_cpu,
  at_quantum, System, Algorithm, fifo, round_robin, admit, dispatch, interrupt_process,
  long_term_step, short_term_step,
}
use old_so_tp.Kernel.Occurrences.{one, count, count-push, count-remove_first}
use old_so_tp.Kernel.Placed.{Placed, Leaves}
use old_so_tp.Kernel.Placed.Rules.{
  Leaves-bind, Leaves-down, Fits-to_new, Fits-to_ready, Fits-gone, Fits-state,
}
use old_so_tp.Kernel.Placed.Moves.{move_process_to_ready-Placed, move_process_to_exec-Placed}
use old_so_tp.Kernel.Placed.Finish.{Aligned, finish_process_by_id-Placed}
use old_so_tp.Kernel.Placed.Answer.{
  handle_signal_interruption-Placed, handle_wait_interruption-Placed,
}

-- An address is allocated.
pub free-suc : (n a : ℕ) → one (leb (suc n) a) + one (a == n) ≡ one (leb n a)
free-suc n a = ground arith

-- A new control block at an address where nothing was.
module _ (asleep : List ℕ) (k : Kernel) (placed : Placed asleep k) where
  pub allocate-Placed : (pcb : Pcb) → Placed asleep (allocate k pcb)
  allocate-Placed pcb a =
      let free = free-suc k.next_address a in
      Fits-gone (a == k.next_address) pcb (k.heap a) (placed a) (omega arith) (omega arith)
        (omega arith) (omega arith) (omega arith) (omega arith)

module _ (lib : Commons) (asleep : List ℕ) where
  long_lem :
      (k : Kernel) (long : LongAt) (short : ShortAt) (algorithm : Algorithm)
      → Placed asleep k
      → Leaves
          (λ s. Placed asleep s.kernel)
          (long_term_step lib
            (record { kernel = k; long = long; short = short; algorithm = algorithm }))
  unfolding long_term_step admit
  long_lem k at_long_planner short algorithm placed =
      Leaves-bind (Placed asleep) (λ s. Placed asleep s.kernel) _ _
        (Leaves-down (Placed asleep) k.sem_long_term_planner
          (λ n. record k { sem_long_term_planner = n }) (λ n. placed))
        (λ k1 placed1. placed1)
  long_lem k at_degree short algorithm placed =
      Leaves-bind (Placed asleep) (λ s. Placed asleep s.kernel) _ _
        (Leaves-down (Placed asleep) k.sem_multiprogramming_degree
          (λ n. record k { sem_multiprogramming_degree = n }) (λ n. placed))
        (λ k1 placed1. placed1)
  long_lem k at_new short algorithm placed =
      Leaves-bind (Placed asleep) (λ s. Placed asleep s.kernel) _ _
        (Leaves-down (Placed asleep) k.sem_process_new (λ n. record k { sem_process_new = n })
          (λ n. placed))
        (λ k1 placed1.
          Leaves-bind (Placed asleep) (λ s. Placed asleep s.kernel) (admit lib k1) _
            (Leaves-bind (Placed asleep) (Placed asleep) (move_process_to_ready lib k1) _
              (move_process_to_ready-Placed lib asleep k1 placed1) (λ k2 placed2. placed2))
            (λ k2 placed2. placed2))

  short_lem :
      (k : Kernel) (long : LongAt) (short : ShortAt) (algorithm : Algorithm)
      → Placed asleep k
      → Leaves
          (λ s. Placed asleep s.kernel)
          (short_term_step lib
            (record { kernel = k; long = long; short = short; algorithm = algorithm }))
  unfolding short_term_step dispatch interrupt_process
  short_lem k long at_short_planner algorithm placed =
      Leaves-bind (Placed asleep) (λ s. Placed asleep s.kernel) _ _
        (Leaves-down (Placed asleep) k.sem_short_term_planner
          (λ n. record k { sem_short_term_planner = n }) (λ n. placed))
        (λ k1 placed1. placed1)
  short_lem k long at_ready algorithm placed =
      Leaves-bind (Placed asleep) (λ s. Placed asleep s.kernel) _ _
        (Leaves-down (Placed asleep) k.sem_process_ready (λ n. record k { sem_process_ready = n })
          (λ n. placed))
        (λ k1 placed1. placed1)
  short_lem k long at_cpu fifo placed =
      Leaves-bind (Placed asleep) (λ s. Placed asleep s.kernel) _ _
        (Leaves-down (Placed asleep) k.sem_cpu_available (λ n. record k { sem_cpu_available = n })
          (λ n. placed))
        (λ k1 placed1.
          Leaves-bind (Placed asleep) (λ s. Placed asleep s.kernel) (move_process_to_exec lib k1) _
            (move_process_to_exec-Placed lib asleep k1 placed1) (λ k2 placed2. placed2))
  short_lem k long at_cpu round_robin placed =
      Leaves-bind (Placed asleep) (λ s. Placed asleep s.kernel) _ _
        (Leaves-down (Placed asleep) k.sem_cpu_available (λ n. record k { sem_cpu_available = n })
          (λ n. placed))
        (λ k1 placed1.
          Leaves-bind (Placed asleep) (λ s. Placed asleep s.kernel) (move_process_to_exec lib k1) _
            (move_process_to_exec-Placed lib asleep k1 placed1) (λ k2 placed2. placed2))
  short_lem k long at_quantum algorithm placed = placed

  pub long_term_step-Placed :
      (s : System)
      → Placed asleep s.kernel
      → Leaves (λ s'. Placed asleep s'.kernel) (long_term_step lib s)
  long_term_step-Placed s placed = long_lem s.kernel s.long s.short s.algorithm placed

  pub short_term_step-Placed :
      (s : System)
      → Placed asleep s.kernel
      → Leaves (λ s'. Placed asleep s'.kernel) (short_term_step lib s)
  short_term_step-Placed s placed = short_lem s.kernel s.long s.short s.algorithm placed

  created-Placed :
      (k : Kernel) (process : Process) (quantum socket : ℤ)
      → Placed asleep k
      → let made = create_pcb lib k process quantum socket in
        Leaves (Placed asleep) (move_process_to_new lib made.1 made.0)
  unfolding create_pcb move_process_to_new
  created-Placed k process quantum socket placed a =
      let free = free-suc k.next_address a in
      let more = count-push lib k.queue_new k.next_address a in
      let pcb : Pcb = record {
        pid = of_word k.id_to_assign;
        program_counter = pos 0;
        size = pos 0;
        quantum = quantum;
        cpu_register = lib.list_add (lib.list_add (lib.list_add (lib.list_add [] 0) 0) 0) 0;
        resources = [];
        table_pages = pos 0;
        path = process.path;
        state = new;
        client_socket = socket;
      } in
      Fits-to_new (a == k.next_address) pcb (k.heap a) (placed a) (omega arith) (omega arith)
        (omega arith) (omega arith) (omega arith) (omega arith)

  pub handle_console-Placed :
      (k : Kernel) (quantum socket : ℤ) (request : ConsoleRequest)
      → Placed asleep k
      → Aligned k
      → Leaves (Placed asleep) (handle_console lib k quantum socket request)
  unfolding handle_console set_multiprogramming_degree
  handle_console-Placed k quantum socket (create_process process) placed aligned =
      created-Placed k process quantum socket placed
  handle_console-Placed k quantum socket (finish_process pid) placed aligned =
      finish_process_by_id-Placed lib asleep k (of_word pid) placed aligned
  handle_console-Placed k quantum socket stop_planning placed aligned =
      let k0 : Kernel = record k { mutex_stopping_planner = suc k.mutex_stopping_planner } in
      Leaves-bind (Placed asleep) (Placed asleep) _ _
        (Leaves-down (Placed asleep) k.sem_short_term_planner
          (λ n. record k0 { sem_short_term_planner = n }) (λ n. placed))
        (λ k1 placed1.
          Leaves-down (Placed asleep) k1.sem_long_term_planner
            (λ n. record k1 { sem_long_term_planner = n }) (λ n. placed1))
  handle_console-Placed k quantum socket start_planning placed aligned =
      Leaves-down (Placed asleep) k.mutex_stopping_planner
        (λ n. record k {
          mutex_stopping_planner = n;
          sem_short_term_planner = suc k.sem_short_term_planner;
          sem_long_term_planner = suc k.sem_long_term_planner;
        })
        (λ n. placed)
  handle_console-Placed k quantum socket (modify_multiprogramming_degree n) placed aligned = placed
  handle_console-Placed k quantum socket show_all_processes placed aligned = placed
  handle_console-Placed k quantum socket unknown_operation placed aligned = placed

-- What is left of the execution queue has no process more than before.
count-rest :
    (q : List ℕ) (a : ℕ)
    → count a (elim (first_of_queue q) as (λ x. List ℕ) [ none ↦ [] | some (x, rest) ↦ rest ])
      ≤ count a q
count-rest [] a = omega arith
count-rest (x ∷ q) a = omega arith

interrupted_state :
    (k : Kernel) (pcb : Pcb) (a : ℕ)
    → (if a == k.next_address then record pcb { state = ready } else k.heap a).state
      ≡ (with_state (write_pcb k.heap k.next_address pcb) k.next_address ready a).state
interrupted_state k pcb a = elim (Bool-cases (a == k.next_address)) [
  | inl here ↦ rw here refl
  | inr there ↦ rw there refl
]

module _ (lib : Commons) where
  count-popped :
      (q : List ℕ) (a : ℕ)
      → count a (elim (lib.queue_pop q) as (λ x. List ℕ) [ none ↦ [] | some (x, rest) ↦ rest ])
        ≤ count a q
  count-popped q a =
      subst
        (λ o. count a (elim o as (λ x. List ℕ) [ none ↦ [] | some (x, rest) ↦ rest ]) ≤ count a q)
        (sym (lib.queue_pop_lem q)) (count-rest q a)

  interrupted_process-Placed :
      (asleep : List ℕ) (k : Kernel) (pcb : Pcb)
      → Placed asleep k
      → Placed asleep (interrupted_process lib (allocate k pcb) k.next_address)
  unfolding interrupted_process
  interrupted_process-Placed asleep k pcb placed a =
      let free = free-suc k.next_address a in
      let more = count-push lib k.queue_ready k.next_address a in
      let left = count-popped k.queue_exec a in
      Fits-state (interrupted_state k pcb a) (
        Fits-to_ready (a == k.next_address) pcb (k.heap a) (placed a) (omega arith) (omega arith)
          (omega arith) (omega arith) (omega arith) (omega arith))

  pub handle_dispatch-Placed :
      (asleep : List ℕ) (k : Kernel) (report : CpuReport)
      → Placed asleep k
      → Aligned k
      → Leaves (Placed asleep) (handle_dispatch lib k report)
  unfolding handle_dispatch
  handle_dispatch-Placed asleep k (finishes pcb) placed aligned =
      finish_process_by_id-Placed lib asleep (allocate k pcb) pcb.pid
        (allocate-Placed asleep k placed pcb) aligned
  handle_dispatch-Placed asleep k (blocks pcb) placed aligned = allocate-Placed asleep k placed pcb
  handle_dispatch-Placed asleep k (interrupted pcb) placed aligned =
      interrupted_process-Placed asleep k pcb placed
  handle_dispatch-Placed asleep k (wait_for pcb resource) placed aligned =
      handle_wait_interruption-Placed lib asleep (allocate k pcb) k.next_address resource
        (allocate-Placed asleep k placed pcb) aligned
  handle_dispatch-Placed asleep k (signal pcb resource) placed aligned =
      handle_signal_interruption-Placed lib asleep (allocate k pcb) k.next_address resource
        (allocate-Placed asleep k placed pcb) aligned
  handle_dispatch-Placed asleep k (sleep pcb time) placed aligned =
      allocate-Placed asleep k placed pcb
  handle_dispatch-Placed asleep k lost placed aligned = placed

  -- The process that was reported sleeps, and none runs in its place.
  sleep_begins-Placed :
      (asleep : List ℕ) (k : Kernel) (pcb : Pcb) (time : ℤ)
      → Placed asleep k
      → Leaves
          (λ k'. Placed (k.next_address ∷ asleep) (sleep_begins lib k'))
          (handle_dispatch lib k (sleep pcb time))
  unfolding handle_dispatch sleep_begins
  sleep_begins-Placed asleep k pcb time placed a =
      let free = free-suc k.next_address a in
      let left = count-popped k.queue_exec a in
      Fits-gone (a == k.next_address) pcb (k.heap a) (placed a) (omega arith) (omega arith)
        (omega arith) (omega arith) (omega arith) (omega arith)

  sleep_ends-Placed :
      (asleep : List ℕ) (k : Kernel) (process : ℕ)
      → 0 < count process asleep
      → Placed asleep k
      → Placed (remove_first asleep process) (sleep_ends lib k process)
  unfolding sleep_ends
  sleep_ends-Placed asleep k process member placed a =
      let more = count-push lib k.queue_ready process a in
      let left = count-remove_first asleep process a member in
      let pcb : Pcb = record (k.heap process) {
        program_counter = wrap_int ((k.heap process).program_counter +ℤ pos 1);
      } in
      Fits-to_ready (a == process) pcb (k.heap a) (placed a) (omega arith) (omega arith)
        (omega arith) (omega arith) (omega arith) (omega arith)
