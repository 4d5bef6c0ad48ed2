-- ===== src/Kernel/Machine/Progress.antt =====
-- The planners move the first process of their queue when nothing is in its way.
use old_so_tp.Prelude.{
  ℕ, suc, ◌+◌, ◌-◌, ◌<◌, ◌≤◌, ◌≡◌, refl, ap, sym, subst, List, [], ◌∷◌, ◌++◌, length, arith,
}
use old_so_tp.Prelude.Int.{pos}
use old_so_tp.Prelude.CString.{CString}
use old_so_tp.Commons.{Commons}
use old_so_tp.Commons.Lists.{total}
use old_so_tp.Shared.Operation.{execute_process}
use old_so_tp.Shared.Process.{Pcb}
use old_so_tp.Kernel.State.{Kernel, done, to_cpu}
use old_so_tp.Kernel.Start.{start_kernel}
use old_so_tp.Kernel.Queues.{move_process_to_ready, move_process_to_exec, pop}
use old_so_tp.Kernel.Planners.{
  Algorithm, fifo, round_robin, LongAt, at_long_planner, ShortAt, at_short_planner, long_term_step,
  short_term_step, admit, dispatch,
}
use old_so_tp.Kernel.Balance.{Returns}
use old_so_tp.Kernel.Machine.{
  Machine, Event, long_term_planner, short_term_planner, turn, turns, Reachable,
}
use old_so_tp.Kernel.Machine.Reach.{Reachable-Safe}

abbrev pub machine : Kernel → LongAt → ShortAt → Algorithm → ℕ → ℕ → Machine
machine k long short algorithm stopping_short stopping_long = record {
  system = record { kernel = k; long = long; short = short; algorithm = algorithm };
  stopping_short = stopping_short;
  stopping_long = stopping_long;
}

-- A kernel with a process to dispatch.
abbrev with_ready : Kernel → ℕ → ℕ → ℕ → ℕ → List ℕ → Kernel
with_ready k a b c process rest = record k {
  sem_short_term_planner = suc a;
  sem_process_ready = suc b;
  sem_cpu_available = suc c;
  queue_ready = process ∷ rest;
  queue_exec = [];
}

-- The process runs, the CPU has its control block, and the others are still ready.
pub record Dispatched (process : ℕ) (rest : List ℕ) (k k' : Kernel) : Type 0 where
  pub runs : k'.queue_exec ≡ process ∷ []
  pub left : k'.queue_ready ≡ rest
  pub told :
      k'.sent
      ≡ k.sent ++ record { peer = to_cpu; header = execute_process; body = k'.heap process } ∷ []

-- A kernel with a process to admit.
abbrev with_new : Kernel → ℕ → ℕ → ℕ → ℕ → List ℕ → Kernel
with_new k a b c process rest = record k {
  sem_long_term_planner = suc a;
  sem_multiprogramming_degree = suc b;
  sem_process_new = suc c;
  queue_new = process ∷ rest;
}

-- The process is ready behind the others.
pub record Admitted (process : ℕ) (rest : List ℕ) (k k' : Kernel) : Type 0 where
  pub left_new : k'.queue_new ≡ rest
  pub is_last : k'.queue_ready ≡ k.queue_ready ++ process ∷ []

abbrev to_dispatch : List Event
to_dispatch = short_term_planner ∷ short_term_planner ∷ short_term_planner ∷ []

abbrev to_admit : List Event
to_admit = long_term_planner ∷ long_term_planner ∷ long_term_planner ∷ []

module _ (lib : Commons) where
  dispatch_lem :
      (k : Kernel) (long : LongAt) (algorithm : Algorithm)
      (stops_short stops_long a b c process : ℕ) (rest : List ℕ)
      → Returns
          (λ m. Dispatched process rest k m.system.kernel)
          (turns lib
            (machine
              (with_ready k a b c process rest)
              long
              at_short_planner
              algorithm
              stops_short
              stops_long)
            to_dispatch)
  unfolding turns turn short_term_step dispatch move_process_to_exec pop
  dispatch_lem k long fifo stops_short stops_long a b c process rest =
      rw (lib.queue_pop_lem (process ∷ rest))
        (record { runs = lib.queue_push_lem [] process; left = refl; told = refl })
  dispatch_lem k long round_robin stops_short stops_long a b c process rest =
      rw (lib.queue_pop_lem (process ∷ rest))
        (record { runs = lib.queue_push_lem [] process; left = refl; told = refl })

  admit_lem :
      (k : Kernel) (short : ShortAt) (algorithm : Algorithm)
      (stops_short stops_long a b c process : ℕ) (rest : List ℕ)
      → Returns
          (λ m. Admitted process rest k m.system.kernel)
          (turns lib
            (machine
              (with_new k a b c process rest)
              at_long_planner
              short
              algorithm
              stops_short
              stops_long)
            to_admit)
  unfolding turns turn long_term_step admit move_process_to_ready pop
  admit_lem k short algorithm stops_short stops_long a b c process rest =
      rw (lib.queue_pop_lem (process ∷ rest))
        (record { left_new = refl; is_last = lib.queue_push_lem k.queue_ready process })

module _ (lib : Commons) (heap : ℕ → Pcb) (degree : ℕ) (resources instances : List CString)
    (algorithm : Algorithm) (enough : length resources ≤ length instances) (start : Kernel)
    (starts : start_kernel lib heap (pos degree) resources instances ≡ done start) where
  -- With at least as many counts of instances as resources in the configuration, a degree of
  -- multiprogramming that is not negative, and FIFO or round robin, in a state that the kernel
  -- reaches from its start by turns of its threads in any order, where each message is handled
  -- without another thread in between and comes only when its handler does not wait before its
  -- end, but for a stop of the planning, which is cut at its two waits, and a report of the CPU
  -- comes only while a process runs and is none of a sleep, where a process is ready, none runs,
  -- and the short term planner is before a round that it may begin, three turns of the planner
  -- with no other turn in between return: the first ready process then runs, the others are ready,
  -- and one message more was sent, which gives the CPU the control block of the process.
  pub Reachable-Dispatched :
      (d : ℕ) (k : Kernel) (long : LongAt) (algorithm' : Algorithm) (stops_short stops_long : ℕ)
      (process : ℕ) (rest : List ℕ)
      → Reachable lib algorithm start degree d
          (machine k long at_short_planner algorithm' stops_short stops_long)
      → k.queue_ready ≡ process ∷ rest
      → k.queue_exec ≡ []
      → 0 < k.sem_short_term_planner
      → Returns
          (λ m'. Dispatched process rest k m'.system.kernel)
          (turns lib
            (machine k long at_short_planner algorithm' stops_short stops_long)
            to_dispatch)
  Reachable-Dispatched d k long algorithm' stops_short stops_long process rest reached ready idle
        planned =
      let safe =
        Reachable-Safe lib heap degree resources instances algorithm enough start starts d
          (machine k long at_short_planner algorithm' stops_short stops_long) reached in
      let is_ready = ap length ready in
      let is_idle = ap length idle in
      let ready_count = safe.counts.ready_count in
      let cpu_count = safe.counts.cpu_count in
      let a : suc (k.sem_short_term_planner - 1) ≡ k.sem_short_term_planner = omega arith in
      let b : suc (k.sem_process_ready - 1) ≡ k.sem_process_ready = omega arith in
      let c : 1 ≡ k.sem_cpu_available = omega arith in
      let same : with_ready k (k.sem_short_term_planner - 1) (k.sem_process_ready - 1) 0 process
            rest
          ≡ k =
        (λ i. record k {
          sem_short_term_planner = a i;
          sem_process_ready = b i;
          sem_cpu_available = c i;
          queue_ready = sym ready i;
          queue_exec = sym idle i;
        }) in
      subst
        (λ j.
          Returns (λ m'. Dispatched process rest k m'.system.kernel)
            (turns lib (machine j long at_short_planner algorithm' stops_short stops_long)
              to_dispatch))
        same
        (dispatch_lem lib k long algorithm' stops_short stops_long (k.sem_short_term_planner - 1)
          (k.sem_process_ready - 1) 0 process rest)

  -- With at least as many counts of instances as resources in the configuration, a degree of
  -- multiprogramming that is not negative, and FIFO or round robin, in a state that the kernel
  -- reaches from its start by turns of its threads in any order, where each message is handled
  -- without another thread in between and comes only when its handler does not wait before its
  -- end, but for a stop of the planning, which is cut at its two waits, and a report of the CPU
  -- comes only while a process runs and is none of a sleep, where a process is new, the processes
  -- that are ready, run or are blocked are fewer than the degree of multiprogramming with which
  -- the state is reached, and the long term planner is before a round that it may begin, three
  -- turns of the planner with no other turn in between return, and the first new process is then
  -- the last of the ready ones.
  pub Reachable-Admitted :
      (d : ℕ) (k : Kernel) (short : ShortAt) (algorithm' : Algorithm) (stops_short stops_long : ℕ)
      (process : ℕ) (rest : List ℕ)
      → Reachable lib algorithm start degree d
          (machine k at_long_planner short algorithm' stops_short stops_long)
      → k.queue_new ≡ process ∷ rest
      → length k.queue_ready + length k.queue_exec + total k.list_of_queue_blocked < d
      → 0 < k.sem_long_term_planner
      → Returns
          (λ m'. Admitted process rest k m'.system.kernel)
          (turns lib (machine k at_long_planner short algorithm' stops_short stops_long) to_admit)
  Reachable-Admitted d k short algorithm' stops_short stops_long process rest reached created room
        planned =
      let safe =
        Reachable-Safe lib heap degree resources instances algorithm enough start starts d
          (machine k at_long_planner short algorithm' stops_short stops_long) reached in
      let is_new = ap length created in
      let new_count = safe.counts.new_count in
      let degree_count = safe.counts.degree_count in
      let a : suc (k.sem_long_term_planner - 1) ≡ k.sem_long_term_planner = omega arith in
      let b : suc (k.sem_multiprogramming_degree - 1) ≡ k.sem_multiprogramming_degree =
        omega arith in
      let c : suc (k.sem_process_new - 1) ≡ k.sem_process_new = omega arith in
      let same : with_new k (k.sem_long_term_planner - 1) (k.sem_multiprogramming_degree - 1)
            (k.sem_process_new - 1) process rest
          ≡ k =
        (λ i. record k {
          sem_long_term_planner = a i;
          sem_multiprogramming_degree = b i;
          sem_process_new = c i;
          queue_new = sym created i;
        }) in
      subst
        (λ j.
          Returns (λ m'. Admitted process rest k m'.system.kernel)
            (turns lib (machine j at_long_planner short algorithm' stops_short stops_long)
              to_admit))
        same
        (admit_lem lib k short algorithm' stops_short stops_long (k.sem_long_term_planner - 1)
          (k.sem_multiprogramming_degree - 1) (k.sem_process_new - 1) process rest)
