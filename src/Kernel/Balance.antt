-- ===== src/Kernel/Balance.antt =====
-- How the counts of the semaphores (kernel/src/queues.c, planners.c) follow the queues. A token is a
-- `sem_wait` that a planner has passed and whose process it has not moved yet.
pub mod Rules
pub mod Planners
pub mod Moves
pub mod Wake
pub mod Release
pub mod Finish
pub mod Block
pub mod Wait
pub mod Grant
pub mod Search
pub mod Signal
pub mod Dispatch
pub mod Requests
pub mod Initial
pub mod Idle
pub mod Race
pub mod Copies
pub mod Woken
mod Tests
use old_so_tp.Prelude.{ℕ, zero, suc, ◌+◌, ◌≡◌, List, length}
use old_so_tp.Commons.Lists.{total}
use old_so_tp.Kernel.State.{Kernel, Run, done, waits, crash}
use old_so_tp.Kernel.Planners.{
  LongAt, at_long_planner, at_degree, at_new, ShortAt, at_short_planner, at_ready, at_cpu,
  at_quantum, System,
}

abbrev pub degree_token : LongAt → ℕ
degree_token at_long_planner = 0
degree_token at_degree = 0
degree_token at_new = 1

abbrev pub ready_token : ShortAt → ℕ
ready_token at_short_planner = 0
ready_token at_ready = 0
ready_token at_cpu = 1
ready_token at_quantum = 0

-- The count of the semaphore that a planner waits on next. A quantum ends without one.
abbrev pub long_count : Kernel → LongAt → ℕ
long_count k at_long_planner = k.sem_long_term_planner
long_count k at_degree = k.sem_multiprogramming_degree
long_count k at_new = k.sem_process_new

abbrev pub short_count : Kernel → ShortAt → ℕ
short_count k at_short_planner = k.sem_short_term_planner
short_count k at_ready = k.sem_process_ready
short_count k at_cpu = k.sem_cpu_available
short_count k at_quantum = 1

-- The processes that left a queue of each kind before its semaphore follows.
pub record Pending : Type 0 where
  pub of_new : ℕ
  pub of_ready : ℕ
  pub of_blocked : ℕ
  pub of_exec : ℕ

abbrev pub settled : Pending
settled = record { of_new = 0; of_ready = 0; of_blocked = 0; of_exec = 0 }

-- The counts of a kernel whose planners hold `long` and `short` tokens, where the degree of
-- multiprogramming is `degree`.
pub record Counts (p : Pending) (degree long short : ℕ) (k : Kernel) : Type 0 where
  pub new_count : k.sem_process_new ≡ length k.queue_new + p.of_new
  pub ready_count : k.sem_process_ready + short ≡ length k.queue_ready + p.of_ready
  pub blocked_count : k.sem_process_blocked ≡ total k.list_of_queue_blocked + p.of_blocked
  pub cpu_count : k.sem_cpu_available + length k.queue_exec + p.of_exec ≡ 1
  pub degree_count :
      k.sem_multiprogramming_degree
        + long
        + length k.queue_ready
        + length k.queue_exec
        + total k.list_of_queue_blocked
        + (p.of_ready + p.of_blocked + p.of_exec)
      ≡ degree
  -- The lists of the resources run in parallel.
  pub instance_count : length k.all_resources_instances ≡ length k.all_resources
  pub queue_count : length k.list_of_queue_blocked ≡ length k.all_resources

abbrev pub Balanced : ℕ → System → Type 0
Balanced degree s = Counts settled degree (degree_token s.long) (ready_token s.short) s.kernel

module _ {A : Type 0} where
  -- The call does not crash, `P` holds of what it returns, and it waits only where `W` holds.
  abbrev pub Ends : Type 0 → (A → Type 0) → Run A → Type 0
  Ends W P (done a) = P a
  Ends W P waits = W
  Ends W P crash = ⊥

  -- The call returns, and `P` holds of what it returns.
  abbrev pub Returns : (A → Type 0) → Run A → Type 0
  Returns P m = Ends ⊥ P m
