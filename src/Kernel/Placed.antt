-- ===== src/Kernel/Placed.antt =====
-- Where the processes of the kernel (kernel/src/queues.c, handle_connection.c) are: an address is
-- in one queue at most, which is the one of its process's state, or asleep, or not allocated.
pub mod Rules
pub mod Moves
pub mod Finish
pub mod Block
pub mod Answer
pub mod Handlers
pub mod Facts
use old_so_tp.Prelude.{ℕ, ◌+◌, ◌≤◌, List, leb, ◌==◌}
use old_so_tp.Kernel.Occurrences.{one, count, count_all}
use old_so_tp.Shared.Process.{new, ready, execution, blocked}
use old_so_tp.Kernel.State.{Kernel, Run, done, waits, crash}

-- A process of the state `state` is so many times in each kind of queue, `free` times in memory
-- that is not allocated, and `asleep` times in the thread of a sleep.
pub record Fits (free state of_new of_ready of_exec of_blocked asleep : ℕ) : Type 0 where
  pub once : free + of_new + of_ready + of_exec + of_blocked + asleep ≤ 1
  pub in_new : of_new ≤ one (state == new)
  pub in_ready : of_ready ≤ one (state == ready)
  pub in_exec : of_exec ≤ one (state == execution)
  pub in_blocked : of_blocked ≤ one (state == blocked)

-- What `Fits` says of the address `a`, where the processes `asleep` sleep.
abbrev pub Fit : List ℕ → Kernel → ℕ → Type 0
Fit asleep k a =
    Fits (one (leb k.next_address a)) (k.heap a).state (count a k.queue_new) (count a k.queue_ready)
      (count a k.queue_exec) (count_all a k.list_of_queue_blocked) (count a asleep)

abbrev pub Placed : List ℕ → Kernel → Type 0
Placed asleep k = (a : ℕ) → Fit asleep k a

module _ {A : Type 0} where
  -- `P` holds of what the call returns, if it returns.
  abbrev pub Leaves : (A → Type 0) → Run A → Type 0
  Leaves P (done a) = P a
  Leaves P waits = Unit {0}
  Leaves P crash = Unit {0}
