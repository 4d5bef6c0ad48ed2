-- ===== src/Kernel/Placed/Facts.antt =====
-- What the places of the processes say of the queues.
use old_so_tp.Prelude.{ℕ, ◌+◌, ◌<◌, ◌≤◌, ◌≡◌, List, [], ◌∷◌, All, arith, leb, ◌==◌}
use old_so_tp.Shared.Process.{new, ready, execution, blocked}
use old_so_tp.Kernel.State.{Kernel}
use old_so_tp.Kernel.Occurrences.{one, count, count_all}
use old_so_tp.Kernel.Balance.Search.{Has, InState}
use old_so_tp.Kernel.Balance.Dispatch.{Allocated}
use old_so_tp.Kernel.Placed.{Placed}

All-count : (P : ℕ → Type 0) (q : List ℕ) → ((a : ℕ) → 0 < count a q → P a) → All P q
All-count P [] h = tt
All-count P (x ∷ q) h = (h x (ground arith), All-count P q (λ a member. h a (omega arith)))

All-count_all :
    (P : ℕ → Type 0) (qs : List (List ℕ)) → ((a : ℕ) → 0 < count_all a qs → P a) → All (All P) qs
All-count_all P [] h = tt
All-count_all P (q ∷ qs) h = (
  All-count P q (λ a member. h a (omega arith)),
  All-count_all P qs (λ a member. h a (omega arith)),
)

state_is : (state st n : ℕ) → n ≤ one (state == st) → 0 < n → state ≡ st
state_is state st n h member = ground arith

is_allocated : (next a rest : ℕ) → one (leb next a) + rest ≤ 1 → 0 < rest → a < next
is_allocated next a rest h member = ground arith

module _ (asleep : List ℕ) (k : Kernel) (placed : Placed asleep k) where
  pub Placed-InState : InState k
  Placed-InState = record {
    all_new =
        All-count (Has k new) k.queue_new
          (λ a member. state_is (k.heap a).state new _ (placed a).in_new member);
    all_ready =
        All-count (Has k ready) k.queue_ready
          (λ a member. state_is (k.heap a).state ready _ (placed a).in_ready member);
    all_exec =
        All-count (Has k execution) k.queue_exec
          (λ a member. state_is (k.heap a).state execution _ (placed a).in_exec member);
    all_blocked =
        All-count_all (Has k blocked) k.list_of_queue_blocked
          (λ a member. state_is (k.heap a).state blocked _ (placed a).in_blocked member);
  }

  pub Placed-Allocated : Allocated k
  Placed-Allocated = record {
    new_below =
        All-count (λ a. a < k.next_address) k.queue_new
          (λ a member.
            let once = (placed a).once in
            is_allocated k.next_address a (count a k.queue_new) (omega arith) member);
    ready_below =
        All-count (λ a. a < k.next_address) k.queue_ready
          (λ a member.
            let once = (placed a).once in
            is_allocated k.next_address a (count a k.queue_ready) (omega arith) member);
    exec_below =
        All-count (λ a. a < k.next_address) k.queue_exec
          (λ a member.
            let once = (placed a).once in
            is_allocated k.next_address a (count a k.queue_exec) (omega arith) member);
    blocked_below =
        All-count_all (λ a. a < k.next_address) k.list_of_queue_blocked
          (λ a member.
            let once = (placed a).once in
            is_allocated k.next_address a (count_all a k.list_of_queue_blocked) (omega arith)
              member);
  }
