-- ===== src/Kernel/Placed/Moves.antt =====
-- The moves of processes between the queues (kernel/src/queues.c) keep the places.
use old_so_tp.Prelude.{ℕ, ◌<◌, ap, List, ◌==◌, arith}
use old_so_tp.Commons.{Commons}
use old_so_tp.Kernel.State.{
  Kernel, QueueRef, blocked_queue, fresh_queue, new_queue, ready_queue, exec_queue, queue_at,
}
use old_so_tp.Kernel.Queues.{
  pop, move_process_to_ready, move_process_to_exec, block_executing,
  move_process_from_block_to_ready,
}
use old_so_tp.Kernel.Occurrences.{count, count_all-set, count-push, count-remove}
use old_so_tp.Kernel.Placed.{Placed, Leaves}
use old_so_tp.Kernel.Placed.Rules.{
  Leaves-pop, Leaves-down, Fits-to_ready, Fits-to_exec, Fits-to_blocked, Fits-gone,
}

-- A pointer that `get_queue_blocked` gives.
abbrev pub IsBlocked : QueueRef → Type 0
IsBlocked new_queue = ⊥
IsBlocked ready_queue = ⊥
IsBlocked exec_queue = ⊥
IsBlocked (blocked_queue i) = Unit {0}
IsBlocked fresh_queue = Unit {0}

module _ (lib : Commons) (asleep : List ℕ) (k : Kernel) (placed : Placed asleep k) where
  pub move_process_to_ready-Placed : Leaves (Placed asleep) (move_process_to_ready lib k)
  unfolding move_process_to_ready pop
  move_process_to_ready-Placed = Leaves-pop lib (Placed asleep) k.queue_new _ (λ process rest q a.
      let left = ap (count a) q in
      let more = count-push lib k.queue_ready process a in
      Fits-to_ready (a == process) (k.heap process) (k.heap a) (placed a) (omega arith)
        (omega arith) (omega arith) (omega arith) (omega arith) (omega arith))

  pub move_process_to_exec-Placed : Leaves (Placed asleep) (move_process_to_exec lib k)
  unfolding move_process_to_exec pop
  move_process_to_exec-Placed = Leaves-pop lib (Placed asleep) k.queue_ready _ (λ process rest q a.
      let left = ap (count a) q in
      let more = count-push lib k.queue_exec process a in
      Fits-to_exec (a == process) (k.heap process) (k.heap a) (placed a) (omega arith) (omega arith)
        (omega arith) (omega arith) (omega arith) (omega arith))

  pub block_executing-Placed :
      (ref : QueueRef) → IsBlocked ref → Leaves (λ r. Placed asleep r.1) (block_executing lib k ref)
  unfolding block_executing pop
  block_executing-Placed new_queue b = absurd b
  block_executing-Placed ready_queue b = absurd b
  block_executing-Placed exec_queue b = absurd b
  block_executing-Placed (blocked_queue i) b =
      Leaves-pop lib (λ r. Placed asleep r.1) k.queue_exec _
        (λ process rest q a.
          let left = ap (count a) q in
          let more = count-push lib (queue_at k (blocked_queue i)) process a in
          let all =
            count_all-set k.list_of_queue_blocked i
              (lib.queue_push (queue_at k (blocked_queue i)) process) a in
          Fits-to_blocked (a == process) (k.heap process) (k.heap a) (placed a) (omega arith)
            (omega arith) (omega arith) (omega arith) (omega arith) (omega arith))
  block_executing-Placed fresh_queue b =
      Leaves-pop lib (λ r. Placed asleep r.1) k.queue_exec _
        (λ process rest q a.
          let left = ap (count a) q in
          Fits-gone (a == process) _ (k.heap a) (placed a) (omega arith) (omega arith) (omega arith)
            (omega arith) (omega arith) (omega arith))

  pub move_process_from_block_to_ready-Placed :
      (i process : ℕ)
      → 0 < count process (queue_at k (blocked_queue i))
      → Leaves (Placed asleep) (move_process_from_block_to_ready lib k process (blocked_queue i))
  unfolding move_process_from_block_to_ready
  move_process_from_block_to_ready-Placed i process member =
      Leaves-down (Placed asleep) k.sem_process_blocked _ (λ m a.
        let more = count-push lib k.queue_ready process a in
        let left = count-remove lib (queue_at k (blocked_queue i)) process a member in
        let all =
          count_all-set k.list_of_queue_blocked i
            (lib.list_remove_element (queue_at k (blocked_queue i)) process) a in
        Fits-to_ready (a == process) (k.heap process) (k.heap a) (placed a) (omega arith)
          (omega arith) (omega arith) (omega arith) (omega arith) (omega arith))
