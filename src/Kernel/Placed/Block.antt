-- ===== src/Kernel/Placed/Block.antt =====
-- The blocking of a process, with its search for deadlocks (kernel/src/deadlocks.c), keeps the
-- places.
use old_so_tp.Prelude.{ℕ, zero, suc, Option, List, Bool-cases, Option-cases, inl, inr}
use old_so_tp.Prelude.CString.{CString, str_eq}
use old_so_tp.Commons.{Commons}
use old_so_tp.Kernel.State.{Kernel, not_null, QueueRef, blocked_queue, queue_at}
use old_so_tp.Kernel.Resources.{find_resource}
use old_so_tp.Kernel.Queues.{get_loop, get_queue_blocked, block_executing}
use old_so_tp.Kernel.Deadlocks.{
  evaluate, process_loop, queue_loop, check_deadlocks, get_required_resource, log_deadlock,
  move_process_from_exec_to_blocked,
}
use old_so_tp.Kernel.Placed.{Placed, Leaves}
use old_so_tp.Kernel.Placed.Rules.{Leaves-bind, Leaves-then}
use old_so_tp.Kernel.Placed.Moves.{IsBlocked, block_executing-Placed}

module _ (lib : Commons) (asleep : List ℕ) where
  get_loop-IsBlocked :
      (left : ℕ) (k : Kernel) (index : ℕ) (tag : CString) (found : QueueRef)
      → IsBlocked found
      → Leaves IsBlocked (get_loop lib left k index tag found)
  unfolding get_loop
  get_loop-IsBlocked zero k index tag found b = b
  get_loop-IsBlocked (suc left) k index tag found b =
      Leaves-then IsBlocked (not_null (lib.list_get k.all_resources index)) _ (λ resource.
        get_loop-IsBlocked left k (suc index) tag _
          (elim (Bool-cases (str_eq resource tag)) [ inl hit ↦ rw hit tt | inr miss ↦ rw miss b ]))

  pub get_queue_blocked-IsBlocked :
      (k : Kernel) (tag : CString) → Leaves IsBlocked (get_queue_blocked lib k tag)
  unfolding get_queue_blocked
  get_queue_blocked-IsBlocked k tag = get_loop-IsBlocked _ k 0 tag _ tt

  evaluate-Placed :
      (k : Kernel) (to_check : ℕ) (required : Option CString) (candidate : ℕ)
      → Placed asleep k
      → Leaves (Placed asleep) (evaluate lib k to_check required candidate)
  unfolding evaluate log_deadlock
  evaluate-Placed k to_check required candidate placed =
      Leaves-then (Placed asleep) (not_null required) _ (λ resource.
        elim (Option-cases (find_resource lib (k.heap candidate).resources resource)) [
          | inl missing ↦ rw missing placed
          | inr (x, found) ↦ rw found placed
        ])

  process_loop-Placed :
      (left : ℕ) (k : Kernel) (to_check : ℕ) (required : Option CString) (queue : List ℕ)
      (index : ℕ)
      → Placed asleep k
      → Leaves (Placed asleep) (process_loop lib left k to_check required queue index)
  unfolding process_loop
  process_loop-Placed zero k to_check required queue index placed = placed
  process_loop-Placed (suc left) k to_check required queue index placed =
      Leaves-then (Placed asleep) (not_null (lib.list_get queue index)) _ (λ candidate.
        Leaves-bind (Placed asleep) (Placed asleep) (evaluate lib k to_check required candidate) _
          (evaluate-Placed k to_check required candidate placed)
          (λ k' placed'. process_loop-Placed left k' to_check required queue (suc index) placed'))

  queue_loop-Placed :
      (left : ℕ) (k : Kernel) (to_check : ℕ) (required : Option CString) (list_index : ℕ)
      → Placed asleep k
      → Leaves (Placed asleep) (queue_loop lib left k to_check required list_index)
  unfolding queue_loop
  queue_loop-Placed zero k to_check required list_index placed = placed
  queue_loop-Placed (suc left) k to_check required list_index placed =
      let q = queue_at k (blocked_queue list_index) in
      Leaves-bind (Placed asleep) (Placed asleep)
        (process_loop lib (lib.list_size q) k to_check required q 0) _
        (process_loop-Placed (lib.list_size q) k to_check required q 0 placed)
        (λ k' placed'. queue_loop-Placed left k' to_check required (suc list_index) placed')

  pub move_process_from_exec_to_blocked-Placed :
      (k : Kernel) (ref : QueueRef)
      → IsBlocked ref
      → Placed asleep k
      → Leaves (Placed asleep) (move_process_from_exec_to_blocked lib k ref)
  unfolding move_process_from_exec_to_blocked check_deadlocks
  move_process_from_exec_to_blocked-Placed k ref b placed =
      Leaves-bind (λ r. Placed asleep r.1) (Placed asleep) (block_executing lib k ref) _
        (block_executing-Placed lib asleep k placed ref b)
        (λ r placed'.
          Leaves-then (Placed asleep) (get_required_resource lib r.1 r.0) _
            (λ required. queue_loop-Placed _ r.1 r.0 required 0 placed'))
