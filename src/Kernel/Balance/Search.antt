-- ===== src/Kernel/Balance/Search.antt =====
-- `finish_process` with its search: the first queue that has the id, and the process in it.
use old_so_tp.Prelude.{
  ℕ, zero, suc, ◌<◌, ◌≡◌, refl, ap, ◌∙◌, sym, subst, Option, none, some, List, [], ◌∷◌, arith,
  get_elem?, All, Bool, Bool-cases, inl, inr,
}
use old_so_tp.Prelude.Int.{ℤ}
use old_so_tp.Commons.{Commons, find_first}
use old_so_tp.Shared.Process.{new, ready, execution, blocked}
use old_so_tp.Kernel.State.{
  Kernel, Run, done, QueueRef, new_queue, ready_queue, exec_queue, blocked_queue, fresh_queue,
  queue_at, eq_int, or_empty,
}
use old_so_tp.Kernel.Queues.{
  find_process_from_queue, find_in, build_all_queues_in_list, finish_process_by_id, finish_found,
}
use old_so_tp.Kernel.Balance.{Counts, settled, Ends}
use old_so_tp.Kernel.Balance.Finish.{state_of, finish_found-Counts}

abbrev pub Has : Kernel → ℕ → ℕ → Type 0
Has k state a = (k.heap a).state ≡ state

-- Each process has the state of the queue that it is in.
pub record InState (k : Kernel) : Type 0 where
  pub all_new : All (Has k new) k.queue_new
  pub all_ready : All (Has k ready) k.queue_ready
  pub all_exec : All (Has k execution) k.queue_exec
  pub all_blocked : All (All (Has k blocked)) k.list_of_queue_blocked

module _ {A : Type 0} where
  All-get_elem? :
      (P : A → Type 0) (xs : List A) (i : ℕ) (a : A) → All P xs → get_elem? xs i ≡ some a → P a
  All-get_elem? P [] i a h e = cc
  All-get_elem? P (x ∷ xs) zero a h e = let same : x ≡ a = cc in subst P same h.0
  All-get_elem? P (x ∷ xs) (suc i) a h e = All-get_elem? P xs i a h.1 e

All-or_empty :
    (P : ℕ → Type 0) (qs : List (List ℕ)) (i : ℕ)
    → All (All P) qs
    → All P (or_empty (get_elem? qs i))
All-or_empty P [] i h = tt
All-or_empty P (q ∷ qs) zero h = h.0
All-or_empty P (q ∷ qs) (suc i) h = All-or_empty P qs i h.1

-- The processes behind a pointer have its state.
InState-queue_at :
    (k : Kernel) (ref : QueueRef) → InState k → All (Has k (state_of ref)) (queue_at k ref)
InState-queue_at k new_queue s = s.all_new
InState-queue_at k ready_queue s = s.all_ready
InState-queue_at k exec_queue s = s.all_exec
InState-queue_at k (blocked_queue i) s =
    All-or_empty (Has k blocked) k.list_of_queue_blocked i s.all_blocked
InState-queue_at k fresh_queue s = tt

find_first-mem :
    (p : ℕ → Bool) (q : List ℕ) (a : ℕ)
    → find_first p q ≡ some a
    → (j : ℕ) × (get_elem? q j ≡ some a)
find_first-mem p [] a h = cc
find_first-mem p (x ∷ q) a h = elim (Bool-cases (p x)) [
  | inl here ↦ (0, ground (arith, h, here))
  | inr there ↦ let (j, e) = find_first-mem p q a (ground (arith, h, there)) in (suc j, e)
]

module _ (lib : Commons) where
  -- A step of the search: the process `o` of this queue, or the result of the other queues.
  find_in_step :
      (k : Kernel) (r : QueueRef) (refs : List QueueRef) (pid : ℤ) (ref : QueueRef) (a : ℕ)
      (o : Option ℕ)
      → find_process_from_queue lib k (queue_at k r) pid ≡ o
      → elim o as (λ x. Option (QueueRef × ℕ)) [
        | none ↦ find_in lib k refs pid
        | some process ↦ some (r, process)
      ]
        ≡ some (ref, a)
      → (find_in lib k refs pid ≡ some (ref, a) → (j : ℕ) × (get_elem? (queue_at k ref) j ≡ some a))
      → (j : ℕ) × (get_elem? (queue_at k ref) j ≡ some a)
  unfolding find_process_from_queue
  find_in_step k r refs pid ref a none here h ih = ih h
  find_in_step k r refs pid ref a (some x) here h ih =
      let (j, e) =
        find_first-mem (λ element. eq_int (k.heap element).pid pid) (queue_at k r) x
          (sym (lib.list_find_lem (queue_at k r) _) ∙ here) in
      let same_ref : r ≡ ref = cc in
      let same : x ≡ a = cc in
      (j, subst (λ q. get_elem? (queue_at k q) j ≡ some a) same_ref (e ∙ ap some same))

  pub find_in-mem :
      (k : Kernel) (refs : List QueueRef) (pid : ℤ) (ref : QueueRef) (a : ℕ)
      → find_in lib k refs pid ≡ some (ref, a)
      → (j : ℕ) × (get_elem? (queue_at k ref) j ≡ some a)
  unfolding find_in
  find_in-mem k [] pid ref a h = cc
  find_in-mem k (r ∷ refs) pid ref a h =
      find_in_step k r refs pid ref a (find_process_from_queue lib k (queue_at k r) pid) refl h
        (find_in-mem k refs pid ref a)

  module _ (degree long short : ℕ) where
    finish_result :
        (k : Kernel) (pid : ℤ) (o : Option (QueueRef × ℕ))
        → find_in lib k (build_all_queues_in_list lib k) pid ≡ o
        → Counts settled degree long short k
        → InState k
        → Ends (0 < short) (Counts settled degree long short) (elim o as (λ x. Run Kernel) [
          | none ↦ done k
          | some (queue, process) ↦ finish_found lib k queue process
        ])
    finish_result k pid none e c s = c
    finish_result k pid (some (ref, a)) e c s =
        let (j, member) = find_in-mem k (build_all_queues_in_list lib k) pid ref a e in
        finish_found-Counts lib degree long short k ref j a c member (
          All-get_elem? (Has k (state_of ref)) (queue_at k ref) j a (InState-queue_at k ref s)
            member)

    -- Where the counts of the semaphores fit the queues and each process is in the state of its
    -- queue, `finish_process` on any process id, found or not, never uses a null pointer, waits
    -- only when the short term planner holds the token of a ready process, and otherwise the
    -- counts fit the queues after it.
    pub finish_process_by_id-Counts :
        (k : Kernel) (pid : ℤ)
        → Counts settled degree long short k
        → InState k
        → Ends (0 < short) (Counts settled degree long short) (finish_process_by_id lib k pid)
    unfolding finish_process_by_id
    finish_process_by_id-Counts k pid c s =
        finish_result k pid (find_in lib k (build_all_queues_in_list lib k) pid) refl c s
