-- ===== src/Kernel/Balance/Block.antt =====
-- `move_process_from_exec_to_blocked`: the search for deadlocks behind a block uses no value that
-- was not set, changes nothing but the log, and the counts follow the queues.
use old_so_tp.Prelude.{
  ℕ, zero, suc, ◌+◌, ◌<◌, ◌≤◌, ◌≡◌, refl, ap, ◌∙◌, sym, subst, none, some, List, [], ◌∷◌, length,
  arith, get_elem?, get_elem?-lt, lt-get_elem?, Bool, true, Bool-cases, Option-cases, inl, inr, ltb,
  ltb→lt,
}
use old_so_tp.Prelude.Int.{ℤ}
use old_so_tp.Prelude.CString.{CString}
use old_so_tp.Commons.{Commons, find_first}
use old_so_tp.Kernel.State.{Kernel, done, blocked_queue, queue_at, eq_int}
use old_so_tp.Kernel.Queues.{find_process_from_queue, block_executing}
use old_so_tp.Kernel.Resources.{find_resource}
use old_so_tp.Kernel.Deadlocks.{
  required_loop, get_required_resource, log_deadlock, evaluate, process_loop, queue_loop,
  check_deadlocks, move_process_from_exec_to_blocked,
}
use old_so_tp.Kernel.Balance.{Counts, Pending, Returns}
use old_so_tp.Kernel.Balance.Rules.{Ends-bind, Ends-weaken}
use old_so_tp.Kernel.Balance.Wake.{found_queue}
use old_so_tp.Kernel.Balance.Moves.{BlockedIn, block_executing-Counts}

eq_int_refl : (z : ℤ) → eq_int z z ≡ true
eq_int_refl z = ground arith

-- A search meets a member that passes, or one before it.
find_first-member :
    (p : ℕ → Bool) (q : List ℕ) (j a : ℕ)
    → get_elem? q j ≡ some a
    → p a ≡ true
    → (x : ℕ) × (find_first p q ≡ some x)
find_first-member p [] j a member passes = cc
find_first-member p (x ∷ q) zero a member passes = (x, ground (arith, passes))
find_first-member p (x ∷ q) (suc j) a member passes = elim (Bool-cases (p x)) [
  | inl here ↦ (x, rw here refl)
  | inr there ↦ let (y, e) = find_first-member p q j a member passes in (y, rw there e)
]

-- `k'` is `k` but for the log.
pub record Logged (k k' : Kernel) : Type 0 where
  pub log : List ℤ
  pub changed : k' ≡ record k { deadlocks = log }

Logged-refl : (k : Kernel) → Logged k k
Logged-refl k = record { log = k.deadlocks; changed = refl }

Logged-trans : (k k' k'' : Kernel) → Logged k k' → Logged k' k'' → Logged k k''
Logged-trans k k' k'' a b = record {
  log = b.log;
  changed = b.changed ∙ ap (λ (j : Kernel). record j { deadlocks = b.log }) a.changed;
}

module _ (lib : Commons) where
  found_pid :
      (k : Kernel) (q : List ℕ) (j a : ℕ)
      → get_elem? q j ≡ some a
      → (x : ℕ) × (find_process_from_queue lib k q (k.heap a).pid ≡ some x)
  unfolding find_process_from_queue
  found_pid k q j a member =
      rw (lib.list_find_lem q (λ element. eq_int (k.heap element).pid (k.heap a).pid))
        (find_first-member _ q j a member (eq_int_refl (k.heap a).pid))

  later :
      (k : Kernel) (list_index i j a : ℕ)
      → list_index ≤ i
      → get_elem? (queue_at k (blocked_queue i)) j ≡ some a
      → find_process_from_queue lib k (queue_at k (blocked_queue list_index)) (k.heap a).pid ≡ none
      → suc list_index ≤ i
  later k list_index i j a before member missing = elim (Bool-cases (ltb list_index i)) [
    | inl less ↦ let l = ltb→lt _ _ less in omega arith
    | inr not_less ↦
        let same : i ≡ list_index = ground arith in
        let (x, e) =
          found_pid k (queue_at k (blocked_queue list_index)) j a
            (ap (λ n. get_elem? (queue_at k (blocked_queue n)) j) (sym same) ∙ member) in
        cc
  ]

  required_loop-found :
      (left : ℕ) (k : Kernel) (list_index i j a : ℕ)
      → length k.list_of_queue_blocked ≡ length k.all_resources
      → list_index + left ≡ length k.list_of_queue_blocked
      → list_index ≤ i
      → i < length k.list_of_queue_blocked
      → get_elem? (queue_at k (blocked_queue i)) j ≡ some a
      → (r : CString) × (required_loop lib left k list_index (k.heap a).pid ≡ done (some r))
  unfolding required_loop
  required_loop-found zero k list_index i j a aligned inside before bound member =
      absurd (omega arith)
  required_loop-found (suc left) k list_index i j a aligned inside before bound member =
      elim (Option-cases
        (find_process_from_queue lib k (queue_at k (blocked_queue list_index)) (k.heap a).pid)) [
          | inl missing ↦
              rw (missing, required_loop)
                (required_loop-found left k (suc list_index) i j a aligned (omega arith)
                  (later k list_index i j a before member missing) bound member)
          | inr (x, here) ↦
              let (r, e) = get_elem?-lt k.all_resources list_index (omega arith) in
              (
                r,
                rw (here, required_loop)
                    (rw (lib.list_get_lem k.all_resources list_index) (rw e refl)),
              )
        ]

  evaluate-Logged :
      (k : Kernel) (to_check : ℕ) (r : CString) (candidate : ℕ)
      → Returns (Logged k) (evaluate lib k to_check (some r) candidate)
  unfolding evaluate log_deadlock
  evaluate-Logged k to_check r candidate =
      elim (Option-cases (find_resource lib (k.heap candidate).resources r)) [
        | inl missing ↦ rw missing (Logged-refl k)
        | inr (x, found) ↦ rw found (record { log = _; changed = refl })
      ]

  process_loop-Logged :
      (left : ℕ) (k : Kernel) (to_check : ℕ) (r : CString) (queue : List ℕ) (index : ℕ)
      → index + left ≡ length queue
      → Returns (Logged k) (process_loop lib left k to_check (some r) queue index)
  unfolding process_loop
  process_loop-Logged zero k to_check r queue index inside = Logged-refl k
  process_loop-Logged (suc left) k to_check r queue index inside =
      let (candidate, e) = get_elem?-lt queue index (omega arith) in
      rw (lib.list_get_lem queue index) (
        rw e (
          Ends-bind ⊥ (Logged k) (Logged k) (evaluate lib k to_check (some r) candidate) _
            (evaluate-Logged k to_check r candidate)
            (λ k' b.
              Ends-weaken ⊥ (Logged k') (Logged k)
                (process_loop lib left k' to_check (some r) queue (suc index))
                (λ k'' d. Logged-trans k k' k'' b d)
                (process_loop-Logged left k' to_check r queue (suc index) (omega arith)))))

  queue_loop-Logged :
      (left : ℕ) (k : Kernel) (to_check : ℕ) (r : CString) (list_index : ℕ)
      → Returns (Logged k) (queue_loop lib left k to_check (some r) list_index)
  unfolding queue_loop
  queue_loop-Logged zero k to_check r list_index = Logged-refl k
  queue_loop-Logged (suc left) k to_check r list_index =
      let q = queue_at k (blocked_queue list_index) in
      Ends-bind ⊥ (Logged k) (Logged k) (process_loop lib (lib.list_size q) k to_check (some r) q 0)
        _
        (process_loop-Logged (lib.list_size q) k to_check r q 0
          (omega (arith, lib.list_size_lem q)))
        (λ k' b.
          Ends-weaken ⊥ (Logged k') (Logged k)
            (queue_loop lib left k' to_check (some r) (suc list_index))
            (λ k'' d. Logged-trans k k' k'' b d)
            (queue_loop-Logged left k' to_check r (suc list_index)))

  -- For a process that is in some blocked queue, when there are as many blocked queues as
  -- resources, `check_deadlocks` never compares with an unset resource and changes nothing but the
  -- log.
  pub check_deadlocks-Logged :
      (k : Kernel) (i j process : ℕ)
      → length k.list_of_queue_blocked ≡ length k.all_resources
      → get_elem? (queue_at k (blocked_queue i)) j ≡ some process
      → Returns (Logged k) (check_deadlocks lib k process)
  unfolding check_deadlocks get_required_resource
  check_deadlocks-Logged k i j process aligned member =
      let n = lib.list_size k.list_of_queue_blocked in
      let (r, e) =
        required_loop-found n k 0 i j process aligned
          (omega (arith, lib.list_size_lem k.list_of_queue_blocked)) (omega arith)
          (lt-get_elem? k.list_of_queue_blocked i _ (
            found_queue _ (
              let l = lt-get_elem? (queue_at k (blocked_queue i)) j process member in omega arith)))
          member in
      rw e (queue_loop-Logged n k process r 0)

module _ (lib : Commons) (p : Pending) (degree long short : ℕ) where
  Counts-Logged :
      (k k' : Kernel) → Counts p degree long short k → Logged k k' → Counts p degree long short k'
  Counts-Logged k k' c b = subst (Counts p degree long short) (sym b.changed) (record {
    new_count = c.new_count;
    ready_count = c.ready_count;
    blocked_count = c.blocked_count;
    cpu_count = c.cpu_count;
    degree_count = c.degree_count;
    instance_count = c.instance_count;
    queue_count = c.queue_count;
  })

  -- Where the counts fit the queues, a process runs and the blocked queue exists,
  -- `move_process_from_exec_to_blocked` with its search for deadlocks never waits, uses no null
  -- pointer and no unset value, and the counts fit the queues after it.
  pub move_process_from_exec_to_blocked-Counts :
      (k : Kernel) (i : ℕ) (q : List ℕ)
      → Counts p degree long short k
      → get_elem? k.list_of_queue_blocked i ≡ some q
      → 0 < length k.queue_exec
      → Returns
          (Counts p degree long short)
          (move_process_from_exec_to_blocked lib k (blocked_queue i))
  unfolding move_process_from_exec_to_blocked
  move_process_from_exec_to_blocked-Counts k i q c found running =
      Ends-bind ⊥ (BlockedIn p degree long short i) (Counts p degree long short)
        (block_executing lib k (blocked_queue i)) _
        (block_executing-Counts lib p degree long short k c i q found running)
        (λ r b.
          Ends-weaken ⊥ (Logged r.1) (Counts p degree long short) (check_deadlocks lib r.1 r.0)
            (λ k' d. Counts-Logged r.1 k' b.counts d)
            (check_deadlocks-Logged lib r.1 i b.index r.0 b.counts.queue_count b.member))
