-- ===== src/Kernel/Balance/Woken.antt =====
-- Which processes `check_process_in_blocked_and_send_to_ready` wakes in a queue: every other one,
-- since each that is woken leaves the queue while the index goes on.
use old_so_tp.Prelude.{
  ℕ, zero, suc, ◌+◌, ◌<◌, ◌≤◌, ◌≡◌, refl, ap, ◌∙◌, sym, subst, some, List, [], ◌∷◌, ◌++◌, length,
  length-append, append_assoc, append-nil, get_elem?, set, get_elem?-set, get_elem?-middle,
  set-same, set-set, arith, true, false, ltb, ◌==◌,
}
use old_so_tp.Commons.{Commons, remove_first}
use old_so_tp.Kernel.State.{Kernel, done, ◌>>=◌, blocked_queue, queue_at, or_empty}
use old_so_tp.Kernel.Queues.{wake_loop, get_minimun, move_process_from_block_to_ready}
use old_so_tp.Kernel.Occurrences.{one, count, count-append, remove_first-middle}
use old_so_tp.Kernel.Balance.{Counts, Pending, Returns}
use old_so_tp.Kernel.Balance.Wake.{get_minimun-over, wake_loop-Counts}
use old_so_tp.Kernel.Balance.Rules.{Ends-weaken}
use old_so_tp.Kernel.Placed.{Leaves}
use old_so_tp.Kernel.Placed.Rules.{
  Leaves-bind, Leaves-weaken, Leaves-not_null, Leaves-down, Ends-Leaves,
}

-- With `n` instances, the processes that are woken and those that are left.
abbrev pub woken : ℕ → List ℕ → List ℕ
woken zero q = []
woken (suc n) [] = []
woken (suc n) (x ∷ []) = x ∷ []
woken (suc n) (x ∷ y ∷ q) = x ∷ woken n q

abbrev pub kept : ℕ → List ℕ → List ℕ
kept zero q = q
kept (suc n) [] = []
kept (suc n) (x ∷ []) = []
kept (suc n) (x ∷ y ∷ q) = y ∷ kept n q

-- The woken processes are ready behind the others, and the rest of the queue is left.
pub record Woken (k : Kernel) (i : ℕ) (pre : List ℕ) (n : ℕ) (q : List ℕ) (k' : Kernel)
    : Type 0 where
  pub now_ready : k'.queue_ready ≡ k.queue_ready ++ woken n q
  pub still_blocked : k'.list_of_queue_blocked ≡ set k.list_of_queue_blocked i (pre ++ kept n q)

module _ (lib : Commons) where
  get_minimun-short :
      (index first second : ℕ) → second ≤ index → ltb index (get_minimun lib first second) ≡ false
  unfolding get_minimun
  get_minimun-short index first second h = ground arith

  get_minimun-inside :
      (index first second : ℕ)
      → index < first
      → index < second
      → ltb index (get_minimun lib first second) ≡ true
  unfolding get_minimun
  get_minimun-inside index first second h h' = ground arith

  stops :
      (fuel : ℕ) (k : Kernel) (i available index : ℕ)
      → length (queue_at k (blocked_queue i)) ≤ index
      → wake_loop lib fuel k (blocked_queue i) available index ≡ done k
  unfolding wake_loop
  stops zero k i available index h = refl
  stops (suc fuel) k i available index h =
      rw
        (get_minimun-short index available (lib.list_size (queue_at k (blocked_queue i)))
          (omega (arith, lib.list_size_lem (queue_at k (blocked_queue i)))))
        refl

  reached :
      (fuel : ℕ) (k : Kernel) (i available index : ℕ)
      → available ≤ index
      → wake_loop lib fuel k (blocked_queue i) available index ≡ done k
  unfolding wake_loop
  reached zero k i available index h = refl
  reached (suc fuel) k i available index h =
      rw (get_minimun-over lib index available (lib.list_size (queue_at k (blocked_queue i))) h)
        refl

  moved_lem :
      (k : Kernel) (i : ℕ) (pre q : List ℕ) (x : ℕ)
      → get_elem? k.list_of_queue_blocked i ≡ some (pre ++ x ∷ q)
      → count x pre ≡ 0
      → Leaves
          (λ k1.
            (k1.queue_ready ≡ k.queue_ready ++ x ∷ [])
            × (k1.list_of_queue_blocked ≡ set k.list_of_queue_blocked i (pre ++ q)))
          (move_process_from_block_to_ready lib k x (blocked_queue i))
  unfolding move_process_from_block_to_ready
  moved_lem k i pre q x found once = Leaves-down _ k.sem_process_blocked _ (λ m. (
    lib.queue_push_lem k.queue_ready x,
    ap (set k.list_of_queue_blocked i) (
        lib.list_remove_element_lem (queue_at k (blocked_queue i)) x
        ∙ ap (λ o. remove_first (or_empty o) x) found
        ∙ remove_first-middle pre q x once),
  ))

  -- A round that wakes the process at the index.
  woken_round :
      (n fuel : ℕ) (k : Kernel) (i : ℕ) (pre q : List ℕ) (x : ℕ)
      → get_elem? k.list_of_queue_blocked i ≡ some (pre ++ x ∷ q)
      → ((a : ℕ) → count a (pre ++ x ∷ q) ≤ 1)
      → (P : Kernel → Type 0)
      → ((k1 : Kernel)
          → k1.queue_ready ≡ k.queue_ready ++ x ∷ []
          → k1.list_of_queue_blocked ≡ set k.list_of_queue_blocked i (pre ++ q)
          → Leaves P
              (wake_loop lib fuel k1 (blocked_queue i) (length pre + suc n) (suc (length pre))))
      → Leaves P (wake_loop lib (suc fuel) k (blocked_queue i) (length pre + suc n) (length pre))
  unfolding wake_loop
  woken_round n fuel k i pre q x found distinct P next =
      let here : queue_at k (blocked_queue i) ≡ pre ++ x ∷ q = ap or_empty found in
      let size : lib.list_size (queue_at k (blocked_queue i)) ≡ length pre + suc (length q) =
        lib.list_size_lem (queue_at k (blocked_queue i))
        ∙ ap length here
        ∙ length-append pre (x ∷ q) in
      let all = distinct x in
      let parts = count-append pre (x ∷ q) x in
      let itself : one (x == x) ≡ 1 = ground arith in
      rw
        (get_minimun-inside (length pre) (length pre + suc n)
          (lib.list_size (queue_at k (blocked_queue i))) (omega arith) (omega arith))
        (Leaves-not_null P (lib.list_get (queue_at k (blocked_queue i)) (length pre)) _
          (λ process e.
            let found_here : some x ≡ some process =
              sym (get_elem?-middle pre q x)
              ∙ ap (λ r. get_elem? r (length pre)) (sym here)
              ∙ sym (lib.list_get_lem (queue_at k (blocked_queue i)) (length pre))
              ∙ e in
            let same : x ≡ process = cc in
            subst
              (λ y. Leaves P (
                move_process_from_block_to_ready lib k y (blocked_queue i) >>= λ k1.
                wake_loop lib fuel k1 (blocked_queue i) (length pre + suc n) (suc (length pre))))
              same
              (Leaves-bind _ P (move_process_from_block_to_ready lib k x (blocked_queue i)) _
                (moved_lem k i pre q x found (omega arith)) (λ k1 r. next k1 r.0 r.1))))

  Woken_lem :
      (n fuel : ℕ) (k : Kernel) (i : ℕ) (pre q : List ℕ)
      → n ≤ fuel
      → get_elem? k.list_of_queue_blocked i ≡ some (pre ++ q)
      → ((a : ℕ) → count a (pre ++ q) ≤ 1)
      → Leaves
          (Woken k i pre n q)
          (wake_loop lib fuel k (blocked_queue i) (length pre + n) (length pre))
  Woken_lem zero fuel k i pre q enough found distinct =
      rw (reached fuel k i (length pre + 0) (length pre) (omega arith)) (record {
        now_ready = sym (append-nil k.queue_ready);
        still_blocked = sym (set-same k.list_of_queue_blocked i (pre ++ q) found);
      })
  Woken_lem (suc n) fuel k i pre [] enough found distinct =
      rw
        (stops fuel k i (length pre + suc n) (length pre) (
          let here : length (queue_at k (blocked_queue i)) ≡ length pre =
            ap (λ o. length (or_empty o)) found ∙ ap length (append-nil pre) in
          omega arith))
        (record {
          now_ready = sym (append-nil k.queue_ready);
          still_blocked = sym (set-same k.list_of_queue_blocked i (pre ++ []) found);
        })
  Woken_lem (suc n) zero k i pre (x ∷ q) enough found distinct = absurd (omega arith)
  Woken_lem (suc n) (suc fuel) k i pre (x ∷ []) enough found distinct =
      woken_round n fuel k i pre [] x found distinct (Woken k i pre (suc n) (x ∷ []))
        (λ k1 ready blocked.
          rw
            (stops fuel k1 i (length pre + suc n) (suc (length pre)) (
              let here : length (queue_at k1 (blocked_queue i)) ≡ length pre =
                ap (λ qs. length (or_empty (get_elem? qs i))) blocked
                ∙ ap (λ o. length (or_empty o))
                    (get_elem?-set k.list_of_queue_blocked i (pre ++ x ∷ []) (pre ++ []) found)
                ∙ ap length (append-nil pre) in
              omega arith))
            (record { now_ready = ready; still_blocked = blocked }))
  Woken_lem (suc n) (suc fuel) k i pre (x ∷ y ∷ q) enough found distinct =
      woken_round n fuel k i pre (y ∷ q) x found distinct (Woken k i pre (suc n) (x ∷ y ∷ q))
        (λ k1 ready blocked.
          let at_i : get_elem? k1.list_of_queue_blocked i ≡ some ((pre ++ y ∷ []) ++ q) =
            ap (λ qs. get_elem? qs i) blocked
            ∙ get_elem?-set k.list_of_queue_blocked i (pre ++ x ∷ y ∷ q) (pre ++ y ∷ q) found
            ∙ ap some (sym (append_assoc pre (y ∷ []) q)) in
          let longer = length-append pre (y ∷ []) in
          let index : length (pre ++ y ∷ []) ≡ suc (length pre) = omega arith in
          let available : length (pre ++ y ∷ []) + n ≡ length pre + suc n = omega arith in
          let ih = Woken_lem n fuel k1 i (pre ++ y ∷ []) q (omega arith) at_i (λ a.
            let d = distinct a in
            let whole = count-append pre (x ∷ y ∷ q) a in
            let first = count-append (pre ++ y ∷ []) q a in
            let last = count-append pre (y ∷ []) a in omega arith) in
          Leaves-weaken (Woken k1 i (pre ++ y ∷ []) n q) (Woken k i pre (suc n) (x ∷ y ∷ q)) _
            (λ k' w. record {
              now_ready =
                  w.now_ready
                  ∙ ap (λ r. r ++ woken n q) ready
                  ∙ append_assoc k.queue_ready (x ∷ []) (woken n q);
              still_blocked =
                  w.still_blocked
                  ∙ ap (λ qs. set qs i ((pre ++ y ∷ []) ++ kept n q)) blocked
                  ∙ set-set k.list_of_queue_blocked i (pre ++ y ∷ q) _
                  ∙ ap (set k.list_of_queue_blocked i) (append_assoc pre (y ∷ []) (kept n q));
            })
            (subst
              (λ c.
                Leaves (Woken k1 i (pre ++ y ∷ []) n q)
                  (wake_loop lib fuel k1 (blocked_queue i) c (suc (length pre))))
              available
              (subst
                (λ c.
                  Leaves (Woken k1 i (pre ++ y ∷ []) n q)
                    (wake_loop lib fuel k1 (blocked_queue i) (length (pre ++ y ∷ []) + n) c))
                index ih)))

  -- Where the counts fit the queues and a resource has a queue of blocked processes in which each
  -- is once, the loop of `check_process_in_blocked_and_send_to_ready` over that queue, with a
  -- number of instances, returns: the first, third, fifth process and so on, as many as there are
  -- instances and no more than there are, are then the last of the ready ones in that order, and
  -- the queue keeps the others.
  pub wake_loop-Woken :
      (p : Pending) (degree long short : ℕ) (k : Kernel) (i : ℕ) (q : List ℕ) (n : ℕ)
      → Counts p degree long short k
      → get_elem? k.list_of_queue_blocked i ≡ some q
      → ((a : ℕ) → count a q ≤ 1)
      → Returns (Woken k i [] n q) (wake_loop lib (suc n) k (blocked_queue i) n 0)
  wake_loop-Woken p degree long short k i q n c found distinct =
      let available : 0 + n ≡ n = omega arith in
      let m = wake_loop lib (suc n) k (blocked_queue i) n 0 in
      Ends-weaken ⊥ (λ k'. Counts p degree long short k' × Woken k i [] n q k') (Woken k i [] n q) m
        (λ k' both. both.1)
        (Ends-Leaves ⊥ (Counts p degree long short) (Woken k i [] n q) m
          (wake_loop-Counts lib p degree long short (suc n) k i n 0 c)
          (subst (λ b. Leaves (Woken k i [] n q) (wake_loop lib (suc n) k (blocked_queue i) b 0))
            available (Woken_lem n (suc n) k i [] q (omega arith) found distinct)))
