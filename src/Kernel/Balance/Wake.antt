-- ===== src/Kernel/Balance/Wake.antt =====
-- `check_process_in_blocked_and_send_to_ready`: its loops end, use no null pointer, and keep the
-- counts.
use old_so_tp.Prelude.{
  ℕ, zero, suc, ◌<◌, ◌≤◌, ◌≡◌, refl, Option, none, some, List, length, arith, get_elem?-lt,
  lt-get_elem?, true, false, Bool-cases, inl, inr, ltb, ltb→lt,
}
use old_so_tp.Prelude.Int.{pos_part}
use old_so_tp.Prelude.Decimal.{atoi}
use old_so_tp.Commons.{Commons}
use old_so_tp.Kernel.State.{Kernel, Run, ◌>>=◌, not_null, blocked_queue, queue_at, or_empty}
use old_so_tp.Kernel.Queues.{
  move_process_from_block_to_ready, wake_loop, check_loop, get_minimun,
  check_process_in_blocked_and_send_to_ready,
}
use old_so_tp.Kernel.Balance.{Counts, Pending, Returns}
use old_so_tp.Kernel.Balance.Rules.{Ends-bind}
use old_so_tp.Kernel.Balance.Moves.{move_process_from_block_to_ready-Counts}

-- A queue that is not empty is there.
pub found_queue : (o : Option (List ℕ)) → 0 < length (or_empty o) → o ≡ some (or_empty o)
found_queue none h = absurd (omega arith)
found_queue (some q) h = refl

module _ (lib : Commons) where
  pub get_minimun-bounds :
      (index first second : ℕ)
      → ltb index (get_minimun lib first second) ≡ true
      → (index < first) × (index < second)
  unfolding get_minimun
  get_minimun-bounds index first second h = ground arith

  module _ (p : Pending) (degree long short : ℕ) where
    -- One round of the inner loop.
    round :
        (k : Kernel) (i index : ℕ) (f : Kernel → Run Kernel)
        → Counts p degree long short k
        → index < length (queue_at k (blocked_queue i))
        → ((k' : Kernel)
            → Counts p degree long short k'
            → Returns (Counts p degree long short) (f k'))
        → Returns (Counts p degree long short) (
            not_null (lib.list_get (queue_at k (blocked_queue i)) index) >>= λ process.
            move_process_from_block_to_ready lib k process (blocked_queue i) >>= f)
    round k i index f c inside next =
        let q = queue_at k (blocked_queue i) in
        let (process, e) = get_elem?-lt q index inside in
        rw (lib.list_get_lem q index) (
          rw e (
            Ends-bind ⊥ (Counts p degree long short) (Counts p degree long short)
              (move_process_from_block_to_ready lib k process (blocked_queue i)) f
              (move_process_from_block_to_ready-Counts lib p degree long short k c i q index process
                (found_queue _ (omega arith)) e)
              next))

    pub wake_loop-Counts :
        (fuel : ℕ) (k : Kernel) (i available index : ℕ)
        → Counts p degree long short k
        → Returns
            (Counts p degree long short)
            (wake_loop lib fuel k (blocked_queue i) available index)
    unfolding wake_loop
    wake_loop-Counts zero k i available index c = c
    wake_loop-Counts (suc fuel) k i available index c =
        let q = queue_at k (blocked_queue i) in
        elim (Bool-cases (ltb index (get_minimun lib available (lib.list_size q)))) [
          | inl more ↦
              let b = get_minimun-bounds index available (lib.list_size q) more in
              rw more (
                round k i index _ c (omega (arith, lib.list_size_lem q))
                  (λ k' c'. wake_loop-Counts fuel k' i available (suc index) c'))
          | inr over ↦ rw over c
        ]

    check_loop-Counts :
        (left : ℕ) (k : Kernel) (list_index : ℕ)
        → Counts p degree long short k
        → Returns (Counts p degree long short) (check_loop lib left k list_index)
    unfolding check_loop
    check_loop-Counts zero k list_index c = c
    check_loop-Counts (suc left) k list_index c =
        let next = λ (k' : Kernel) (c' : Counts p degree long short k').
          check_loop-Counts left k' (suc list_index) c' in
        let q = queue_at k (blocked_queue list_index) in
        elim (Bool-cases (ltb 0 (lib.list_size q))) [
          | inl some_wait ↦
              let nonempty : 0 < length q =
                let l = ltb→lt 0 (lib.list_size q) some_wait in
                omega (arith, lib.list_size_lem q) in
              let (instances, e) = get_elem?-lt k.all_resources_instances list_index (
                let l =
                  lt-get_elem? k.list_of_queue_blocked list_index q (found_queue _ nonempty) in
                omega arith) in
              let available = pos_part (atoi instances) in
              rw some_wait (
                rw (lib.list_get_lem k.all_resources_instances list_index) (
                  rw e (
                    Ends-bind ⊥ (Counts p degree long short) (Counts p degree long short)
                      (wake_loop lib (suc available) k (blocked_queue list_index) available 0) _
                      (wake_loop-Counts (suc available) k list_index available 0 c) next)))
          | inr none_waits ↦ rw none_waits (next k c)
        ]

    -- Where the counts fit the queues, `check_process_in_blocked_and_send_to_ready` never waits,
    -- uses no null pointer, and the counts fit the queues after it.
    pub check_process_in_blocked_and_send_to_ready-Counts :
        (k : Kernel)
        → Counts p degree long short k
        → Returns (Counts p degree long short) (check_process_in_blocked_and_send_to_ready lib k)
    unfolding check_process_in_blocked_and_send_to_ready
    check_process_in_blocked_and_send_to_ready-Counts k c =
        check_loop-Counts (lib.list_size k.list_of_queue_blocked) k 0 c

  pub get_minimun-over :
      (index first second : ℕ) → first ≤ index → ltb index (get_minimun lib first second) ≡ false
  unfolding get_minimun
  get_minimun-over index first second h = ground arith
