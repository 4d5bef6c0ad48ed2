-- ===== src/Kernel/Placed/Finish.antt =====
-- `finish_process` and the loops behind it keep the places.
use old_so_tp.Prelude.{
  ℕ, zero, suc, ◌<◌, ◌≡◌, refl, ◌∙◌, sym, subst, Option, none, some, List, ◌==◌, length, arith,
  Bool-cases, inl, inr, ltb,
}
use old_so_tp.Prelude.Int.{ℤ, pos_part}
use old_so_tp.Prelude.Decimal.{atoi}
use old_so_tp.Prelude.CString.{CString}
use old_so_tp.Commons.{Commons}
use old_so_tp.Shared.Process.{ready, execution, blocked, exit}
use old_so_tp.Kernel.State.{
  Kernel, Run, done, not_null, with_state, QueueRef, new_queue, ready_queue, exec_queue,
  blocked_queue, fresh_queue, queue_at, write_queue,
}
use old_so_tp.Kernel.Resources.{free_resources_retained}
use old_so_tp.Kernel.Queues.{
  wake_loop, check_loop, check_process_in_blocked_and_send_to_ready, update_queue_semaphores,
  finish_begins, finish_found, finish_process_by_id, find_in, build_all_queues_in_list,
}
use old_so_tp.Kernel.Occurrences.{count, count-mem, count_all-set, count-remove}
use old_so_tp.Kernel.Balance.Release.{SameBut, free_resources_retained-SameBut}
use old_so_tp.Kernel.Balance.Search.{find_in-mem}
use old_so_tp.Kernel.Placed.{Placed, Leaves}
use old_so_tp.Kernel.Placed.Rules.{
  Leaves-bind, Leaves-then, Leaves-not_null, Leaves-if, Leaves-down, Leaves-Ends, Fits-gone,
}
use old_so_tp.Kernel.Placed.Moves.{move_process_from_block_to_ready-Placed}

abbrev pub Aligned : Kernel → Type 0
Aligned k = length k.all_resources_instances ≡ length k.all_resources

module _ (lib : Commons) (asleep : List ℕ) where
  wake_loop-Placed :
      (fuel : ℕ) (k : Kernel) (i available index : ℕ)
      → Placed asleep k
      → Leaves (Placed asleep) (wake_loop lib fuel k (blocked_queue i) available index)
  unfolding wake_loop
  wake_loop-Placed zero k i available index placed = placed
  wake_loop-Placed (suc fuel) k i available index placed =
      let q = queue_at k (blocked_queue i) in
      Leaves-if (Placed asleep) _ _ (done k)
        (Leaves-not_null (Placed asleep) (lib.list_get q index) _ (λ process found.
          Leaves-bind (Placed asleep) (Placed asleep) _ _
            (move_process_from_block_to_ready-Placed lib asleep k placed i process
              (count-mem q index process (sym (lib.list_get_lem q index) ∙ found)))
            (λ k' placed'. wake_loop-Placed fuel k' i available (suc index) placed')))
        placed

  check_loop-Placed :
      (left : ℕ) (k : Kernel) (list_index : ℕ)
      → Placed asleep k
      → Leaves (Placed asleep) (check_loop lib left k list_index)
  unfolding check_loop
  check_loop-Placed zero k list_index placed = placed
  check_loop-Placed (suc left) k list_index placed =
      let next = λ (k' : Kernel) (placed' : Placed asleep k').
        check_loop-Placed left k' (suc list_index) placed' in
      elim (Bool-cases (ltb 0 (lib.list_size (queue_at k (blocked_queue list_index))))) [
        | inl some_wait ↦ rw some_wait (
            Leaves-then (Placed asleep)
              (not_null (lib.list_get k.all_resources_instances list_index)) _
              (λ instances.
                let available = pos_part (atoi instances) in
                Leaves-bind (Placed asleep) (Placed asleep)
                  (wake_loop lib (suc available) k (blocked_queue list_index) available 0) _
                  (wake_loop-Placed (suc available) k list_index available 0 placed) next))
        | inr none_waits ↦ rw none_waits (next k placed)
      ]

  check_process_in_blocked_and_send_to_ready-Placed :
      (k : Kernel)
      → Placed asleep k
      → Leaves (Placed asleep) (check_process_in_blocked_and_send_to_ready lib k)
  unfolding check_process_in_blocked_and_send_to_ready
  check_process_in_blocked_and_send_to_ready-Placed k placed = check_loop-Placed _ k 0 placed

  update_queue_semaphores-Placed :
      (k : Kernel) (state : ℕ)
      → Placed asleep k
      → Leaves (Placed asleep) (update_queue_semaphores lib k state)
  unfolding update_queue_semaphores
  update_queue_semaphores-Placed k state placed = elim (Bool-cases (state == execution)) [
    | inl runs ↦ rw runs placed
    | inr not_exec ↦ rw not_exec (elim (Bool-cases (state == ready)) [
      | inl is_ready ↦ rw is_ready (
          Leaves-down (Placed asleep) k.sem_process_ready
            (λ n. record k {
              sem_process_ready = n;
              sem_multiprogramming_degree = suc k.sem_multiprogramming_degree;
            })
            (λ m. placed))
      | inr not_ready ↦ rw not_ready (elim (Bool-cases (state == blocked)) [
        | inl is_blocked ↦ rw is_blocked (
            Leaves-down (Placed asleep) k.sem_process_blocked
              (λ n. record k {
                sem_process_blocked = n;
                sem_multiprogramming_degree = suc k.sem_multiprogramming_degree;
              })
              (λ m. placed))
        | inr not_blocked ↦ rw not_blocked (
            Leaves-down (Placed asleep) k.sem_process_new (λ n. record k { sem_process_new = n })
              (λ m. placed))
      ])
    ])
  ]

  -- The process that ends leaves its queue.
  removed-Placed :
      (k : Kernel) (ref : QueueRef) (process : ℕ) (instances : List CString)
      → Placed asleep k
      → 0 < count process (queue_at k ref)
      → let k1 = record k {
        heap = with_state k.heap process exit;
        all_resources_instances = instances;
      } in
        Placed asleep (write_queue k1 ref (lib.list_remove_element (queue_at k1 ref) process))
  removed-Placed k new_queue process instances placed member a =
      let left = count-remove lib k.queue_new process a member in
      Fits-gone (a == process) _ (k.heap a) (placed a) (omega arith) (omega arith) (omega arith)
        (omega arith) (omega arith) (omega arith)
  removed-Placed k ready_queue process instances placed member a =
      let left = count-remove lib k.queue_ready process a member in
      Fits-gone (a == process) _ (k.heap a) (placed a) (omega arith) (omega arith) (omega arith)
        (omega arith) (omega arith) (omega arith)
  removed-Placed k exec_queue process instances placed member a =
      let left = count-remove lib k.queue_exec process a member in
      Fits-gone (a == process) _ (k.heap a) (placed a) (omega arith) (omega arith) (omega arith)
        (omega arith) (omega arith) (omega arith)
  removed-Placed k (blocked_queue i) process instances placed member a =
      let left = count-remove lib (queue_at k (blocked_queue i)) process a member in
      let all =
        count_all-set k.list_of_queue_blocked i
          (lib.list_remove_element (queue_at k (blocked_queue i)) process) a in
      Fits-gone (a == process) _ (k.heap a) (placed a) (omega arith) (omega arith) (omega arith)
        (omega arith) (omega arith) (omega arith)
  removed-Placed k fresh_queue process instances placed member a = absurd (omega arith)

  finish_begins-Placed :
      (k : Kernel) (ref : QueueRef) (process : ℕ)
      → Placed asleep k
      → Aligned k
      → 0 < count process (queue_at k ref)
      → Leaves (Placed asleep) (finish_begins lib k ref process)
  unfolding finish_begins
  finish_begins-Placed k ref process placed aligned member =
      let k0 = record k { heap = with_state k.heap process exit } in
      Leaves-bind (SameBut k0) (Placed asleep) (free_resources_retained lib k0 process) _
        (Leaves-Ends ⊥ (SameBut k0) (free_resources_retained lib k0 process)
          (free_resources_retained-SameBut lib k0 process aligned))
        (λ k1 b.
          Leaves-bind (Placed asleep) (Placed asleep) _ _
            (check_process_in_blocked_and_send_to_ready-Placed _ (
              subst
                (λ j.
                  Placed asleep
                    (write_queue j ref (lib.list_remove_element (queue_at j ref) process)))
                (sym b.changed) (removed-Placed k ref process b.instances placed member)))
            (λ k3 placed3. placed3))

  finish_found-Placed :
      (k : Kernel) (ref : QueueRef) (process : ℕ)
      → Placed asleep k
      → Aligned k
      → 0 < count process (queue_at k ref)
      → Leaves (Placed asleep) (finish_found lib k ref process)
  unfolding finish_found
  finish_found-Placed k ref process placed aligned member =
      Leaves-bind (Placed asleep) (Placed asleep) (finish_begins lib k ref process) _
        (finish_begins-Placed k ref process placed aligned member)
        (λ k' placed'. update_queue_semaphores-Placed k' (k.heap process).state placed')

  finish_result :
      (k : Kernel) (pid : ℤ) (o : Option (QueueRef × ℕ))
      → find_in lib k (build_all_queues_in_list lib k) pid ≡ o
      → Placed asleep k
      → Aligned k
      → Leaves (Placed asleep) (elim o as (λ x. Run Kernel) [
        | none ↦ done k
        | some (queue, process) ↦ finish_found lib k queue process
      ])
  finish_result k pid none e placed aligned = placed
  finish_result k pid (some (ref, a)) e placed aligned =
      let (j, member) = find_in-mem lib k (build_all_queues_in_list lib k) pid ref a e in
      finish_found-Placed k ref a placed aligned (count-mem (queue_at k ref) j a member)

  pub finish_process_by_id-Placed :
      (k : Kernel) (pid : ℤ)
      → Placed asleep k
      → Aligned k
      → Leaves (Placed asleep) (finish_process_by_id lib k pid)
  unfolding finish_process_by_id
  finish_process_by_id-Placed k pid placed aligned =
      finish_result k pid (find_in lib k (build_all_queues_in_list lib k) pid) refl placed aligned
