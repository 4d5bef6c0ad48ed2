-- ===== src/Kernel/Balance/Moves.antt =====
-- The moves of processes between the queues keep the counts.
use old_so_tp.Prelude.{
  ℕ, suc, ◌+◌, ◌<◌, ◌≡◌, ap, ◌∙◌, some, List, length, arith, get_elem?, length-set, get_elem?-set,
  get_elem?-last,
}
use old_so_tp.Commons.{Commons}
use old_so_tp.Commons.Lists.{total-set, length-remove_first}
use old_so_tp.Kernel.State.{Kernel, blocked_queue, queue_at}
use old_so_tp.Kernel.Queues.{
  move_process_to_new, move_process_from_execution_to_ready, block_executing,
  move_process_from_block_to_ready, pop,
}
use old_so_tp.Kernel.Balance.{Counts, Pending, Returns}
use old_so_tp.Kernel.Balance.Rules.{Ends-down_last, Ends-pop, length-push}

-- The process `r.0` is in the queue `i` of the kernel `r.1`.
pub record BlockedIn (p : Pending) (degree long short i : ℕ) (r : ℕ × Kernel) : Type 0 where
  pub counts : Counts p degree long short r.1
  pub index : ℕ
  pub member : get_elem? (queue_at r.1 (blocked_queue i)) index ≡ some r.0

module _ (lib : Commons) (p : Pending) (degree long short : ℕ) (k : Kernel)
    (c : Counts p degree long short k) where
  -- A new process waits in its queue, for which the semaphore is posted.
  pub move_process_to_new-Counts :
      (process : ℕ) → Returns (Counts p degree long short) (move_process_to_new lib k process)
  unfolding move_process_to_new
  move_process_to_new-Counts process = record {
    new_count = omega (arith, length-push lib k.queue_new process);
    ready_count = c.ready_count;
    blocked_count = c.blocked_count;
    cpu_count = c.cpu_count;
    degree_count = c.degree_count;
    instance_count = c.instance_count;
    queue_count = c.queue_count;
  }

  -- Where the counts fit the queues and a process runs, `move_process_from_execution_to_ready`
  -- never waits, uses no null pointer, and the counts fit the queues after it.
  pub move_process_from_execution_to_ready-Counts :
      0 < length k.queue_exec
      → Returns (Counts p degree long short) (move_process_from_execution_to_ready lib k)
  unfolding move_process_from_execution_to_ready pop
  move_process_from_execution_to_ready-Counts running =
      Ends-pop lib ⊥ _ k.queue_exec _ running (λ a rest q. record {
        new_count = c.new_count;
        ready_count = omega (arith, length-push lib k.queue_ready a);
        blocked_count = c.blocked_count;
        cpu_count = let l = ap length q in omega arith;
        degree_count = let l = ap length q in omega (arith, length-push lib k.queue_ready a);
        instance_count = c.instance_count;
        queue_count = c.queue_count;
      })

  -- A process blocks in the queue of a resource that exists.
  pub block_executing-Counts :
      (i : ℕ) (q : List ℕ)
      → get_elem? k.list_of_queue_blocked i ≡ some q
      → 0 < length k.queue_exec
      → Returns (BlockedIn p degree long short i) (block_executing lib k (blocked_queue i))
  unfolding block_executing pop
  block_executing-Counts i q found running = Ends-pop lib ⊥ _ k.queue_exec _ running (λ a rest e.
      let l = ap length e in
      let n =
        total-set k.list_of_queue_blocked i q (lib.queue_push (queue_at k (blocked_queue i)) a)
          found in
      let l' : length (lib.queue_push (queue_at k (blocked_queue i)) a) ≡ suc (length q) =
        rw found (length-push lib q a) in
      record {
        counts = record {
          new_count = c.new_count;
          ready_count = c.ready_count;
          blocked_count = omega arith;
          cpu_count = omega arith;
          degree_count = omega arith;
          instance_count = c.instance_count;
          queue_count = length-set k.list_of_queue_blocked i _ ∙ c.queue_count;
        };
        index = length (queue_at k (blocked_queue i));
        member =
            rw (get_elem?-set k.list_of_queue_blocked i q _ found)
              (rw lib.queue_push_lem (get_elem?-last (queue_at k (blocked_queue i)) a));
      })

  -- A process of a blocked queue becomes ready.
  pub move_process_from_block_to_ready-Counts :
      (i : ℕ) (q : List ℕ) (j process : ℕ)
      → get_elem? k.list_of_queue_blocked i ≡ some q
      → get_elem? q j ≡ some process
      → Returns
          (Counts p degree long short)
          (move_process_from_block_to_ready lib k process (blocked_queue i))
  unfolding move_process_from_block_to_ready
  move_process_from_block_to_ready-Counts i q j process found member =
      let removed = lib.list_remove_element (queue_at k (blocked_queue i)) process in
      let n = total-set k.list_of_queue_blocked i q removed found in
      let l' : length removed + 1 ≡ length q =
        rw found (rw lib.list_remove_element_lem (length-remove_first q j process member)) in
      Ends-down_last ⊥ (Counts p degree long short) k.sem_process_blocked _ (λ z. omega arith)
        (λ m e. record {
          new_count = c.new_count;
          ready_count = omega (arith, length-push lib k.queue_ready process);
          blocked_count = omega arith;
          cpu_count = c.cpu_count;
          degree_count = omega (arith, length-push lib k.queue_ready process);
          instance_count = c.instance_count;
          queue_count = length-set k.list_of_queue_blocked i _ ∙ c.queue_count;
        })
