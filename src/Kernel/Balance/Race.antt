-- ===== src/Kernel/Balance/Race.antt =====
-- The end of a ready process while the short term planner has taken the token of it
-- (kernel/src/queues.c, `finish_process`).
use old_so_tp.Prelude.{
  ℕ, zero, suc, ◌≤◌, ◌≡◌, refl, ap, ◌∙◌, none, List, [], ◌∷◌, length, arith, ltb, false, get_elem?,
}
use old_so_tp.Commons.{Commons, remove_first}
use old_so_tp.Commons.Lists.{total}
use old_so_tp.Shared.Operation.{finish_process}
use old_so_tp.Shared.Process.{ready, exit}
use old_so_tp.Kernel.State.{
  Kernel, Run, done, waits, crash, ◌>>=◌, with_state, send_pcb, to_memory, ready_queue,
  blocked_queue, queue_at, or_empty, write_queue,
}
use old_so_tp.Kernel.Resources.{free_resources_retained}
use old_so_tp.Kernel.Queues.{
  check_loop, check_process_in_blocked_and_send_to_ready, update_queue_semaphores, finish_begins,
  finish_found, move_process_to_exec, pop,
}
use old_so_tp.Kernel.Planners.{LongAt, Algorithm, at_cpu, short_term_step, dispatch}
use old_so_tp.Kernel.Balance.{Counts, settled, Returns}
use old_so_tp.Kernel.Balance.Rules.{Ends-bind}
use old_so_tp.Kernel.Balance.Release.{SameBut, free_resources_retained-SameBut}

length-or_empty : (qs : List (List ℕ)) (i : ℕ) → length (or_empty (get_elem? qs i)) ≤ total qs
length-or_empty [] i = omega arith
length-or_empty (q ∷ qs) zero = omega arith
length-or_empty (q ∷ qs) (suc i) = let rest = length-or_empty qs i in omega arith

waits-bind :
    {A B : Type 0} (P : A → Type 0) (m : Run A) (f : A → Run B)
    → Returns P m
    → ((a : A) → P a → f a ≡ waits)
    → (m >>= f) ≡ waits
waits-bind P (done a) f r h = h a r
waits-bind P waits f r h = absurd r
waits-bind P crash f r h = absurd r

remove_first-only : (a : ℕ) → remove_first (a ∷ []) a ≡ []
remove_first-only a = ground arith

module _ (lib : Commons) where
  -- No process is blocked.
  check_loop-none :
      (left : ℕ) (k : Kernel) (i : ℕ)
      → total k.list_of_queue_blocked ≡ 0
      → check_loop lib left k i ≡ done k
  unfolding check_loop
  check_loop-none zero k i none_blocked = refl
  check_loop-none (suc left) k i none_blocked =
      let bound = length-or_empty k.list_of_queue_blocked i in
      let size = lib.list_size_lem (queue_at k (blocked_queue i)) in
      let none_waits : ltb 0 (lib.list_size (queue_at k (blocked_queue i))) ≡ false =
        ground arith in
      rw none_waits (check_loop-none left k (suc i) none_blocked)

  -- No process is ready, the end of a process waits for the token of one, and the short term
  -- planner, which has that token and waits for the CPU, takes a process from the empty queue.
  pub record Overtaken (long : LongAt) (algorithm : Algorithm) (k : Kernel) : Type 0 where
    pub none_ready : k.queue_ready ≡ []
    pub blocks : update_queue_semaphores lib k ready ≡ waits
    pub fails :
        (available : ℕ)
        → short_term_step lib (record {
          kernel = record k { sem_cpu_available = suc available };
          long = long;
          short = at_cpu;
          algorithm = algorithm;
        })
          ≡ crash

  Overtaken-empty :
      (long : LongAt) (algorithm : Algorithm) (k : Kernel)
      → k.queue_ready ≡ []
      → k.sem_process_ready ≡ 0
      → Overtaken long algorithm k
  unfolding update_queue_semaphores short_term_step dispatch move_process_to_exec pop
  Overtaken-empty long algorithm k none_ready no_token = record {
    none_ready = none_ready;
    blocks = rw no_token refl;
    fails = λ available.
        let empty : lib.queue_pop k.queue_ready ≡ none =
          ap lib.queue_pop none_ready ∙ lib.queue_pop_lem [] in
        rw empty refl;
  }

  finish_begins-Overtaken :
      (degree token : ℕ) (k : Kernel) (process : ℕ) (long : LongAt) (algorithm : Algorithm)
      → Counts settled degree token 1 k
      → k.queue_ready ≡ process ∷ []
      → total k.list_of_queue_blocked ≡ 0
      → Returns (Overtaken long algorithm) (finish_begins lib k ready_queue process)
  unfolding finish_begins check_process_in_blocked_and_send_to_ready
  finish_begins-Overtaken degree token k process long algorithm c one_ready none_blocked =
      let k0 = record k { heap = with_state k.heap process exit } in
      let one = ap length one_ready in
      let ready_count = c.ready_count in
      Ends-bind ⊥ (SameBut k0) (Overtaken long algorithm) (free_resources_retained lib k0 process) _
        (free_resources_retained-SameBut lib k0 process c.instance_count)
        (λ k1 b.
          let one_ready1 : k1.queue_ready ≡ process ∷ [] =
            ap (λ j. j.queue_ready) b.changed ∙ one_ready in
          let none_blocked1 : total k1.list_of_queue_blocked ≡ 0 =
            ap (λ j. total j.list_of_queue_blocked) b.changed ∙ none_blocked in
          let same_token = ap (λ j. j.sem_process_ready) b.changed in
          let k2 = write_queue k1 ready_queue (lib.list_remove_element k1.queue_ready process) in
          let removed : k2.queue_ready ≡ [] =
            lib.list_remove_element_lem k1.queue_ready process
            ∙ ap (λ q. remove_first q process) one_ready1
            ∙ remove_first-only process in
          rw (check_loop-none (lib.list_size k2.list_of_queue_blocked) k2 0 none_blocked1) (
            Overtaken-empty long algorithm (send_pcb k2 to_memory finish_process process) removed
              (omega arith)))

  -- Where the counts fit the queues, one process is ready and none is blocked, and the short term
  -- planner has the token of that process and waits for the CPU, `finish_process` of it returns up
  -- to its wait for the token and then waits, while no process is ready; when the CPU becomes
  -- available, the planner uses the null pointer of the empty queue, with FIFO or round robin.
  pub finish_found-Overtaken :
      (degree token : ℕ) (k : Kernel) (process : ℕ) (long : LongAt) (algorithm : Algorithm)
      → Counts settled degree token 1 k
      → k.queue_ready ≡ process ∷ []
      → total k.list_of_queue_blocked ≡ 0
      → (k.heap process).state ≡ ready
      → Returns (Overtaken long algorithm) (finish_begins lib k ready_queue process)
        × (finish_found lib k ready_queue process ≡ waits)
  unfolding finish_found
  finish_found-Overtaken degree token k process long algorithm c one_ready none_blocked state =
      let begins =
        finish_begins-Overtaken degree token k process long algorithm c one_ready none_blocked in
      (
        begins,
        waits-bind (Overtaken long algorithm) (finish_begins lib k ready_queue process) _ begins
            (λ k' o. rw state o.blocks),
      )
