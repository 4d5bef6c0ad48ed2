-- ===== src/Kernel/Balance/Finish.antt =====
-- `finish_process` keeps the counts, from whichever queue the process is taken.
use old_so_tp.Prelude.{
  ℕ, ◌+◌, ◌<◌, ◌≡◌, refl, ap, ◌∙◌, sym, subst, some, List, length, arith, get_elem?, length-set,
}
use old_so_tp.Prelude.CString.{CString}
use old_so_tp.Commons.{Commons}
use old_so_tp.Commons.Lists.{length-remove_first, total-set}
use old_so_tp.Shared.Operation.{finish_process}
use old_so_tp.Shared.Process.{Pcb, new, ready, execution, blocked, exit}
use old_so_tp.Kernel.State.{
  Kernel, with_state, send_pcb, to_memory, QueueRef, new_queue, ready_queue, exec_queue,
  blocked_queue, fresh_queue, queue_at, write_queue,
}
use old_so_tp.Kernel.Resources.{free_resources_retained}
use old_so_tp.Kernel.Queues.{
  check_process_in_blocked_and_send_to_ready, update_queue_semaphores, finish_begins, finish_found,
}
use old_so_tp.Kernel.Balance.{Counts, Pending, settled, Ends, Returns}
use old_so_tp.Kernel.Balance.Rules.{Ends-bind, Ends-down_last}
use old_so_tp.Kernel.Balance.Release.{SameBut, free_resources_retained-SameBut}
use old_so_tp.Kernel.Balance.Wake.{found_queue, check_process_in_blocked_and_send_to_ready-Counts}

-- The state of the processes of a queue, and what a process that left it owes.
abbrev pub state_of : QueueRef → ℕ
state_of new_queue = new
state_of ready_queue = ready
state_of exec_queue = execution
state_of (blocked_queue i) = blocked
state_of fresh_queue = new

abbrev pub owed : QueueRef → Pending
owed new_queue = record settled { of_new = 1 }
owed ready_queue = record settled { of_ready = 1 }
owed exec_queue = record settled { of_exec = 1 }
owed (blocked_queue i) = record settled { of_blocked = 1 }
owed fresh_queue = record settled { of_new = 1 }

module _ (p : Pending) (degree long short : ℕ) where
  -- The counts do not depend on the messages, the heap or the instances.
  pub repack :
      (k : Kernel) (instances : List CString) (k' : Kernel)
      → Counts p degree long short k
      → length instances ≡ length k.all_resources_instances
      → k' ≡ record k { heap = k'.heap; sent = k'.sent; all_resources_instances = instances }
      → Counts p degree long short k'
  repack k instances k' c l e = subst (Counts p degree long short) (sym e) (record {
    new_count = c.new_count;
    ready_count = c.ready_count;
    blocked_count = c.blocked_count;
    cpu_count = c.cpu_count;
    degree_count = c.degree_count;
    instance_count = l ∙ c.instance_count;
    queue_count = c.queue_count;
  })

  pub Counts-same :
      (k k' : Kernel) → Counts p degree long short k → SameBut k k' → Counts p degree long short k'
  Counts-same k k' c b = subst (Counts p degree long short) (sym b.changed) (
      repack k b.instances (record k { all_resources_instances = b.instances }) c b.same_length
        refl)

queue_at-same :
    (k : Kernel) (heap : ℕ → Pcb) (instances : List CString) (ref : QueueRef)
    → queue_at (record k { heap = heap; all_resources_instances = instances }) ref ≡ queue_at k ref
queue_at-same k heap instances new_queue = refl
queue_at-same k heap instances ready_queue = refl
queue_at-same k heap instances exec_queue = refl
queue_at-same k heap instances (blocked_queue i) = refl
queue_at-same k heap instances fresh_queue = refl

module _ (lib : Commons) (degree long short : ℕ) where
  removed-Counts :
      (k : Kernel) (ref : QueueRef) (j process : ℕ)
      → Counts settled degree long short k
      → get_elem? (queue_at k ref) j ≡ some process
      → length (lib.list_remove_element (queue_at k ref) process) + 1 ≡ length (queue_at k ref)
      → Counts
          (owed ref)
          degree
          long
          short
          (write_queue k ref (lib.list_remove_element (queue_at k ref) process))
  removed-Counts k new_queue j process c member l = record {
    new_count = omega arith;
    ready_count = c.ready_count;
    blocked_count = c.blocked_count;
    cpu_count = c.cpu_count;
    degree_count = c.degree_count;
    instance_count = c.instance_count;
    queue_count = c.queue_count;
  }
  removed-Counts k ready_queue j process c member l = record {
    new_count = c.new_count;
    ready_count = omega arith;
    blocked_count = c.blocked_count;
    cpu_count = c.cpu_count;
    degree_count = omega arith;
    instance_count = c.instance_count;
    queue_count = c.queue_count;
  }
  removed-Counts k exec_queue j process c member l = record {
    new_count = c.new_count;
    ready_count = c.ready_count;
    blocked_count = c.blocked_count;
    cpu_count = omega arith;
    degree_count = omega arith;
    instance_count = c.instance_count;
    queue_count = c.queue_count;
  }
  removed-Counts k (blocked_queue i) j process c member l =
      let removed = lib.list_remove_element (queue_at k (blocked_queue i)) process in
      let n =
        total-set k.list_of_queue_blocked i (queue_at k (blocked_queue i)) removed
          (found_queue _ (omega arith)) in
      record {
        new_count = c.new_count;
        ready_count = c.ready_count;
        blocked_count = omega arith;
        cpu_count = c.cpu_count;
        degree_count = omega arith;
        instance_count = c.instance_count;
        queue_count = length-set k.list_of_queue_blocked i removed ∙ c.queue_count;
      }
  removed-Counts k fresh_queue j process c member l = cc

  update-Counts :
      (k : Kernel) (ref : QueueRef)
      → Counts (owed ref) degree long short k
      → Ends
          (0 < short)
          (Counts settled degree long short)
          (update_queue_semaphores lib k (state_of ref))
  unfolding update_queue_semaphores
  update-Counts k new_queue c =
      Ends-down_last (0 < short) (Counts settled degree long short) k.sem_process_new _
        (λ z. omega arith)
        (λ m e. record {
          new_count = omega arith;
          ready_count = c.ready_count;
          blocked_count = c.blocked_count;
          cpu_count = c.cpu_count;
          degree_count = c.degree_count;
          instance_count = c.instance_count;
          queue_count = c.queue_count;
        })
  update-Counts k ready_queue c =
      Ends-down_last (0 < short) (Counts settled degree long short) k.sem_process_ready _
        (λ z. omega arith)
        (λ m e. record {
          new_count = c.new_count;
          ready_count = omega arith;
          blocked_count = c.blocked_count;
          cpu_count = c.cpu_count;
          degree_count = omega arith;
          instance_count = c.instance_count;
          queue_count = c.queue_count;
        })
  update-Counts k exec_queue c = record {
    new_count = c.new_count;
    ready_count = c.ready_count;
    blocked_count = c.blocked_count;
    cpu_count = omega arith;
    degree_count = omega arith;
    instance_count = c.instance_count;
    queue_count = c.queue_count;
  }
  update-Counts k (blocked_queue i) c =
      Ends-down_last (0 < short) (Counts settled degree long short) k.sem_process_blocked _
        (λ z. omega arith)
        (λ m e. record {
          new_count = c.new_count;
          ready_count = c.ready_count;
          blocked_count = omega arith;
          cpu_count = c.cpu_count;
          degree_count = omega arith;
          instance_count = c.instance_count;
          queue_count = c.queue_count;
        })
  update-Counts k fresh_queue c =
      Ends-down_last (0 < short) (Counts settled degree long short) k.sem_process_new _
        (λ z. omega arith)
        (λ m e. record {
          new_count = omega arith;
          ready_count = c.ready_count;
          blocked_count = c.blocked_count;
          cpu_count = c.cpu_count;
          degree_count = c.degree_count;
          instance_count = c.instance_count;
          queue_count = c.queue_count;
        })

  finish_begins-Counts :
      (k : Kernel) (ref : QueueRef) (j process : ℕ)
      → Counts settled degree long short k
      → get_elem? (queue_at k ref) j ≡ some process
      → Returns (Counts (owed ref) degree long short) (finish_begins lib k ref process)
  unfolding finish_begins
  finish_begins-Counts k ref j process c member =
      let Q = Counts (owed ref) degree long short in
      let k0 = record k { heap = with_state k.heap process exit } in
      let c0 : Counts settled degree long short k0 =
        repack settled degree long short k k.all_resources_instances k0 c refl refl in
      Ends-bind ⊥ (SameBut k0) Q (free_resources_retained lib k0 process) _
        (free_resources_retained-SameBut lib k0 process c.instance_count)
        (λ k1 b.
          let same : queue_at k1 ref ≡ queue_at k ref =
            ap (λ j. queue_at j ref) b.changed ∙ queue_at-same k k0.heap b.instances ref in
          let member1 : get_elem? (queue_at k1 ref) j ≡ some process =
            ap (λ q. get_elem? q j) same ∙ member in
          let l : length (lib.list_remove_element (queue_at k1 ref) process) + 1
              ≡ length (queue_at k1 ref) =
            ap (λ q. length q + 1) (lib.list_remove_element_lem (queue_at k1 ref) process)
            ∙ length-remove_first (queue_at k1 ref) j process member1 in
          let k2 = write_queue k1 ref (lib.list_remove_element (queue_at k1 ref) process) in
          Ends-bind ⊥ Q Q (check_process_in_blocked_and_send_to_ready lib k2) _
            (check_process_in_blocked_and_send_to_ready-Counts lib (owed ref) degree long short k2 (
              removed-Counts k1 ref j process (Counts-same settled degree long short k0 k1 c0 b)
                member1 l))
            (λ k3 c3.
              repack (owed ref) degree long short k3 k3.all_resources_instances
                (send_pcb k3 to_memory finish_process process) c3 refl refl))

  -- Where the counts of the semaphores fit the queues, and the process is in a queue and in the
  -- state of that queue, the part of `finish_process` after its search never uses a null pointer,
  -- waits only when the short term planner holds the token of a ready process, and otherwise the
  -- counts fit the queues after it.
  pub finish_found-Counts :
      (k : Kernel) (ref : QueueRef) (j process : ℕ)
      → Counts settled degree long short k
      → get_elem? (queue_at k ref) j ≡ some process
      → (k.heap process).state ≡ state_of ref
      → Ends (0 < short) (Counts settled degree long short) (finish_found lib k ref process)
  unfolding finish_found
  finish_found-Counts k ref j process c member state =
      let Q = Counts settled degree long short in
      Ends-bind (0 < short) (Counts (owed ref) degree long short) Q
        (finish_begins lib k ref process) _ (finish_begins-Counts k ref j process c member)
        (λ k' c'.
          subst (λ st. Ends (0 < short) Q (update_queue_semaphores lib k' st)) (sym state)
            (update-Counts k' ref c'))
