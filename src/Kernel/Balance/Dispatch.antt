-- ===== src/Kernel/Balance/Dispatch.antt =====
-- `handle_dispatch_connection`: what the CPU reports, and the sleep of a process.
use old_so_tp.Prelude.{
  ℕ, suc, ◌<◌, ◌≡◌, ap, none, some, List, [], ◌∷◌, length, arith, All, false, ◌==◌,
}
use old_so_tp.Prelude.Int.{ℤ}
use old_so_tp.Commons.{Commons}
use old_so_tp.Shared.Process.{Pcb}
use old_so_tp.Kernel.State.{Kernel, allocate}
use old_so_tp.Kernel.Connection.{
  CpuReport, finishes, blocks, interrupted, wait_for, signal, sleep, lost, handle_dispatch,
  interrupted_process, sleep_begins, sleep_ends,
}
use old_so_tp.Kernel.Balance.{Counts, settled, Ends}
use old_so_tp.Kernel.Balance.Rules.{length-push}
use old_so_tp.Kernel.Balance.Search.{Has, InState, finish_process_by_id-Counts}
use old_so_tp.Kernel.Balance.Signal.{
  handle_signal_interruption-Counts, handle_wait_interruption-Counts_any,
}

abbrev pub Below : ℕ → List ℕ → Type 0
Below n q = All (λ a. a < n) q

-- The processes of the queues are at addresses that are allocated.
pub record Allocated (k : Kernel) : Type 0 where
  pub new_below : Below k.next_address k.queue_new
  pub ready_below : Below k.next_address k.queue_ready
  pub exec_below : Below k.next_address k.queue_exec
  pub blocked_below : All (Below k.next_address) k.list_of_queue_blocked

-- Every report but that of a sleep.
abbrev pub IsAwake : CpuReport → Type 0
IsAwake (sleep pcb time) = ⊥
IsAwake (finishes pcb) = Unit {0}
IsAwake (blocks pcb) = Unit {0}
IsAwake (interrupted pcb) = Unit {0}
IsAwake (wait_for pcb resource) = Unit {0}
IsAwake (signal pcb resource) = Unit {0}
IsAwake lost = Unit {0}

other_address : (n a : ℕ) → a < n → (a == n) ≡ false
other_address n a h = ground arith

Has-allocate :
    (k : Kernel) (pcb : Pcb) (state : ℕ) (q : List ℕ)
    → All (Has k state) q
    → Below k.next_address q
    → All (Has (allocate k pcb) state) q
Has-allocate k pcb state [] h b = tt
Has-allocate k pcb state (a ∷ q) h b =
    (rw (other_address k.next_address a b.0) h.0, Has-allocate k pcb state q h.1 b.1)

Has-allocate-All :
    (k : Kernel) (pcb : Pcb) (state : ℕ) (qs : List (List ℕ))
    → All (All (Has k state)) qs
    → All (Below k.next_address) qs
    → All (All (Has (allocate k pcb) state)) qs
Has-allocate-All k pcb state [] h b = tt
Has-allocate-All k pcb state (q ∷ qs) h b =
    (Has-allocate k pcb state q h.0 b.0, Has-allocate-All k pcb state qs h.1 b.1)

InState-allocate : (k : Kernel) (pcb : Pcb) → InState k → Allocated k → InState (allocate k pcb)
InState-allocate k pcb s b = record {
  all_new = Has-allocate k pcb _ k.queue_new s.all_new b.new_below;
  all_ready = Has-allocate k pcb _ k.queue_ready s.all_ready b.ready_below;
  all_exec = Has-allocate k pcb _ k.queue_exec s.all_exec b.exec_below;
  all_blocked = Has-allocate-All k pcb _ k.list_of_queue_blocked s.all_blocked b.blocked_below;
}

module _ (lib : Commons) where
  -- What is left of the execution queue.
  abbrev rest_of : List ℕ → List ℕ
  rest_of q = elim (lib.queue_pop q) as (λ x. List ℕ) [ none ↦ [] | some (a, rest) ↦ rest ]

  length-rest_of : (q : List ℕ) → 0 < length q → suc (length (rest_of q)) ≡ length q
  length-rest_of [] h = absurd (omega arith)
  length-rest_of (a ∷ q) h =
      ap (λ o. suc (length (elim o as (λ x. List ℕ) [ none ↦ [] | some (b, rest) ↦ rest ])))
        (lib.queue_pop_lem (a ∷ q))

module _ (lib : Commons) (degree long short : ℕ) where
  pub allocate-Counts :
      (k : Kernel) (pcb : Pcb)
      → Counts settled degree long short k
      → Counts settled degree long short (allocate k pcb)
  allocate-Counts k pcb c = record {
    new_count = c.new_count;
    ready_count = c.ready_count;
    blocked_count = c.blocked_count;
    cpu_count = c.cpu_count;
    degree_count = c.degree_count;
    instance_count = c.instance_count;
    queue_count = c.queue_count;
  }

  interrupted_process-Counts :
      (k : Kernel) (pcb : ℕ)
      → Counts settled degree long short k
      → 0 < length k.queue_exec
      → Counts settled degree long short (interrupted_process lib k pcb)
  unfolding interrupted_process
  interrupted_process-Counts k pcb c running =
      let left = length-rest_of lib k.queue_exec running in
      let more = length-push lib k.queue_ready pcb in
      let cpu = c.cpu_count in
      let ready = c.ready_count in
      let all = c.degree_count in
      record {
        new_count = c.new_count;
        ready_count = omega arith;
        blocked_count = c.blocked_count;
        cpu_count = omega arith;
        degree_count = omega arith;
        instance_count = c.instance_count;
        queue_count = c.queue_count;
      }

  -- Where the counts of the semaphores fit the queues, the processes of the queues are at
  -- allocated addresses and in the state of their queue, and a process runs, any report of the CPU
  -- but that of a sleep, whatever control block and resource it carries, makes
  -- `handle_dispatch_connection` use no null pointer and no unset value; it waits only when the
  -- short term planner holds the token of a ready process, and otherwise the counts fit the queues
  -- after it.
  pub handle_dispatch-Counts :
      (k : Kernel) (report : CpuReport)
      → Counts settled degree long short k
      → InState k
      → Allocated k
      → 0 < length k.queue_exec
      → IsAwake report
      → Ends (0 < short) (Counts settled degree long short) (handle_dispatch lib k report)
  unfolding handle_dispatch
  handle_dispatch-Counts k (finishes pcb) c s b running awake =
      finish_process_by_id-Counts lib degree long short (allocate k pcb) pcb.pid
        (allocate-Counts k pcb c) (InState-allocate k pcb s b)
  handle_dispatch-Counts k (blocks pcb) c s b running awake = allocate-Counts k pcb c
  handle_dispatch-Counts k (interrupted pcb) c s b running awake =
      interrupted_process-Counts (allocate k pcb) k.next_address (allocate-Counts k pcb c) running
  handle_dispatch-Counts k (wait_for pcb resource) c s b running awake =
      handle_wait_interruption-Counts_any lib degree long short (allocate k pcb) k.next_address
        resource (allocate-Counts k pcb c) (InState-allocate k pcb s b) running
  handle_dispatch-Counts k (signal pcb resource) c s b running awake =
      handle_signal_interruption-Counts lib degree long short (allocate k pcb) k.next_address
        resource (allocate-Counts k pcb c) (InState-allocate k pcb s b)
  handle_dispatch-Counts k (sleep pcb time) c s b running awake = absurd awake
  handle_dispatch-Counts k lost c s b running awake = c

  sleep_begins-Counts :
      (k : Kernel) (pcb : Pcb) (time : ℤ)
      → Counts settled (suc degree) long short k
      → 0 < length k.queue_exec
      → Ends ⊥
          (λ k'. Counts settled degree long short (sleep_begins lib k'))
          (handle_dispatch lib k (sleep pcb time))
  unfolding handle_dispatch sleep_begins
  sleep_begins-Counts k pcb time c running =
      let left = length-rest_of lib k.queue_exec running in
      let cpu = c.cpu_count in
      let all = c.degree_count in
      record {
        new_count = c.new_count;
        ready_count = c.ready_count;
        blocked_count = c.blocked_count;
        cpu_count = omega arith;
        degree_count = omega arith;
        instance_count = c.instance_count;
        queue_count = c.queue_count;
      }

  sleep_ends-Counts :
      (k : Kernel) (process : ℕ)
      → Counts settled degree long short k
      → Counts settled (suc degree) long short (sleep_ends lib k process)
  unfolding sleep_ends
  sleep_ends-Counts k process c =
      let more = length-push lib k.queue_ready process in
      let ready = c.ready_count in
      let all = c.degree_count in
      record {
        new_count = c.new_count;
        ready_count = omega arith;
        blocked_count = c.blocked_count;
        cpu_count = c.cpu_count;
        degree_count = omega arith;
        instance_count = c.instance_count;
        queue_count = c.queue_count;
      }
