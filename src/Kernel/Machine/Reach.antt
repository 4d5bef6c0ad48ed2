-- ===== src/Kernel/Machine/Reach.antt =====
-- What holds of the kernel at work (kernel/src/kernel.c, planners.c, handle_connection.c), in
-- whatever order its threads take their whole turns.
use old_so_tp.Prelude.{ℕ, ◌≤◌, ◌≡◌, refl, subst, List, length}
use old_so_tp.Prelude.Int.{pos}
use old_so_tp.Prelude.CString.{CString}
use old_so_tp.Commons.{Commons}
use old_so_tp.Shared.Process.{Pcb}
use old_so_tp.Kernel.State.{Kernel, Run, done, waits, crash}
use old_so_tp.Kernel.Start.{start_kernel}
use old_so_tp.Kernel.Balance.{Ends}
use old_so_tp.Kernel.Balance.Initial.{Sound, start_kernel-Sound}
use old_so_tp.Kernel.Planners.{Algorithm}
use old_so_tp.Kernel.Machine.{
  Machine, Event, turn, MayCome, degree_after, at_start, Reachable, started, next,
}
use old_so_tp.Kernel.Machine.Safe.{Safe, MayBlock, turn-Safe}

module _ (lib : Commons) (heap : ℕ → Pcb) (degree : ℕ) (resources instances : List CString)
    (algorithm : Algorithm) (enough : length resources ≤ length instances) where
  start-Safe :
      (start : Kernel)
      → start_kernel lib heap (pos degree) resources instances ≡ done start
      → Safe degree (at_start algorithm start)
  start-Safe start e =
      let sound : Sound lib degree 0 0 start =
        subst (Ends ⊥ (Sound lib degree 0 0)) e
          (start_kernel-Sound lib heap degree resources instances enough) in
      record { counts = sound.counts; placed = sound.placed }

  pub Reachable-Safe :
      (start : Kernel)
      → start_kernel lib heap (pos degree) resources instances ≡ done start
      → (d : ℕ) (m : Machine) → Reachable lib algorithm start degree d m
      → Safe d m
  Reachable-Safe start e _ _ started = start-Safe start e
  Reachable-Safe start e _ _ (next d m0 m event before come turned) =
      subst (Ends (MayBlock m0 event) (Safe (degree_after m0 event d))) turned
        (turn-Safe lib d m0 (Reachable-Safe start e d m0 before) event come)

  turned :
      (start : Kernel) (d : ℕ) (m : Machine) (event : Event) (o : Run Machine)
      → turn lib m event ≡ o
      → Reachable lib algorithm start degree d m
      → MayCome lib m event
      → Ends (MayBlock m event) (Safe (degree_after m event d)) o
      → Ends (MayBlock m event) (Reachable lib algorithm start degree (degree_after m event d)) o
  turned start d m event (done m') e reached come safe = next d m m' event reached come e
  turned start d m event waits e reached come safe = safe
  turned start d m event crash e reached come safe = safe

  -- With at least as many counts of instances as resources in the configuration, a degree of
  -- multiprogramming that is not negative, and FIFO or round robin, in every state that the kernel
  -- reaches from its start by turns of its threads in any order, where each message is handled
  -- without another thread in between and comes only when its handler does not wait before its
  -- end, but for a stop of the planning, which is cut at its two waits, and a report of the CPU
  -- comes only while a process runs and is none of a sleep, each further turn that so comes uses
  -- no null pointer and no unset value, waits only at a semaphore of a planner, or of a stop of
  -- the planning, whose count is 0, and otherwise leads to a state that the kernel so reaches.
  pub turn-Reachable :
      (start : Kernel)
      → start_kernel lib heap (pos degree) resources instances ≡ done start
      → (d : ℕ) (m : Machine) (event : Event) → Reachable lib algorithm start degree d m
      → MayCome lib m event
      → Ends
          (MayBlock m event)
          (Reachable lib algorithm start degree (degree_after m event d))
          (turn lib m event)
  turn-Reachable start e d m event reached come =
      turned start d m event (turn lib m event) refl reached come
        (turn-Safe lib d m (Reachable-Safe start e d m reached) event come)
