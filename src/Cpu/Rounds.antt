-- ===== src/Cpu/Rounds.antt =====
-- cpu/src/handle_connection.c: the execution of a process, and the messages of the kernel.
pub mod Reports
use old_so_tp.Prelude.{
  ℕ, suc, zero, ◌+◌, Bool, true, false, not, ◌||◌, List, [], ◌∷◌, ◌++◌, if◌then◌else◌,
}
use old_so_tp.Prelude.Int.{pos, ◌+ℤ◌, wrap_int}
use old_so_tp.Prelude.CString.{CString}
use old_so_tp.Prelude.Run.{Run, done, waits, ◌>>=◌, not_null}
use old_so_tp.Commons.{Commons}
use old_so_tp.Shared.Process.{Pcb}
use old_so_tp.Kernel.Connection.{CpuReport, interrupted}
use old_so_tp.Cpu.Execution.{Word, Cycle, execute_instruction_cycle}

-- The globals, and what was sent to the kernel.
pub record Cpu : Type 0 where
  pub has_interrupt : Bool
  pub mutex_interrupt : ℕ
  pub sent : List CpuReport

-- What the memory answers to one request for an instruction, and whether the thread of the
-- interrupt connection has set `has_interrupt` before it is tested.
pub record Round : Type 0 where
  pub instruction : CString
  pub interrupt_arrives : Bool

-- What the kernel sends.
pub data KernelMessage : Type 0 where
  execute_process wait_response signal_response : Pcb → KernelMessage
  interrupt interrupt_quantum lost : KernelMessage

-- `process->program_counter += 1`.
abbrev pub advance : Pcb → Pcb
advance pcb = record pcb { program_counter = wrap_int (pcb.program_counter +ℤ pos 1) }

unfoldable pub wait_mutex : Cpu → Run Cpu
wait_mutex cpu = elim cpu.mutex_interrupt [
  | zero ↦ waits
  | suc n ↦ done (record cpu { mutex_interrupt = n })
]

abbrev pub post_mutex : Cpu → Cpu
post_mutex cpu = record cpu { mutex_interrupt = suc cpu.mutex_interrupt }

module _ (lib : Commons) (string_split : CString → List Word) where
  -- The loop over the instructions, with the control block that was received. It waits for the
  -- memory when there is no answer. The rounds that are left are returned.
  unfoldable pub process_loop : List Round → Cpu → Pcb → Run (Cpu × List Round)
  process_loop [] cpu process = waits
  process_loop (r ∷ rounds) cpu process = do
    c ← not_null (execute_instruction_cycle lib string_split process r.instruction)
    let process' = advance c.pcb
    cpu1 ← wait_mutex (record cpu {
      has_interrupt = cpu.has_interrupt || r.interrupt_arrives;
      sent = cpu.sent ++ c.sent;
    })
    let rest = process_loop rounds (post_mutex cpu1) process'
    -- `continue` leaves the loop with the mutex taken.
    let stopped = (do
      cpu2 ← wait_mutex (record (post_mutex cpu1) { has_interrupt = false })
      done (cpu2, rounds))
    let cut = done (
      post_mutex
          (record cpu1 { has_interrupt = false; sent = cpu1.sent ++ interrupted process' ∷ [] }),
      rounds,
    )
    (if cpu1.has_interrupt
        then (if c.goes_on then cut else stopped)
        else (if c.goes_on then rest else done (post_mutex cpu1, rounds)))

  abbrev set_interrupt : Cpu → List Round → Run (Cpu × List Round)
  set_interrupt cpu rounds = do
    cpu1 ← wait_mutex cpu
    done (post_mutex (record cpu1 { has_interrupt = true }), rounds)

  -- One round of `handle_kernel_connection`.
  unfoldable pub handle_kernel_connection :
      List Round → Cpu → KernelMessage → Run (Cpu × List Round)
  unfolding process_loop
  handle_kernel_connection rounds cpu (execute_process process) = process_loop rounds cpu process
  handle_kernel_connection rounds cpu (wait_response process) = process_loop rounds cpu process
  handle_kernel_connection rounds cpu (signal_response process) = process_loop rounds cpu process
  handle_kernel_connection rounds cpu interrupt = set_interrupt cpu rounds
  handle_kernel_connection rounds cpu interrupt_quantum = set_interrupt cpu rounds
  handle_kernel_connection rounds cpu lost = done (cpu, rounds)
