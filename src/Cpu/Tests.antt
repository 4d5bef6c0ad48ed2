-- ===== src/Cpu/Tests.antt =====
-- A process of two statements.
use old_so_tp.Prelude.{
  ℕ, ◌+◌, ◌<◌, ◌≡◌, refl, some, true, false, List, [], ◌∷◌, arith, if◌then◌else◌,
}
use old_so_tp.Prelude.Int.{pos}
use old_so_tp.Prelude.CString.{CString, codes, str_eq}
use old_so_tp.Commons.Reference.{reference}
use old_so_tp.Shared.Process.{Pcb}
use old_so_tp.Cpu.Execution.{Word, execute_instruction_cycle}
use old_so_tp.Cpu.Statements.{ax, bx, Statement, add_to, acquires, words_of, placed}
use old_so_tp.Cpu.Statements.Execute.{execute_instruction_cycle-meaning}
use old_so_tp.Cpu.Rounds.{Round, process_loop}
use old_so_tp.Cpu.Rounds.Reports.{Line, Outcome, ending, undisturbed, process_loop-Outcome}
use old_so_tp.Cpu.Mmu.{mmu, mmu-offset}

mmu-offset_example : (mmu (pos 70) 32 ≡ some (pos 6)) × (6 < 32)
mmu-offset_example = mmu-offset 70 32 (omega arith) (omega arith)

abbrev running : Pcb
running = record {
  pid = pos 3;
  program_counter = pos 0;
  quantum = pos 0;
  size = pos 0;
  cpu_register = 7 ∷ 4294967295 ∷ 0 ∷ 0 ∷ [];
  resources = [];
  table_pages = pos 0;
  path = [];
  state = 2;
  client_socket = pos 9;
}

abbrev sum : Statement
sum = add_to ax bx

abbrev request : Statement
request = acquires (codes "RED")

abbrev addresses : ℕ → ℕ
addresses i = 1000 + i

abbrev split : CString → List Word
split text =
    if str_eq text (codes "WAIT RED")
    then placed addresses 0 (words_of request)
    else placed addresses 0 (words_of sum)

execute_instruction_cycle-meaning_example :
    execute_instruction_cycle reference split running (codes "SUM AX BX")
    ≡ some (record {
      goes_on = true;
      pcb = record running { cpu_register = 6 ∷ 4294967295 ∷ 0 ∷ 0 ∷ [] };
      sent = [];
    })
unfolding str_eq
execute_instruction_cycle-meaning_example =
    execute_instruction_cycle-meaning reference split addresses sum running (codes "SUM AX BX") refl
      tt (omega arith)

abbrev rounds : List Round
rounds =
    record { instruction = codes "SUM AX BX"; interrupt_arrives = false }
    ∷ record { instruction = codes "WAIT RED"; interrupt_arrives = true }
    ∷ []

abbrev lines : List Line
lines =
    record { statement = sum; interrupt_arrives = false }
    ∷ record { statement = request; interrupt_arrives = true }
    ∷ []

process_loop-Outcome_example :
    Outcome 0 []
      (ending lines running)
      (process_loop reference split rounds (undisturbed 0 []) running)
unfolding str_eq
process_loop-Outcome_example =
    process_loop-Outcome reference split rounds lines 0 [] running
      (
        (addresses, refl),
        tt,
        refl,
        (
          (addresses, refl),
          record { not_ax = refl; not_bx = refl; not_cx = refl; not_dx = refl },
          refl,
          tt,
        ),
      )
      (omega arith)
