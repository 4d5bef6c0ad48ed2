-- ===== src/Memory/Program/Tests.antt =====
-- A program of two lines.
use old_so_tp.Prelude.{◌≡◌, refl, none, some, [], ◌∷◌, ◌++◌}
use old_so_tp.Prelude.Int.{pos}
use old_so_tp.Prelude.CString.{CString, codes}
use old_so_tp.Shared.Process.{Pcb, execution}
use old_so_tp.Shared.Process.Samples.{socket}
use old_so_tp.Memory.Program.{handle_instruction}
use old_so_tp.Memory.Program.Overflow.{handle_instruction-outcome}

abbrev program : CString
program = codes "NOOP 1" ++ 10 ∷ codes "EXIT" ++ 10 ∷ []

abbrev process : Pcb
process = record {
  pid = pos 3;
  program_counter = pos 1;
  quantum = pos 0;
  size = pos 64;
  cpu_register = [];
  resources = [];
  table_pages = pos 0;
  path = codes "p";
  state = execution;
  client_socket = pos 9;
}

handle_instruction-outcome_example :
    handle_instruction (λ a b. a ++ b) (λ path. some program) (codes "d") socket process ≡ none
handle_instruction-outcome_example =
    handle_instruction-outcome (λ a b. a ++ b) (λ path. some program) (codes "d") socket process
      program refl
