-- ===== src/Console.antt =====
-- console/src/console.c: the menu, the commands and the scripts.
pub mod Menu
mod Tests
use old_so_tp.Prelude.{
  ℕ, zero, suc, ◌+◌, Bool, true, false, Option, none, some, List, [], ◌∷◌, ◌++◌, ◌==◌, get_elem?,
  length, if◌then◌else◌,
}
use old_so_tp.Prelude.Int.{ℤ, pos, eq_int, to_word}
use old_so_tp.Prelude.CString.{CString, codes, str_eq}
use old_so_tp.Prelude.Decimal.{atoi}
use old_so_tp.Prelude.Run.{Run, done, waits, crash, ◌>>=◌, not_null}
use old_so_tp.Shared.Process.{Process}
use old_so_tp.Kernel.Connection.{
  ConsoleRequest, create_process, finish_process, stop_planning, start_planning, show_all_processes,
}

-- `t_command`, in the order of the source.
pub data Command : Type 0 where
  iniciar_proceso finalizar_proceso detener_planificacion iniciar_planificacion : Command
  execute_script_command proceso_estado salir error : Command

unfoldable pub translate_command : CString → Command
translate_command command =
    if str_eq command (codes "INICIAR_PROCESO")
    then iniciar_proceso
    else if str_eq command (codes "FINALIZAR_PROCESO")
    then finalizar_proceso
    else if str_eq command (codes "DETENER_PLANIFICACION")
    then detener_planificacion
    else if str_eq command (codes "INICIAR_PLANIFICACION")
    then iniciar_planificacion
    else if str_eq command (codes "EXECUTE_SCRIPT")
    then execute_script_command
    else if str_eq command (codes "PROCESO_ESTADO")
    then proceso_estado
    else if str_eq command (codes "SALIR")
    then salir
    else error

-- What was sent to the kernel, and whether `close_program` has ended the program.
pub record Console : Type 0 where
  pub sent : List ConsoleRequest
  pub closed : Bool

abbrev pub request : Console → ConsoleRequest → Console
request c r = record c { sent = c.sent ++ r ∷ [] }

-- The path is freed and not used again.
unfoldable pub start_process : Console → List CString → Run Console
start_process c arguments = do
  path ← not_null (get_elem? arguments 1)
  done (request c (create_process (record { path = path })))

-- `send_process_id` on the number of a text.
abbrev pub finish : Console → CString → Console
finish c id = request c (finish_process (to_word (atoi id)))

-- EXECUTE_SCRIPT is a wrong choice here, as an unknown command is.
unfoldable pub run_command : Console → List CString → Command → Run Console
run_command c arguments iniciar_proceso = start_process c arguments
run_command c arguments finalizar_proceso = do
  id ← not_null (get_elem? arguments 1)
  done (finish c id)
run_command c arguments detener_planificacion = done (request c stop_planning)
run_command c arguments iniciar_planificacion = done (request c start_planning)
run_command c arguments proceso_estado = done (request c show_all_processes)
run_command c arguments salir = done (record c { closed = true })
run_command c arguments execute_script_command = done c
run_command c arguments error = done c

unfoldable pub start_console : Console → List CString → Run Console
start_console c arguments = do
  command ← not_null (get_elem? arguments 0)
  run_command c arguments (translate_command command)

-- The next line that is typed; without one the program waits.
abbrev pub readline : List CString → Run (CString × List CString)
readline [] = waits
readline (line ∷ lines) = done (line, lines)

-- `string_split` and `string_trim` of the library, and the lines of a file as `fgets` gives them,
-- are arguments. A file that is not there is `none`.
module _ (string_split : CString → List CString) (string_trim : CString → CString)
    (file_lines : CString → Option (List CString)) where
  unfoldable pub file_loop : List CString → Console → Run Console
  file_loop [] c = done c
  file_loop (line ∷ lines) c = do
    c' ← start_console c (string_split line)
    let rest = file_loop lines c'
    (if c'.closed then done c' else rest)

  unfoldable pub read_file : Console → CString → Run Console
  unfolding file_loop
  read_file c file_path = elim (file_lines file_path) [
    | none ↦ done c
    | some lines ↦ file_loop lines c
  ]

  unfoldable pub enter_command : List CString → Run (List CString × List CString)
  enter_command lines = do
    (line, rest) ← readline lines
    done (string_split (string_trim line), rest)

  -- The commands that are typed until the program is closed. Each takes a line, so there are no more
  -- rounds than lines.
  unfoldable pub manual_loop : ℕ → List CString → Console → Run Console
  unfolding enter_command
  manual_loop zero lines c = waits
  manual_loop (suc fuel) lines c = do
    (arguments, left) ← enter_command lines
    c' ← start_console c arguments
    let rest = manual_loop fuel left c'
    (if c'.closed then done c' else rest)

  unfoldable pub start_manual_console : List CString → Console → Run Console
  unfolding manual_loop
  start_manual_console lines c = manual_loop (length lines) lines c

  unfoldable pub start_process_by_interactive_console :
      List CString → Console → Run (Console × List CString)
  start_process_by_interactive_console lines c = do
    (path, rest) ← readline lines
    c' ← start_process c (codes "INICIAR_PROCESO" ∷ path ∷ [])
    done (c', rest)

  unfoldable pub finish_process_by_interactive_console :
      List CString → Console → Run (Console × List CString)
  finish_process_by_interactive_console lines c = do
    (id, rest) ← readline lines
    done (finish c id, rest)

  unfoldable pub execute_script : List CString → Console → Run (Console × List CString)
  unfolding read_file
  execute_script lines c = do (path, rest) ← readline lines; c' ← read_file c path; done (c', rest)

  -- One choice, with the lines that it asks for.
  unfoldable pub menu_choice : ℤ → List CString → Console → Run (Console × List CString)
  unfolding start_process_by_interactive_console finish_process_by_interactive_console
      execute_script
  menu_choice choice lines c =
      if eq_int choice (pos 1)
      then start_process_by_interactive_console lines c
      else if eq_int choice (pos 2)
      then finish_process_by_interactive_console lines c
      else if eq_int choice (pos 3)
      then done (request c start_planning, lines)
      else if eq_int choice (pos 4)
      then done (request c stop_planning, lines)
      else if eq_int choice (pos 5)
      then execute_script lines c
      else if eq_int choice (pos 6)
      then done (request c show_all_processes, lines)
      else if eq_int choice (pos 7)
      then done (record c { closed = true }, lines)
      else done (c, lines)

  -- The test of the loop reads the outer `choice`, which stays 0. Each round reads a line, so there
  -- are no more rounds than lines.
  unfoldable pub menu_loop : ℕ → List CString → Console → Run Console
  menu_loop zero lines c = waits
  menu_loop (suc fuel) lines c = do
    (line, rest) ← readline lines
    (c', left) ← menu_choice (atoi line) rest c
    let again = menu_loop fuel left c'
    (if c'.closed then done c' else again)

  unfoldable pub interactive_menu : List CString → Console → Run Console
  unfolding menu_loop
  interactive_menu lines c = menu_loop (length lines) lines c
