-- ===== src/Cpu/Execution.antt =====
-- cpu/src/instruction_execution.c: the instruction cycle. A step is `none` where the code reads the
-- end of the array of words, or the string at an address that is none.
use old_so_tp.Prelude.{
  ℕ, zero, suc, ◌+◌, ◌-◌, ◌%◌, ◌^◌, Bool, true, false, Option, none, some, List, [], ◌∷◌, ◌>>=◌,
  ◌==◌, get_elem?, if◌then◌else◌,
}
use old_so_tp.Prelude.Int.{to_word}
use old_so_tp.Prelude.CString.{CString, codes, str_eq}
use old_so_tp.Prelude.Decimal.{atoi}
use old_so_tp.Commons.{Commons}
use old_so_tp.Shared.Process.{Pcb}
use old_so_tp.Shared.Instructions.{
  InstructionType, set_op, sum_op, sub_op, jnz_op, sleep_op, wait_op, signal_op, mov_in_op,
  mov_out_op, f_open_op, f_close_op, f_seek_op, exit_op, f_read_op, f_write_op, f_truncate_op,
  no_op, translate_instruction,
}
use old_so_tp.Kernel.Connection.{CpuReport, finishes, wait_for, signal, sleep}

-- A string of the array that `string_split` makes of an instruction, and where it is.
pub record Word : Type 0 where
  pub address : ℕ
  pub text : CString

-- An element of the list of parameters: the number of a register as a pointer, or a string.
pub data Param : Type 0 where
  register : ℕ → Param
  identifier : Word → Param

-- The pointer as a `uint32_t`.
abbrev pub as_index : Param → ℕ
as_index (register n) = n
as_index (identifier w) = w.address % 2 ^ 32

abbrev pub as_string : Param → Option CString
as_string (register n) = none
as_string (identifier w) = some w.text

unfoldable pub param_of : Word → Param
param_of w =
    if str_eq w.text (codes "AX")
    then register 0
    else if str_eq w.text (codes "BX")
    then register 1
    else if str_eq w.text (codes "CX")
    then register 2
    else if str_eq w.text (codes "DX")
    then register 3
    else identifier w

-- What the cycle returns, the control block after it, and what was sent to the kernel.
pub record Cycle : Type 0 where
  pub goes_on : Bool
  pub pcb : Pcb
  pub sent : List CpuReport

abbrev pub next : Pcb → Cycle
next pcb = record { goes_on = true; pcb = pcb; sent = [] }

abbrev pub reports : Pcb → CpuReport → Cycle
reports pcb report = record { goes_on = false; pcb = pcb; sent = report ∷ [] }

abbrev pub with_register : Pcb → List ℕ → Cycle
with_register pcb registers = next (record pcb { cpu_register = registers })

module _ (lib : Commons) where
  open lib use {list_add, list_get, list_remove, list_add_in_index}

  unfoldable pub parse_loop : ℕ → List Word → ℕ → List Param → Option (List Param)
  unfolding param_of
  parse_loop zero params i lista_aux = some lista_aux
  parse_loop (suc left) params i lista_aux = do
    w ← get_elem? params (i + 1)
    parse_loop left params (suc i) (list_add lista_aux (param_of w))

  unfoldable pub parse_register_param : List Word → ℕ → Option (List Param)
  unfolding parse_loop
  parse_register_param params params_quantity = parse_loop params_quantity params 0 []

  -- The null pointer of `list_get` is the number 0.
  abbrev pub index_at : List Param → ℕ → ℕ
  index_at params_order n = elim (list_get params_order n) [ none ↦ 0 | some p ↦ as_index p ]

  abbrev pub register_at : List ℕ → ℕ → ℕ
  register_at cpu_register i = elim (list_get cpu_register i) [ none ↦ 0 | some v ↦ v ]

  abbrev pub set_register : List ℕ → ℕ → ℕ → List ℕ
  set_register cpu_register i value =
      let (removed, rest) = list_remove cpu_register i in list_add_in_index rest i value

  -- The branch of an instruction type. The log and the mutex of the connection are left out.
  unfoldable pub branch : Pcb → List Word → InstructionType → Option Cycle
  branch pcb words set_op = do
    params_order ← parse_register_param words 1
    value ← get_elem? words 2
    let i = index_at params_order 0
    some (with_register pcb (set_register pcb.cpu_register i (to_word (atoi value.text))))
  branch pcb words sum_op = do
    params_order ← parse_register_param words 2
    let i = index_at params_order 0
    let sum_result =
        (register_at pcb.cpu_register i + register_at pcb.cpu_register (index_at params_order 1))
        % 2 ^ 32
    some (with_register pcb (set_register pcb.cpu_register i sum_result))
  branch pcb words sub_op = do
    params_order ← parse_register_param words 2
    let i = index_at params_order 0
    let origin = register_at pcb.cpu_register (index_at params_order 1)
    let sub_result = (register_at pcb.cpu_register i + (2 ^ 32 - origin % 2 ^ 32)) % 2 ^ 32
    some (with_register pcb (set_register pcb.cpu_register i sub_result))
  branch pcb words sleep_op = do
    params_order ← parse_register_param words 1
    p ← list_get params_order 0
    sleep_time ← as_string p
    some (reports pcb (sleep pcb (atoi sleep_time)))
  branch pcb words wait_op = do
    params_order ← parse_register_param words 1
    p ← list_get params_order 0
    wait_resource ← as_string p
    some (reports pcb (wait_for pcb wait_resource))
  branch pcb words signal_op = do
    params_order ← parse_register_param words 1
    p ← list_get params_order 0
    signal_resource ← as_string p
    some (reports pcb (signal pcb signal_resource))
  branch pcb words jnz_op = do
    params_order ← parse_register_param words 1
    let i = index_at params_order 0
    let jump = (do
      value ← get_elem? words 2
      some (with_register pcb (list_add_in_index pcb.cpu_register i (to_word (atoi value.text)))))
    (if register_at pcb.cpu_register i == 0 then some (next pcb) else jump)
  branch pcb words mov_in_op = do params_order ← parse_register_param words 2; some (next pcb)
  branch pcb words mov_out_op = do params_order ← parse_register_param words 2; some (next pcb)
  branch pcb words exit_op = some (reports pcb (finishes pcb))
  branch pcb words f_open_op = some (next pcb)
  branch pcb words f_close_op = some (next pcb)
  branch pcb words f_seek_op = some (next pcb)
  branch pcb words f_read_op = some (next pcb)
  branch pcb words f_write_op = some (next pcb)
  branch pcb words f_truncate_op = some (next pcb)
  branch pcb words no_op = some (next pcb)

  -- `string_split` of the library is an argument.
  unfoldable pub execute_instruction_cycle : (CString → List Word) → Pcb → CString → Option Cycle
  execute_instruction_cycle string_split pcb instruction = do
    let words = string_split instruction
    instruction_type ← get_elem? words 0
    branch pcb words (translate_instruction instruction_type.text)
