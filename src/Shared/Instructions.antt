-- ===== src/Shared/Instructions.antt =====
-- shared/include/instructions.h and shared/src/instructions.c: the instructions, their names, and
-- their place in lists and buffers.
pub mod Names
pub mod Wire
pub mod Delivery
mod Tests
use old_so_tp.Prelude.{
  ℕ, zero, suc, ◌+◌, Option, none, some, List, [], ◌∷◌, ◌>>=◌, ◌==◌, length, if◌then◌else◌,
}
use old_so_tp.Prelude.Int.{ℤ, pos, negsuc}
use old_so_tp.Prelude.CString.{CString, codes, str_eq}
use old_so_tp.Commons.{Commons}
use old_so_tp.Shared.Buffer.{
  Buffer, add_uint8_to_buffer, add_int32_to_buffer, add_string_to_buffer, add_list_to_buffer,
  take_uint8_from_buffer, take_uint32_from_buffer, take_list_from_buffer, take_string_from_buffer,
}
use old_so_tp.Shared.Operation.{instruction, instructions, code_of}
use old_so_tp.Shared.Socket.{Event, Outgoing}
use old_so_tp.Shared.Process.{send_with, get_with}

-- `t_instruction_type`, in the order of the source.
pub data InstructionType : Type 0 where
  set_op sum_op sub_op jnz_op sleep_op wait_op signal_op mov_in_op mov_out_op : InstructionType
  f_open_op f_close_op f_seek_op exit_op f_read_op f_write_op f_truncate_op no_op : InstructionType

-- The value of an enumerator.
unfoldable pub type_code : InstructionType → ℕ
type_code set_op = 0
type_code sum_op = 1
type_code sub_op = 2
type_code jnz_op = 3
type_code sleep_op = 4
type_code wait_op = 5
type_code signal_op = 6
type_code mov_in_op = 7
type_code mov_out_op = 8
type_code f_open_op = 9
type_code f_close_op = 10
type_code f_seek_op = 11
type_code exit_op = 12
type_code f_read_op = 13
type_code f_write_op = 14
type_code f_truncate_op = 15
type_code no_op = 16

-- The type is the value of the enumerator. Each parameter is the number that a pointer is made of.
pub record Instruction : Type 0 where
  pub instruction_type : ℕ
  pub params : List ℤ

unfoldable pub translate_instruction : CString → InstructionType
translate_instruction s =
    if str_eq s (codes "SET")
    then set_op
    else if str_eq s (codes "SUM")
    then sum_op
    else if str_eq s (codes "SUB")
    then sub_op
    else if str_eq s (codes "JNZ")
    then jnz_op
    else if str_eq s (codes "WAIT")
    then wait_op
    else if str_eq s (codes "EXIT")
    then exit_op
    else if str_eq s (codes "SLEEP")
    then sleep_op
    else if str_eq s (codes "F_READ")
    then f_read_op
    else if str_eq s (codes "F_OPEN")
    then f_open_op
    else if str_eq s (codes "F_SEEK")
    then f_seek_op
    else if str_eq s (codes "SIGNAL")
    then signal_op
    else if str_eq s (codes "MOV_IN")
    then mov_in_op
    else if str_eq s (codes "F_WRITE")
    then f_write_op
    else if str_eq s (codes "MOV_OUT")
    then mov_out_op
    else if str_eq s (codes "F_CLOSE")
    then f_close_op
    else if str_eq s (codes "F_TRUNCATE")
    then f_truncate_op
    else no_op

unfoldable pub create_instruction : ℕ → Instruction
create_instruction instruction_type = record { instruction_type = instruction_type; params = [] }

-- The rounds of the loop: a parameter that is missing is a null pointer, whose number is 0.
abbrev pub rounds : Option ℤ → ℕ
rounds none = 0
rounds (some (pos n)) = n
rounds (some (negsuc n)) = 0

-- A parameter is read as a word, and is the number of that word.
unfoldable pub take_param : Buffer → Option (ℤ × Buffer)
take_param b = do (w, b') ← take_uint32_from_buffer b; some (pos w, b')

module _ (lib : Commons) where
  open lib use {list_add, list_get}

  unfoldable pub add_param_to_instruction : Instruction → ℤ → Instruction
  add_param_to_instruction i param = record i { params = list_add i.params param }

  unfoldable pub no_op_loop : ℕ → List Instruction → List Instruction
  unfolding create_instruction
  no_op_loop zero instruction_list = instruction_list
  no_op_loop (suc left) instruction_list =
      no_op_loop left (list_add instruction_list (create_instruction (type_code no_op)))

  unfoldable pub add_instruction_to_list : List Instruction → Instruction → List Instruction
  unfolding no_op_loop type_code
  add_instruction_to_list instruction_list i =
      if i.instruction_type == type_code no_op
      then no_op_loop (rounds (list_get i.params 0)) instruction_list
      else list_add instruction_list i

  unfoldable pub add_instruction_to_buffer : Buffer → Instruction → Option Buffer
  add_instruction_to_buffer b i = do
    b' ← add_uint8_to_buffer b i.instruction_type
    add_list_to_buffer lib b' i.params add_int32_to_buffer

  -- `list_size` is `sizeof(t_list)`.
  unfoldable pub send_instruction_list : ℕ → Outgoing → List Instruction → Option Outgoing
  unfolding add_instruction_to_buffer
  send_instruction_list list_size socket instruction_list =
      send_with socket (code_of instructions) list_size
        (λ b. add_list_to_buffer lib b instruction_list add_instruction_to_buffer)

  unfoldable pub take_instruction_from_buffer : Buffer → Option (Instruction × Buffer)
  unfolding take_param
  take_instruction_from_buffer b = do
    (instruction_type, b1) ← take_uint8_from_buffer b
    (params, b2) ← take_list_from_buffer lib b1 take_param
    some (record { instruction_type = instruction_type; params = params }, b2)

unfoldable pub send_instruction : Outgoing → CString → Option Outgoing
send_instruction socket text =
    send_with socket (code_of instruction) (length text + 1) (λ b. add_string_to_buffer b text)

unfoldable pub get_instruction_from_socket : List Event → Option (CString × List Event)
get_instruction_from_socket events = get_with take_string_from_buffer events
