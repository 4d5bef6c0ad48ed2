-- ===== src/Shared/Operation.antt =====
-- shared/include/operation_handler.h and shared/src/operation_handler.c: the operation codes.
pub mod Names
mod Tests
use old_so_tp.Prelude.{ℕ, zero, suc, Option, none, some, List, [], ◌∷◌, ◌==◌, if◌then◌else◌}
use old_so_tp.Prelude.CString.{CString, codes}

-- `t_operation_code`, in the order of the source.
pub data OperationCode : Type 0 where
  default_operation instruction instructions interrupt rejected_interruption : OperationCode
  interrupt_quantum interrupt_priority dispatch_process create_process : OperationCode
  process_denied finish_process block_process execute_process stop_planning : OperationCode
  start_planning modify_multiprogramming_degree show_all_processes write_in_memory : OperationCode
  memory_ok kernel cpu filesystem memory console load_page page_fault_request : OperationCode
  page_fault connection_cpu_memory process_created get_frame write_memory : OperationCode
  read_memory reserve_swap wait_response wait_request sleep_request : OperationCode
  signal_request signal_response : OperationCode

-- The value of an enumerator.
unfoldable pub code_of : OperationCode → ℕ
code_of default_operation = 0
code_of instruction = 1
code_of instructions = 2
code_of interrupt = 3
code_of rejected_interruption = 4
code_of interrupt_quantum = 5
code_of interrupt_priority = 6
code_of dispatch_process = 7
code_of create_process = 8
code_of process_denied = 9
code_of finish_process = 10
code_of block_process = 11
code_of execute_process = 12
code_of stop_planning = 13
code_of start_planning = 14
code_of modify_multiprogramming_degree = 15
code_of show_all_processes = 16
code_of write_in_memory = 17
code_of memory_ok = 18
code_of kernel = 19
code_of cpu = 20
code_of filesystem = 21
code_of memory = 22
code_of console = 23
code_of load_page = 24
code_of page_fault_request = 25
code_of page_fault = 26
code_of connection_cpu_memory = 27
code_of process_created = 28
code_of get_frame = 29
code_of write_memory = 30
code_of read_memory = 31
code_of reserve_swap = 32
code_of wait_response = 33
code_of wait_request = 34
code_of sleep_request = 35
code_of signal_request = 36
code_of signal_response = 37

-- The codes in the order of the enumeration.
abbrev pub all_codes : List OperationCode
all_codes =
    default_operation ∷ instruction ∷ instructions ∷ interrupt ∷ rejected_interruption
    ∷ interrupt_quantum ∷ interrupt_priority ∷ dispatch_process ∷ create_process ∷ process_denied
    ∷ finish_process ∷ block_process ∷ execute_process ∷ stop_planning ∷ start_planning
    ∷ modify_multiprogramming_degree ∷ show_all_processes ∷ write_in_memory ∷ memory_ok ∷ kernel
    ∷ cpu ∷ filesystem ∷ memory ∷ console ∷ load_page ∷ page_fault_request ∷ page_fault
    ∷ connection_cpu_memory ∷ process_created ∷ get_frame ∷ write_memory ∷ read_memory
    ∷ reserve_swap ∷ wait_response ∷ wait_request ∷ sleep_request ∷ signal_request ∷ signal_response
    ∷ []

-- The switch of `translate_header` over the bytes that are codes.
name_of : OperationCode → CString
name_of default_operation = codes "DEFAULT_OPERATION"
name_of instruction = codes "INSTRUCTION"
name_of instructions = codes "INSTRUCTIONS"
name_of interrupt = codes "INTERRUPT"
name_of rejected_interruption = codes "REJECTED_INTERRUPTION"
name_of interrupt_quantum = codes "INTERRUPT_QUANTUM"
name_of interrupt_priority = codes "INTERRUPT_PRIORITY"
name_of dispatch_process = codes "DISPATCH_PROCESS"
name_of create_process = codes "CREATE_PROCESS"
name_of process_denied = codes "PROCESS_DENIED"
name_of finish_process = codes "FINISH_PROCESS"
name_of block_process = codes "BLOCK_PROCESS"
name_of execute_process = codes "EXECUTE_PROCESS"
name_of stop_planning = codes "STOP_PLANNING"
name_of start_planning = codes "START_PLANNING"
name_of modify_multiprogramming_degree = codes "MODIFY_MULTIPROGRAMMING_DEGREE"
name_of show_all_processes = codes "SHOW_ALL_PROCESSES"
name_of write_in_memory = codes "WRITE_IN_MEMORY"
name_of memory_ok = codes "MEMORY_OK"
name_of kernel = codes "KERNEL"
name_of cpu = codes "CPU"
name_of filesystem = codes "FILESYSTEM"
name_of memory = codes "MEMORY"
name_of console = codes "CONSOLE"
name_of load_page = codes "LOAD_PAGE"
name_of page_fault_request = codes "PAGE_FAULT_REQUEST"
name_of page_fault = codes "PAGE_FAULT"
name_of connection_cpu_memory = codes "CONNECTION_CPU_MEMORY"
name_of process_created = codes "PROCESS_CREATED"
name_of get_frame = codes "PROCESS_CREATED"
name_of write_memory = codes "KNOW_OPEARATION"
name_of read_memory = codes "KNOW_OPEARATION"
name_of reserve_swap = codes "PROCESS_CREATED"
name_of wait_response = codes "WAIT_RESPONSE"
name_of wait_request = codes "WAIT_REQUEST"
name_of sleep_request = codes "SLEEP_REQUEST"
name_of signal_request = codes "SIGNAL_REQUEST"
name_of signal_response = codes "SIGNAL_RESPONSE"

find_code : ℕ → List OperationCode → Option OperationCode
unfolding code_of
find_code n [] = none
find_code n (c ∷ cs) = if code_of c == n then some c else find_code n cs

-- The enumerator of a value.
unfoldable pub operation_of : ℕ → Option OperationCode
unfolding find_code
operation_of n = find_code n all_codes

unfoldable pub translate_header : ℕ → CString
unfolding operation_of name_of
translate_header code = elim (operation_of code) [
  | none ↦ codes "KNOW_OPEARATION"
  | some c ↦ name_of c
]
