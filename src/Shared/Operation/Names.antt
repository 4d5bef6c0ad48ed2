-- ===== src/Shared/Operation/Names.antt =====
-- The names that `translate_header` gives to the codes, against those of the enumeration.
use old_so_tp.Prelude.{◌≡◌, refl, Bool, true, false, some}
use old_so_tp.Prelude.CString.{CString, codes, str_eq}
use old_so_tp.Shared.Operation.{
  OperationCode, default_operation, instruction, instructions, interrupt, rejected_interruption,
  interrupt_quantum, interrupt_priority, dispatch_process, create_process, process_denied,
  finish_process, block_process, execute_process, stop_planning, start_planning,
  modify_multiprogramming_degree, show_all_processes, write_in_memory, memory_ok, kernel, cpu,
  filesystem, memory, console, load_page, page_fault_request, page_fault, connection_cpu_memory,
  process_created, get_frame, write_memory, read_memory, reserve_swap, wait_response, wait_request,
  sleep_request, signal_request, signal_response, code_of, operation_of, translate_header,
}

-- The enumerator of the header file, as it is spelled there.
abbrev pub spelling : OperationCode → CString
spelling default_operation = codes "DEFAULT_OPERATION"
spelling instruction = codes "INSTRUCTION"
spelling instructions = codes "INSTRUCTIONS"
spelling interrupt = codes "INTERRUPT"
spelling rejected_interruption = codes "REJECTED_INTERRUPTION"
spelling interrupt_quantum = codes "INTERRUPT_QUANTUM"
spelling interrupt_priority = codes "INTERRUPT_PRIORITY"
spelling dispatch_process = codes "DISPATCH_PROCESS"
spelling create_process = codes "CREATE_PROCESS"
spelling process_denied = codes "PROCESS_DENIED"
spelling finish_process = codes "FINISH_PROCESS"
spelling block_process = codes "BLOCK_PROCESS"
spelling execute_process = codes "EXECUTE_PROCESS"
spelling stop_planning = codes "STOP_PLANNING"
spelling start_planning = codes "START_PLANNING"
spelling modify_multiprogramming_degree = codes "MODIFY_MULTIPROGRAMMING_DEGREE"
spelling show_all_processes = codes "SHOW_ALL_PROCESSES"
spelling write_in_memory = codes "WRITE_IN_MEMORY"
spelling memory_ok = codes "MEMORY_OK"
spelling kernel = codes "KERNEL"
spelling cpu = codes "CPU"
spelling filesystem = codes "FILESYSTEM"
spelling memory = codes "MEMORY"
spelling console = codes "CONSOLE"
spelling load_page = codes "LOAD_PAGE"
spelling page_fault_request = codes "PAGE_FAULT_REQUEST"
spelling page_fault = codes "PAGE_FAULT"
spelling connection_cpu_memory = codes "CONNECTION_CPU_MEMORY"
spelling process_created = codes "PROCESS_CREATED"
spelling get_frame = codes "GET_FRAME"
spelling write_memory = codes "WRITE_MEMORY"
spelling read_memory = codes "READ_MEMORY"
spelling reserve_swap = codes "RESERVE_SWAP"
spelling wait_response = codes "WAIT_RESPONSE"
spelling wait_request = codes "WAIT_REQUEST"
spelling sleep_request = codes "SLEEP_REQUEST"
spelling signal_request = codes "SIGNAL_REQUEST"
spelling signal_response = codes "SIGNAL_RESPONSE"

-- The codes that print as their own name.
abbrev pub own_name : OperationCode → Bool
own_name default_operation = true
own_name instruction = true
own_name instructions = true
own_name interrupt = true
own_name rejected_interruption = true
own_name interrupt_quantum = true
own_name interrupt_priority = true
own_name dispatch_process = true
own_name create_process = true
own_name process_denied = true
own_name finish_process = true
own_name block_process = true
own_name execute_process = true
own_name stop_planning = true
own_name start_planning = true
own_name modify_multiprogramming_degree = true
own_name show_all_processes = true
own_name write_in_memory = true
own_name memory_ok = true
own_name kernel = true
own_name cpu = true
own_name filesystem = true
own_name memory = true
own_name console = true
own_name load_page = true
own_name page_fault_request = true
own_name page_fault = true
own_name connection_cpu_memory = true
own_name process_created = true
own_name get_frame = false
own_name write_memory = false
own_name read_memory = false
own_name reserve_swap = false
own_name wait_response = true
own_name wait_request = true
own_name sleep_request = true
own_name signal_request = true
own_name signal_response = true

-- Each enumerator is found again from its value.
pub operation_of-code_of : (c : OperationCode) → operation_of (code_of c) ≡ some c
unfolding operation_of code_of
operation_of-code_of default_operation = refl
operation_of-code_of instruction = refl
operation_of-code_of instructions = refl
operation_of-code_of interrupt = refl
operation_of-code_of rejected_interruption = refl
operation_of-code_of interrupt_quantum = refl
operation_of-code_of interrupt_priority = refl
operation_of-code_of dispatch_process = refl
operation_of-code_of create_process = refl
operation_of-code_of process_denied = refl
operation_of-code_of finish_process = refl
operation_of-code_of block_process = refl
operation_of-code_of execute_process = refl
operation_of-code_of stop_planning = refl
operation_of-code_of start_planning = refl
operation_of-code_of modify_multiprogramming_degree = refl
operation_of-code_of show_all_processes = refl
operation_of-code_of write_in_memory = refl
operation_of-code_of memory_ok = refl
operation_of-code_of kernel = refl
operation_of-code_of cpu = refl
operation_of-code_of filesystem = refl
operation_of-code_of memory = refl
operation_of-code_of console = refl
operation_of-code_of load_page = refl
operation_of-code_of page_fault_request = refl
operation_of-code_of page_fault = refl
operation_of-code_of connection_cpu_memory = refl
operation_of-code_of process_created = refl
operation_of-code_of get_frame = refl
operation_of-code_of write_memory = refl
operation_of-code_of read_memory = refl
operation_of-code_of reserve_swap = refl
operation_of-code_of wait_response = refl
operation_of-code_of wait_request = refl
operation_of-code_of sleep_request = refl
operation_of-code_of signal_request = refl
operation_of-code_of signal_response = refl

-- `translate_header` gives a code the name of its enumerator exactly when it is none of GET_FRAME,
-- RESERVE_SWAP, READ_MEMORY and WRITE_MEMORY.
pub translate_header-code_of :
    (c : OperationCode) → str_eq (translate_header (code_of c)) (spelling c) ≡ own_name c
unfolding translate_header str_eq operation_of code_of
translate_header-code_of default_operation = refl
translate_header-code_of instruction = refl
translate_header-code_of instructions = refl
translate_header-code_of interrupt = refl
translate_header-code_of rejected_interruption = refl
translate_header-code_of interrupt_quantum = refl
translate_header-code_of interrupt_priority = refl
translate_header-code_of dispatch_process = refl
translate_header-code_of create_process = refl
translate_header-code_of process_denied = refl
translate_header-code_of finish_process = refl
translate_header-code_of block_process = refl
translate_header-code_of execute_process = refl
translate_header-code_of stop_planning = refl
translate_header-code_of start_planning = refl
translate_header-code_of modify_multiprogramming_degree = refl
translate_header-code_of show_all_processes = refl
translate_header-code_of write_in_memory = refl
translate_header-code_of memory_ok = refl
translate_header-code_of kernel = refl
translate_header-code_of cpu = refl
translate_header-code_of filesystem = refl
translate_header-code_of memory = refl
translate_header-code_of console = refl
translate_header-code_of load_page = refl
translate_header-code_of page_fault_request = refl
translate_header-code_of page_fault = refl
translate_header-code_of connection_cpu_memory = refl
translate_header-code_of process_created = refl
translate_header-code_of get_frame = refl
translate_header-code_of write_memory = refl
translate_header-code_of read_memory = refl
translate_header-code_of reserve_swap = refl
translate_header-code_of wait_response = refl
translate_header-code_of wait_request = refl
translate_header-code_of sleep_request = refl
translate_header-code_of signal_request = refl
translate_header-code_of signal_response = refl
