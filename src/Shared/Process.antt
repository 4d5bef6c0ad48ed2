-- ===== src/Shared/Process.antt =====
-- shared/src/process.c and shared/include/process.h: processes, their control blocks and the
-- messages that carry them.
pub mod Wire
pub mod Messages
pub mod Delivery
pub mod RoundTrip
pub mod Samples
mod Tests
use old_so_tp.Prelude.{ℕ, zero, suc, Option, none, some, List, ◌>>=◌, ◌==◌, if◌then◌else◌}
use old_so_tp.Prelude.Int.{ℤ, pos, to_word, of_word}
use old_so_tp.Prelude.CString.{CString, codes}
use old_so_tp.Commons.{Commons}
use old_so_tp.Shared.Operation.{OperationCode, create_process, code_of}
use old_so_tp.Shared.Buffer.{
  Buffer, Package, create_package, add_int32_to_buffer, add_uint32_to_buffer, add_string_to_buffer,
  add_list_to_buffer, take_int32_from_buffer, take_uint32_from_buffer, take_string_from_buffer,
  take_list_from_buffer,
}
use old_so_tp.Shared.Socket.{Event, Outgoing, send_package, receive_payload}

-- The values of `t_process_state`. A finished process gets `EXIT`, an enumerator of
-- `t_instruction_type`.
abbrev pub new : ℕ
new = 0

abbrev pub ready : ℕ
ready = 1

abbrev pub execution : ℕ
execution = 2

abbrev pub blocked : ℕ
blocked = 3

abbrev pub exit : ℕ
exit = 12

-- `none` is the end of the function without a `return`.
pub translate_process_state : ℕ → Option CString
translate_process_state state =
    if state == new
    then some (codes "NEW")
    else if state == ready
    then some (codes "READY")
    else if state == execution
    then some (codes "EXECUTION")
    else if state == blocked
    then some (codes "BLOCKED")
    else none

-- A register holds a 32-bit pattern.
pub record Pcb : Type 0 where
  pub pid : ℤ
  pub program_counter : ℤ
  pub size : ℤ
  pub quantum : ℤ
  pub cpu_register : List ℕ
  pub resources : List CString
  pub table_pages : ℤ
  pub path : CString
  pub state : ℕ
  pub client_socket : ℤ

pub record Process : Type 0 where
  pub path : CString

pub add_process_to_buffer : Buffer → Process → Option Buffer
add_process_to_buffer b process = add_string_to_buffer b process.path

pub take_process_from_buffer : Buffer → Option (Process × Buffer)
take_process_from_buffer b = do
  (path, b') ← take_string_from_buffer b
  some (record { path = path }, b')

-- The sizes of the structures, to which the first allocations are made. The buffer grows from any.
pub record Sizes : Type 0 where
  pub pcb_size : ℕ
  pub process_size : ℕ
  pub sleep_size : ℕ
  pub package_size : ℕ

module _ (lib : Commons) where
  pub add_pcb_to_buffer : Buffer → Pcb → Option Buffer
  add_pcb_to_buffer b pcb = do
    b1 ← add_uint32_to_buffer b (to_word pcb.pid)
    b2 ← add_int32_to_buffer b1 pcb.program_counter
    b3 ← add_int32_to_buffer b2 pcb.quantum
    b4 ← add_uint32_to_buffer b3 (to_word pcb.size)
    b5 ← add_list_to_buffer lib b4 pcb.cpu_register add_uint32_to_buffer
    b6 ← add_list_to_buffer lib b5 pcb.resources add_string_to_buffer
    b7 ← add_int32_to_buffer b6 pcb.table_pages
    b8 ← add_string_to_buffer b7 pcb.path
    b9 ← add_int32_to_buffer b8 (pos pcb.state)
    add_int32_to_buffer b9 pcb.client_socket

  pub take_pcb_from_buffer : Buffer → Option (Pcb × Buffer)
  take_pcb_from_buffer b = do
    (pid, b1) ← take_uint32_from_buffer b
    (program_counter, b2) ← take_int32_from_buffer b1
    (quantum, b3) ← take_int32_from_buffer b2
    (size, b4) ← take_uint32_from_buffer b3
    (cpu_register, b5) ← take_list_from_buffer lib b4 take_uint32_from_buffer
    (resources, b6) ← take_list_from_buffer lib b5 take_string_from_buffer
    (table_pages, b7) ← take_int32_from_buffer b6
    (path, b8) ← take_string_from_buffer b7
    (state, b9) ← take_int32_from_buffer b8
    (client_socket, b10) ← take_int32_from_buffer b9
    some (
      record {
        pid = of_word pid;
        program_counter = program_counter;
        size = of_word size;
        quantum = quantum;
        cpu_register = cpu_register;
        resources = resources;
        table_pages = table_pages;
        path = path;
        state = to_word state;
        client_socket = client_socket;
      },
      b10,
    )

-- `create_package`, the additions to its payload, `send_package`.
pub send_with : Outgoing → ℕ → ℕ → (Buffer → Option Buffer) → Option Outgoing
send_with socket header size add = do
  payload ← add (create_package header size).payload
  send_package socket (record { header = header; payload = payload })

-- `receive_payload`, and a read from it; a null payload is a fault.
pub get_with : {A : Type 0} → (Buffer → Option (A × Buffer)) → List Event → Option (A × List Event)
get_with take_value events = do
  (payload, events') ← receive_payload events
  buffer ← payload
  (value, rest) ← take_value buffer
  some (value, events')

module _ (lib : Commons) (sizes : Sizes) where
  pub send_process : Outgoing → Process → Option Outgoing
  send_process socket process =
      send_with socket (code_of create_process) sizes.process_size
        (λ b. add_process_to_buffer b process)

  pub send_pcb : Outgoing → ℕ → Pcb → Option Outgoing
  send_pcb socket header pcb =
      send_with socket header sizes.pcb_size (λ b. add_pcb_to_buffer lib b pcb)

  pub send_sleep : Outgoing → ℕ → Pcb → ℤ → Option Outgoing
  send_sleep socket header pcb sleep_time =
      send_with socket header sizes.sleep_size
        (λ b. do b' ← add_pcb_to_buffer lib b pcb; add_int32_to_buffer b' sleep_time)

  pub send_pcb_and_resource : Outgoing → ℕ → Pcb → CString → Option Outgoing
  send_pcb_and_resource socket header pcb resource =
      send_with socket header sizes.package_size
        (λ b. do b' ← add_pcb_to_buffer lib b pcb; add_string_to_buffer b' resource)

  -- The list holds numbers, and each is added by `add_string_to_buffer`, as the address of a
  -- string; `string_at` is what memory holds there.
  pub send_swap : (ℤ → Option CString) → Outgoing → ℕ → ℤ → List ℤ → Option Outgoing
  send_swap string_at socket header pid list = send_with socket header sizes.package_size (λ b. do
    b' ← add_int32_to_buffer b pid
    add_list_to_buffer lib b' list (λ c z. do s ← string_at z; add_string_to_buffer c s))

-- `sizeof(int)` is 4.
pub send_process_id : Outgoing → ℕ → ℤ → Option Outgoing
send_process_id socket header id =
    send_with socket header 4 (λ b. add_uint32_to_buffer b (to_word id))

pub send_page_to_load : Outgoing → ℕ → ℤ → Option Outgoing
send_page_to_load socket header page = send_with socket header 4 (λ b. add_int32_to_buffer b page)

pub send_multiprogramming_degree : Outgoing → ℕ → ℤ → Option Outgoing
send_multiprogramming_degree socket header new_degree =
    send_with socket header 4 (λ b. add_int32_to_buffer b new_degree)

pub send_int : Outgoing → ℕ → ℤ → Option Outgoing
send_int socket header integer = send_with socket header 4 (λ b. add_int32_to_buffer b integer)

pub get_process_id_from_socket : List Event → Option (ℕ × List Event)
get_process_id_from_socket events = get_with take_uint32_from_buffer events

pub get_pcb_from_socket : Commons → List Event → Option (Pcb × List Event)
get_pcb_from_socket lib events = get_with (take_pcb_from_buffer lib) events

pub get_page_from_socket : List Event → Option (ℤ × List Event)
get_page_from_socket events = get_with take_int32_from_buffer events

pub get_int_from_socket : List Event → Option (ℤ × List Event)
get_int_from_socket events = get_with take_int32_from_buffer events

pub get_new_degree_from_socket : List Event → Option (ℤ × List Event)
get_new_degree_from_socket events = get_with take_int32_from_buffer events
