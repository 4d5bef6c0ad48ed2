-- ===== src/Memory/Connection.antt =====
-- memory/src/handle_connection.c: one round of each connection, on the values that were read from
-- the message. Shared/Process has the bytes of the messages.
use old_so_tp.Prelude.{ℕ, ◌+◌, ◌-◌, ◌%◌, ◌^◌, Option, none, some, List, ◌>>=◌, if◌then◌else◌}
use old_so_tp.Prelude.Int.{ℤ, pos, divide, eq_int}
use old_so_tp.Prelude.CString.{codes, str_eq}
use old_so_tp.Commons.{Commons}
use old_so_tp.Shared.Process.{Pcb}
use old_so_tp.Memory.State.{
  Page, Config, Memory, found_frame, no_frame, swap_request, send, free_table, index_of,
}
use old_so_tp.Memory.Pages.Tables.{create_page_table, get_table_pages_by_pid}
use old_so_tp.Memory.Pages.Frames.{
  in_main_memory, replace_page_fifo, replace_page_lru_with_presence,
}

-- What the CPU asks for but for instructions, and what the kernel sends. `unknown_operation` is any
-- other header.
pub data CpuRequest : Type 0 where
  reserve_swap : ℤ → List ℕ → CpuRequest
  get_frame page_fault : Pcb → CpuRequest
  read_memory write_memory : Pcb → ℤ → CpuRequest
  unknown_operation : CpuRequest

pub data KernelRequest : Type 0 where
  create_process finish_process : Pcb → KernelRequest
  unknown_operation : KernelRequest

-- The word that is read is dropped.
unfoldable pub handle_read_memory : Config → Memory → ℤ → Option Memory
handle_read_memory config m physical_direction =
    if in_main_memory config m physical_direction then some m else none

-- `&main_memory + physical_direction` is a pointer behind the variable `main_memory`, in steps of
-- its 8 bytes: only at 0 is it the variable, whose lower half the value replaces.
unfoldable pub write_word : Memory → ℤ → ℕ → Option Memory
write_word m physical_direction value =
    if eq_int physical_direction (pos 0)
    then some (record m { main_memory = m.main_memory - m.main_memory % 2 ^ 32 + value % 2 ^ 32 })
    else none

-- The value is always 0.
unfoldable pub handle_write_memory : Memory → ℤ → Option Memory
unfolding write_word
handle_write_memory m physical_direction = write_word m physical_direction 0

module _ (lib : Commons) where
  open lib use {list_add, list_get}

  unfoldable pub handle_create_process : Config → Memory → Pcb → Option Memory
  handle_create_process config m process_to_create = do
    page_quantity ← divide process_to_create.size config.pagination_size
    some (send m (swap_request process_to_create.pid page_quantity))

  unfoldable pub reserve_swap_memory : Config → Memory → ℤ → List ℕ → Option Memory
  reserve_swap_memory config m pid swap_blocks = do
    (page_table, m') ← create_page_table lib config m pid swap_blocks
    some (record m' { page_table_list = list_add m'.page_table_list page_table })

  -- The page of the process that a request is about, with its table.
  abbrev pub requested_page : Memory → Pcb → Option (ℕ × ℕ)
  requested_page m pcb = do
    page_table ← get_table_pages_by_pid lib m pcb.pid
    t ← m.tables page_table
    n ← index_of pcb.table_pages
    page ← list_get t.pages n
    some (page_table, page)

  -- The table is freed at the end, and stays in the list.
  unfoldable pub handle_get_frame : Config → Memory → Pcb → Option Memory
  handle_get_frame config m pcb = do
    (page_table, page) ← requested_page m pcb
    p ← m.pages page
    let used = (do
      replacement_algorithm ← config.replacement_algorithm
      m' ←
          (if str_eq replacement_algorithm (codes "LRU")
            then replace_page_lru_with_presence lib m pcb.pid pcb.table_pages
            else some m)
      some (send m' (found_frame p.frame)))
    m1 ← (if eq_int p.presence (pos 1) then used else some (send m no_frame))
    free_table m1 page_table

  module _ (misused : Page → ℤ → Option Page) where
    unfoldable pub handle_page_fault : Config → Memory → Pcb → Option Memory
    handle_page_fault config m pcb = do
      (page_table, page) ← requested_page m pcb
      m1 ← replace_page_fifo lib misused config m page pcb.pid pcb.table_pages
      free_table m1 page_table

    unfoldable pub handle_cpu : Config → Memory → CpuRequest → Option Memory
    handle_cpu config m (reserve_swap pid swap_blocks) =
        reserve_swap_memory config m pid swap_blocks
    handle_cpu config m (get_frame pcb) = handle_get_frame config m pcb
    handle_cpu config m (page_fault pcb) = handle_page_fault config m pcb
    handle_cpu config m (read_memory pcb physical_direction) =
        handle_read_memory config m physical_direction
    handle_cpu config m (write_memory pcb physical_direction) =
        handle_write_memory m physical_direction
    handle_cpu config m unknown_operation = some m

  -- `handle_finish_process` reads the control block from `socket`, the function of the C library,
  -- and not from the connection: the reading fails, and does not return.
  unfoldable pub handle_kernel : Config → Memory → KernelRequest → Option Memory
  handle_kernel config m (create_process pcb) = handle_create_process config m pcb
  handle_kernel config m (finish_process pcb) = none
  handle_kernel config m unknown_operation = some m
