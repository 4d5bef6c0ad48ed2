-- ===== src/Memory/Tests.antt =====
-- A memory with the pages of one process, in blocks of 16 bytes.
use old_so_tp.Prelude.{◌≡◌, refl, arith, none, some, [], ◌∷◌, ◌==◌, if◌then◌else◌}
use old_so_tp.Prelude.Int.{pos, wrap_int}
use old_so_tp.Prelude.CString.{codes}
use old_so_tp.Commons.Reference.{reference}
use old_so_tp.Shared.Process.{Pcb}
use old_so_tp.Memory.State.{Config, Memory, no_frame}
use old_so_tp.Memory.Connection.{reserve_swap_memory, handle_get_frame, handle_page_fault}
use old_so_tp.Memory.Represents.{absent, Represents}
use old_so_tp.Memory.Represents.Reserve.{reserve_swap_memory-Represents}
use old_so_tp.Memory.Represents.Requests.{handle_get_frame-no_frame}
use old_so_tp.Memory.Faults.{handle_page_fault-none}

abbrev config : Config
config = record {
  memory_size = 64;
  block = 4096;
  pagination_size = 16;
  replacement_algorithm = some (codes "LRU");
}

abbrev caller : Pcb
caller = record {
  pid = pos 7;
  program_counter = pos 2;
  quantum = pos 0;
  size = pos 64;
  cpu_register = [];
  resources = [];
  table_pages = pos 1;
  path = [];
  state = 0;
  client_socket = pos 9;
}

abbrev two_pages : Memory
two_pages = record {
  tables = λ a. if a == 2 then some (record { pages = 0 ∷ 1 ∷ []; pid = pos 7 }) else none;
  pages = λ a.
      if a == 0 then some (absent (pos 48)) else if a == 1 then some (absent (pos 80)) else none;
  frames = λ a. none;
  next = 3;
  main_memory = 4096;
  page_table_list = 2 ∷ [];
  frames_used_list = [];
  sent = [];
}

two_pages-Represents : Represents two_pages ((pos 7, pos 48 ∷ pos 80 ∷ []) ∷ [])
two_pages-Represents = record {
  tables = (
    record {
      pages = 0 ∷ 1 ∷ [];
      table = refl;
      below = omega arith;
      pages_are = (refl, omega arith, (refl, omega arith, tt));
    },
    tt,
  );
  no_frames = refl;
}

reserve_swap_memory-Represents_example :
    (m' : Memory) × (reserve_swap_memory reference config two_pages (pos 8) (2 ∷ []) ≡ some m')
    × Represents m' ((pos 7, pos 48 ∷ pos 80 ∷ []) ∷ (pos 8, pos 32 ∷ []) ∷ [])
    × (m'.sent ≡ [])
unfolding wrap_int
reserve_swap_memory-Represents_example =
    reserve_swap_memory-Represents reference config two_pages ((pos 7, pos 48 ∷ pos 80 ∷ []) ∷ [])
      (pos 8) (2 ∷ []) two_pages-Represents

handle_get_frame-no_frame_example :
    (m' : Memory) × (handle_get_frame reference config two_pages caller ≡ some m')
    × (m'.sent ≡ no_frame ∷ [])
    × (handle_get_frame reference config m' caller ≡ none)
handle_get_frame-no_frame_example =
    handle_get_frame-no_frame reference config two_pages ((pos 7, pos 48 ∷ pos 80 ∷ []) ∷ []) caller
      (pos 48 ∷ pos 80 ∷ []) 1 two_pages-Represents refl refl (omega arith)

handle_page_fault-none_example :
    handle_page_fault reference (λ page index. some page) config two_pages caller ≡ none
handle_page_fault-none_example =
    handle_page_fault-none reference (λ page index. some page) config two_pages caller refl
