-- ===== src/Memory/Pages/Frames.antt =====
-- The frames in use, of memory/src/page_table.c: replacement, and the removal of a frame.
use old_so_tp.Prelude.{
  ℕ, zero, suc, ◌+◌, ◌/◌, Option, none, some, ◌>>=◌, Bool, ◌&&◌, ◌==◌, leb, if◌then◌else◌,
}
use old_so_tp.Prelude.Int.{ℤ, pos, negsuc, eq_int, wrap_int, times}
use old_so_tp.Commons.{Commons}
use old_so_tp.Memory.State.{
  Page, FramePage, Config, Memory, new_frame, write_page, update, free_frame, index_of,
}
use old_so_tp.Memory.Pages.Tables.{get_table_pages_by_pid}

unfoldable pub check_modified : ℤ → Bool
check_modified page_modified = eq_int page_modified (pos 1)

-- Whether the four bytes from an offset to `main_memory` on lie in the block.
abbrev pub in_main_memory : Config → Memory → ℤ → Bool
in_main_memory config m (pos n) =
    leb config.block (m.main_memory + n)
    && leb (m.main_memory + n + 4) (config.block + config.memory_size)
in_main_memory config m (negsuc n) =
    leb (config.block + suc n) m.main_memory
    && leb (m.main_memory + 4) (config.block + config.memory_size + suc n)

-- `misused` is what `list_add` of the library does to a page that is handed to it as a list: the
-- page after it, or a fault. The library says nothing about it.
module _ (lib : Commons) (misused : Page → ℤ → Option Page) where
  open lib use {list_size, list_add, list_get, list_remove}

  unfoldable pub update_victim : Memory → FramePage → Option Memory
  update_victim m frame_page = do
    page_table ← get_table_pages_by_pid lib m frame_page.pid
    t ← m.tables page_table
    n ← index_of frame_page.page_number
    let (removed, rest) = list_remove t.pages n
    page ← removed
    p ← m.pages page
    p' ← misused (record p { modified = pos 0; presence = pos 0 }) frame_page.page_number
    some (record (write_page m page p') {
      tables = update m.tables page_table (some (record t { pages = rest }));
    })

  -- The word that is read where the victim was modified is not used.
  unfoldable pub replace_page_fifo : Config → Memory → ℕ → ℤ → ℤ → Option Memory
  unfolding update_victim check_modified
  replace_page_fifo config m new_page pid page_number = do
    page_to_get_replaced ← list_get m.frames_used_list 0
    victim ← m.frames page_to_get_replaced
    let offset = wrap_int (times victim.frame config.pagination_size)
    m1 ←
        (if check_modified victim.modified
          then if in_main_memory config m offset then some m else none
          else some m)
    m2 ← update_victim m1 victim
    p ← m2.pages new_page
    let m3 = write_page m2 new_page (record p { frame = victim.frame; presence = pos 1 })
    let (new_frame_page, m4) =
        new_frame m3
          (record { frame = victim.frame; modified = pos 0; page_number = page_number; pid = pid })
    free_frame
        (record m4 {
          frames_used_list = list_add (list_remove m4.frames_used_list 0).1 new_frame_page;
        })
        new_frame_page

module _ (lib : Commons) where
  open lib use {list_size, list_add, list_get, list_remove}

  -- The frame is taken out of the list and put at its end, and freed. `left` is the number of frames
  -- from `i` on: behind the last one `list_get` gives the null pointer.
  unfoldable pub lru_loop : ℕ → Memory → ℤ → ℤ → ℕ → Option Memory
  lru_loop zero m pid page_number i = none
  lru_loop (suc left) m pid page_number i = do
    frame_page ← list_get m.frames_used_list i
    f ← m.frames frame_page
    let rest = lru_loop left m pid page_number (suc i)
    let (removed, others) = list_remove m.frames_used_list i
    let found = (do
      taken ← removed
      free_frame (record m { frames_used_list = list_add others taken }) taken)
    (if eq_int pid f.pid && eq_int page_number f.page_number then found else rest)

  unfoldable pub replace_page_lru_with_presence : Memory → ℤ → ℤ → Option Memory
  unfolding lru_loop
  replace_page_lru_with_presence m pid page_number =
      lru_loop (list_size m.frames_used_list) m pid page_number 0

  unfoldable pub check_full : Config → Memory → Option Bool
  check_full config m =
      if config.pagination_size == 0
      then none
      else some (list_size m.frames_used_list == config.memory_size / config.pagination_size)

  -- What is removed is the element at the index `frame`. The bound is computed in each round, and
  -- only falls.
  unfoldable pub frame_loop : ℕ → Memory → ℤ → ℕ → Option Memory
  frame_loop zero m frame i = some m
  frame_loop (suc fuel) m frame i =
      let round = (do
        frame_page ← list_get m.frames_used_list i
        f ← m.frames frame_page
        let removed = (do
          n ← index_of frame
          some (record m { frames_used_list = (list_remove m.frames_used_list n).1 }))
        let next = if eq_int f.frame frame then removed else some m
        m' ← next
        frame_loop fuel m' frame (suc i)) in
      if leb (list_size m.frames_used_list) i then some m else round

  unfoldable pub delete_from_frame_list : Memory → ℤ → Option Memory
  unfolding frame_loop
  delete_from_frame_list m frame = frame_loop (list_size m.frames_used_list) m frame 0
