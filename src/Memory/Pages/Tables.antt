-- ===== src/Memory/Pages/Tables.antt =====
-- The page tables of memory/src/page_table.c.
use old_so_tp.Prelude.{ℕ, zero, suc, Option, none, some, List, [], ◌>>=◌, if◌then◌else◌}
use old_so_tp.Prelude.Int.{ℤ, pos, eq_int, of_word, wrap_int, times}
use old_so_tp.Commons.{Commons}
use old_so_tp.Memory.State.{Config, Memory, new_table, new_page, free_table, free_page}

-- The globals after `reserve_memory` and `init_page_table_list`.
unfoldable pub init_page_table_list : Config → Memory
init_page_table_list config = record {
  tables = λ a. none;
  pages = λ a. none;
  frames = λ a. none;
  next = 0;
  main_memory = config.block;
  page_table_list = [];
  frames_used_list = [];
  sent = [];
}

unfoldable pub create_page : Memory → ℤ → ℕ × Memory
create_page m swap_position =
    new_page m
      (record { frame = pos 0; presence = pos 0; modified = pos 0; swap_position = swap_position })

module _ (lib : Commons) where
  open lib use {list_size, list_add, list_get}

  -- The pages of the blocks from an index on, behind those that are there. The blocks are 32-bit
  -- words, and are read as `int`.
  unfoldable pub pages_loop : Config → ℕ → Memory → List ℕ → ℕ → List ℕ → Option (List ℕ × Memory)
  unfolding create_page
  pages_loop config zero m swap_blocks i pages = some (pages, m)
  pages_loop config (suc left) m swap_blocks i pages = do
    block ← list_get swap_blocks i
    let swap_pos = wrap_int (times (of_word block) config.pagination_size)
    let (page, m') = create_page m swap_pos
    pages_loop config left m' swap_blocks (suc i) (list_add pages page)

  unfoldable pub create_page_table : Config → Memory → ℤ → List ℕ → Option (ℕ × Memory)
  unfolding pages_loop
  create_page_table config m pid swap_blocks = do
    (pages, m') ← pages_loop config (list_size swap_blocks) m swap_blocks 0 []
    some (new_table m' (record { pages = pages; pid = pid }))

  -- The test of `presence` has an empty body.
  unfoldable pub delete_loop : ℕ → Memory → List ℕ → ℕ → List ℤ → Option (List ℤ × Memory)
  delete_loop zero m pages i swap_positions = some (swap_positions, m)
  delete_loop (suc left) m pages i swap_positions = do
    page ← list_get pages i
    p ← m.pages page
    m' ← free_page m page
    delete_loop left m' pages (suc i) (list_add swap_positions p.swap_position)

  unfoldable pub delete_page_table : Memory → ℕ → Option (List ℤ × Memory)
  unfolding delete_loop
  delete_page_table m page_table = do
    t ← m.tables page_table
    (swap_positions, m') ← delete_loop (list_size t.pages) m t.pages 0 []
    m'' ← free_table m' page_table
    some (swap_positions, m'')

  -- Without a match the function ends with no `return`, and each caller uses what it gives.
  unfoldable pub table_loop : ℕ → Memory → ℕ → ℤ → Option ℕ
  table_loop zero m i pid = none
  table_loop (suc left) m i pid = do
    page_table ← list_get m.page_table_list i
    t ← m.tables page_table
    let rest = table_loop left m (suc i) pid
    (if eq_int t.pid pid then some page_table else rest)

  unfoldable pub get_table_pages_by_pid : Memory → ℤ → Option ℕ
  unfolding table_loop
  get_table_pages_by_pid m pid = table_loop (list_size m.page_table_list) m 0 pid
