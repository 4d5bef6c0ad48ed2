-- ===== src/Memory/Represents.antt =====
-- The abstract view of the memory: the swap positions of the pages of each process, in the order
-- in which the processes got them.
pub mod Extends
pub mod Reserve
pub mod Requests
use old_so_tp.Prelude.{ℕ, ◌<◌, ◌≡◌, Option, some, List, [], ◌∷◌, length}
use old_so_tp.Prelude.Int.{ℤ, pos, of_word, wrap_int, times}
use old_so_tp.Memory.State.{Page, PageTable, Config, Memory}

-- A page as `create_page` leaves it.
abbrev pub absent : ℤ → Page
absent position = record {
  frame = pos 0;
  presence = pos 0;
  modified = pos 0;
  swap_position = position;
}

-- Where a block is in the swap.
abbrev pub position : Config → ℕ → ℤ
position config block = wrap_int (times (of_word block) config.pagination_size)

abbrev pub PagesAre : Memory → List ℕ → List ℤ → Type 0
PagesAre m [] [] = Unit {0}
PagesAre m (a ∷ pages) (z ∷ positions) =
    (m.pages a ≡ some (absent z)) × (a < m.next) × PagesAre m pages positions
PagesAre m [] (z ∷ positions) = ⊥
PagesAre m (a ∷ pages) [] = ⊥

pub record TableIs (m : Memory) (a : ℕ) (pid : ℤ) (positions : List ℤ) : Type 0 where
  pub pages : List ℕ
  pub table : m.tables a ≡ some (record { pages = pages; pid = pid })
  pub below : a < m.next
  pub pages_are : PagesAre m pages positions

abbrev pub TablesAre : Memory → List ℕ → List (ℤ × List ℤ) → Type 0
TablesAre m [] [] = Unit {0}
TablesAre m (a ∷ tables) (p ∷ swap) = TableIs m a p.0 p.1 × TablesAre m tables swap
TablesAre m [] (p ∷ swap) = ⊥
TablesAre m (a ∷ tables) [] = ⊥

pub record Represents (m : Memory) (swap : List (ℤ × List ℤ)) : Type 0 where
  pub tables : TablesAre m m.page_table_list swap
  pub no_frames : m.frames_used_list ≡ []
