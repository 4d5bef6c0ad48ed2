-- ===== src/Memory/State.antt =====
-- The memory's globals (memory/src/memory.c, memory/include/page_table.h). The lists hold pointers:
-- `tables`, `pages` and `frames` have what is allocated at an address, and `none` where nothing is
-- or where it was freed. A step is `none` where the code uses such an address, a null pointer or a
-- value that no `return` gave.
use old_so_tp.Prelude.{ℕ, suc, Option, none, some, List, [], ◌∷◌, ◌++◌, ◌>>=◌, ◌==◌, if◌then◌else◌}
use old_so_tp.Prelude.Int.{ℤ, pos, negsuc}
use old_so_tp.Prelude.CString.{CString}

pub record Page : Type 0 where
  pub frame : ℤ
  pub presence : ℤ
  pub modified : ℤ
  pub swap_position : ℤ

pub record FramePage : Type 0 where
  pub frame : ℤ
  pub modified : ℤ
  pub page_number : ℤ
  pub pid : ℤ

pub record PageTable : Type 0 where
  pub pages : List ℕ
  pub pid : ℤ

-- The sizes of the configuration are not negative.
pub record Config : Type 0 where
  pub memory_size : ℕ
  -- The address of the block that `reserve_memory` gets.
  pub block : ℕ
  pub pagination_size : ℕ
  -- The field is an `int` that `strcmp` gets as an address: the string that is there, if there is one.
  pub replacement_algorithm : Option CString

-- What the memory sends to the CPU and to the filesystem.
pub data Answer : Type 0 where
  found_frame : ℤ → Answer
  no_frame : Answer
  swap_request : ℤ → ℤ → Answer

-- Addresses from `next` on are not allocated.
pub record Memory : Type 0 where
  pub tables : ℕ → Option PageTable
  pub pages : ℕ → Option Page
  pub frames : ℕ → Option FramePage
  pub next : ℕ
  -- The address that the variable `main_memory` holds.
  pub main_memory : ℕ
  pub page_table_list : List ℕ
  pub frames_used_list : List ℕ
  pub sent : List Answer

module _ {A : Type 0} where
  abbrev pub update : (ℕ → Option A) → ℕ → Option A → ℕ → Option A
  update heap a value b = if b == a then value else heap b

abbrev pub send : Memory → Answer → Memory
send m answer = record m { sent = m.sent ++ answer ∷ [] }

abbrev pub new_table : Memory → PageTable → ℕ × Memory
new_table m t = (m.next, record m { tables = update m.tables m.next (some t); next = suc m.next })

abbrev pub new_page : Memory → Page → ℕ × Memory
new_page m p = (m.next, record m { pages = update m.pages m.next (some p); next = suc m.next })

abbrev pub new_frame : Memory → FramePage → ℕ × Memory
new_frame m f = (m.next, record m { frames = update m.frames m.next (some f); next = suc m.next })

abbrev pub write_page : Memory → ℕ → Page → Memory
write_page m a p = record m { pages = update m.pages a (some p) }

-- `free`, which is a fault at an address that is not allocated.
abbrev pub free_table : Memory → ℕ → Option Memory
free_table m a = do t ← m.tables a; some (record m { tables = update m.tables a none })

abbrev pub free_page : Memory → ℕ → Option Memory
free_page m a = do p ← m.pages a; some (record m { pages = update m.pages a none })

abbrev pub free_frame : Memory → ℕ → Option Memory
free_frame m a = do f ← m.frames a; some (record m { frames = update m.frames a none })

-- An `int` as an index of a list. A negative one is out of range.
abbrev pub index_of : ℤ → Option ℕ
index_of (pos n) = some n
index_of (negsuc n) = none
