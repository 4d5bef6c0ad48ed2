-- ===== src/Memory/Represents/Extends.antt =====
-- Allocations keep what a memory represents.
use old_so_tp.Prelude.{ℕ, ◌≤◌, ◌<◌, ◌≡◌, refl, ◌∙◌, Option, some, List, [], ◌∷◌, ◌++◌, arith}
use old_so_tp.Prelude.Int.{ℤ}
use old_so_tp.Memory.State.{Page, PageTable, Memory, update, new_page, new_table}
use old_so_tp.Memory.Represents.{absent, PagesAre, TableIs, TablesAre}

module _ {A : Type 0} where
  update-below : (heap : ℕ → Option A) (a b : ℕ) (v : Option A) → b < a → update heap a v b ≡ heap b
  update-below heap a b v h = ground arith

  pub update-same : (heap : ℕ → Option A) (a : ℕ) (v : Option A) → update heap a v a ≡ v
  update-same heap a v = ground arith

-- What was allocated is unchanged.
pub record Keeps (m m' : Memory) : Type 0 where
  pub grows : m.next ≤ m'.next
  pub old_pages : (a : ℕ) → a < m.next → m'.pages a ≡ m.pages a
  pub old_tables : (a : ℕ) → a < m.next → m'.tables a ≡ m.tables a

-- So are the lists and what was sent.
pub record Extends (m m' : Memory) : Type 0 where
  pub grows : m.next ≤ m'.next
  pub old_pages : (a : ℕ) → a < m.next → m'.pages a ≡ m.pages a
  pub old_tables : (a : ℕ) → a < m.next → m'.tables a ≡ m.tables a
  pub same_list : m'.page_table_list ≡ m.page_table_list
  pub same_frames : m'.frames_used_list ≡ m.frames_used_list
  pub same_sent : m'.sent ≡ m.sent

pub Extends-Keeps : (m m' : Memory) → Extends m m' → Keeps m m'
Extends-Keeps m m' e = record {
  grows = e.grows;
  old_pages = e.old_pages;
  old_tables = e.old_tables;
}

pub Extends-refl : (m : Memory) → Extends m m
Extends-refl m = record {
  grows = omega arith;
  old_pages = λ a h. refl;
  old_tables = λ a h. refl;
  same_list = refl;
  same_frames = refl;
  same_sent = refl;
}

pub Extends-trans : (m m' m'' : Memory) → Extends m m' → Extends m' m'' → Extends m m''
Extends-trans m m' m'' e f = record {
  grows = omega arith;
  old_pages = λ a h. f.old_pages a (omega arith) ∙ e.old_pages a h;
  old_tables = λ a h. f.old_tables a (omega arith) ∙ e.old_tables a h;
  same_list = f.same_list ∙ e.same_list;
  same_frames = f.same_frames ∙ e.same_frames;
  same_sent = f.same_sent ∙ e.same_sent;
}

pub new_page-Extends : (m : Memory) (p : Page) → Extends m (new_page m p).1
new_page-Extends m p = record {
  grows = omega arith;
  old_pages = λ a h. update-below m.pages m.next a (some p) h;
  old_tables = λ a h. refl;
  same_list = refl;
  same_frames = refl;
  same_sent = refl;
}

pub new_table-Extends : (m : Memory) (t : PageTable) → Extends m (new_table m t).1
new_table-Extends m t = record {
  grows = omega arith;
  old_pages = λ a h. refl;
  old_tables = λ a h. update-below m.tables m.next a (some t) h;
  same_list = refl;
  same_frames = refl;
  same_sent = refl;
}

module _ (m m' : Memory) (e : Keeps m m') where
  pub PagesAre-Keeps :
      (pages : List ℕ) (positions : List ℤ)
      → PagesAre m pages positions
      → PagesAre m' pages positions
  PagesAre-Keeps [] [] h = tt
  PagesAre-Keeps [] (z ∷ positions) h = h
  PagesAre-Keeps (a ∷ pages) [] h = h
  PagesAre-Keeps (a ∷ pages) (z ∷ positions) h =
      let b : a < m.next = h.1 in
      let g = e.grows in (e.old_pages a b ∙ h.0, omega arith, PagesAre-Keeps pages positions h.2)

  pub TablesAre-Keeps :
      (tables : List ℕ) (swap : List (ℤ × List ℤ))
      → TablesAre m tables swap
      → TablesAre m' tables swap
  TablesAre-Keeps [] [] h = tt
  TablesAre-Keeps [] (p ∷ swap) h = h
  TablesAre-Keeps (a ∷ tables) [] h = h
  TablesAre-Keeps (a ∷ tables) (p ∷ swap) h =
      let t = h.0 in
      let g = e.grows in
      (
        record {
          pages = t.pages;
          table = e.old_tables a t.below ∙ t.table;
          below = let b = t.below in omega arith;
          pages_are = PagesAre-Keeps t.pages p.1 t.pages_are;
        },
        TablesAre-Keeps tables swap h.1,
      )

-- A page more, a table more.
pub PagesAre-snoc :
    (m : Memory) (pages : List ℕ) (positions : List ℤ) (a : ℕ) (z : ℤ)
    → PagesAre m pages positions
    → m.pages a ≡ some (absent z)
    → a < m.next
    → PagesAre m (pages ++ a ∷ []) (positions ++ z ∷ [])
PagesAre-snoc m [] [] a z h e b = (e, b, tt)
PagesAre-snoc m [] (y ∷ positions) a z h e b = absurd h
PagesAre-snoc m (x ∷ pages) [] a z h e b = absurd h
PagesAre-snoc m (x ∷ pages) (y ∷ positions) a z h e b =
    (h.0, h.1, PagesAre-snoc m pages positions a z h.2 e b)

pub TablesAre-snoc :
    (m : Memory) (tables : List ℕ) (swap : List (ℤ × List ℤ)) (a : ℕ) (p : ℤ × List ℤ)
    → TablesAre m tables swap
    → TableIs m a p.0 p.1
    → TablesAre m (tables ++ a ∷ []) (swap ++ p ∷ [])
TablesAre-snoc m [] [] a p h t = (t, tt)
TablesAre-snoc m [] (q ∷ swap) a p h t = absurd h
TablesAre-snoc m (x ∷ tables) [] a p h t = absurd h
TablesAre-snoc m (x ∷ tables) (q ∷ swap) a p h t = (h.0, TablesAre-snoc m tables swap a p h.1 t)
