-- ===== src/Memory/Represents/Requests.antt =====
-- GET_FRAME of a process that the memory represents.
use old_so_tp.Prelude.{
  ℕ, zero, suc, ◌<◌, ◌≡◌, refl, ◌∙◌, sym, subst, Option, none, some, List, [], ◌∷◌, ◌++◌, arith,
  length, drop, get_elem?, drop-eq-cons, Bool-cases, inl, inr, if◌then◌else◌,
}
use old_so_tp.Prelude.Int.{ℤ, pos, eq_int}
use old_so_tp.Commons.{Commons}
use old_so_tp.Shared.Process.{Pcb}
use old_so_tp.Memory.State.{Config, Memory, Answer, no_frame, send}
use old_so_tp.Memory.Pages.Tables.{table_loop, get_table_pages_by_pid}
use old_so_tp.Memory.Connection.{handle_get_frame}
use old_so_tp.Memory.Faults.{freed, get_table-freed}
use old_so_tp.Memory.Represents.{absent, PagesAre, TablesAre, Represents}

-- The swap positions of a process: those of the first entry with its id.
abbrev pub lookup_swap : List (ℤ × List ℤ) → ℤ → Option (List ℤ)
lookup_swap [] pid = none
lookup_swap (p ∷ swap) pid = if eq_int p.0 pid then some p.1 else lookup_swap swap pid

-- The table of the first entry.
pub record Finds (lib : Commons) (m : Memory) (pid : ℤ) (positions : List ℤ) (found : Option ℕ)
    : Type 0 where
  pub address : ℕ
  pub is_found : found ≡ some address
  pub pages : List ℕ
  pub own : ℤ
  pub table : m.tables address ≡ some (record { pages = pages; pid = own })
  pub pages_are : PagesAre m pages positions

PagesAre-get_elem? :
    (m : Memory) (pages : List ℕ) (positions : List ℤ) (n : ℕ)
    → PagesAre m pages positions
    → n < length positions
    → (a : ℕ) × (z : ℤ) × (get_elem? pages n ≡ some a) × (m.pages a ≡ some (absent z))
PagesAre-get_elem? m [] [] n h b = absurd (omega arith)
PagesAre-get_elem? m [] (z ∷ positions) n h b = absurd h
PagesAre-get_elem? m (a ∷ pages) [] n h b = absurd h
PagesAre-get_elem? m (a ∷ pages) (z ∷ positions) zero h b = (a, z, refl, h.0)
PagesAre-get_elem? m (a ∷ pages) (z ∷ positions) (suc n) h b =
    PagesAre-get_elem? m pages positions n h.2 (omega arith)

module _ (lib : Commons) where
  table_loop-Finds :
      (tables : List ℕ) (swap : List (ℤ × List ℤ)) (m : Memory) (i : ℕ) (pid : ℤ)
      (positions : List ℤ)
      → TablesAre m tables swap
      → drop i m.page_table_list ≡ tables
      → lookup_swap swap pid ≡ some positions
      → Finds lib m pid positions (table_loop lib (length tables) m i pid)
  unfolding table_loop
  table_loop-Finds [] [] m i pid positions h d e = cc
  table_loop-Finds [] (p ∷ swap) m i pid positions h d e = absurd h
  table_loop-Finds (a ∷ tables) [] m i pid positions h d e = absurd h
  table_loop-Finds (a ∷ tables) (p ∷ swap) m i pid positions h d e =
      let (g, rest) = drop-eq-cons m.page_table_list i a tables d in
      let t = h.0 in
      rw (lib.list_get_lem m.page_table_list i) (
        rw g (
          rw t.table (elim (Bool-cases (eq_int p.0 pid)) [
            | inl hit ↦
                let found : some p.1 ≡ some positions =
                  subst (λ c. (if c then some p.1 else lookup_swap swap pid) ≡ some positions) hit
                    e in
                let same : p.1 ≡ positions = cc in
                rw hit (record {
                  address = a;
                  is_found = refl;
                  pages = t.pages;
                  own = p.0;
                  table = t.table;
                  pages_are = subst (PagesAre m t.pages) same t.pages_are;
                })
            | inr miss ↦ rw miss (
                table_loop-Finds tables swap m (suc i) pid positions h.1 rest (
                  subst (λ c. (if c then some p.1 else lookup_swap swap pid) ≡ some positions) miss
                    e))
          ])))

  get_table-Finds :
      (m : Memory) (swap : List (ℤ × List ℤ)) (pid : ℤ) (positions : List ℤ)
      → Represents m swap
      → lookup_swap swap pid ≡ some positions
      → Finds lib m pid positions (get_table_pages_by_pid lib m pid)
  unfolding get_table_pages_by_pid
  get_table-Finds m swap pid positions h e =
      subst (λ n. Finds lib m pid positions (table_loop lib n m 0 pid))
        (sym (lib.list_size_lem m.page_table_list))
        (table_loop-Finds m.page_table_list swap m 0 pid positions h.tables refl e)

  table_loop-send :
      (left : ℕ) (m : Memory) (answer : Answer) (i : ℕ) (pid : ℤ)
      → table_loop lib left (send m answer) i pid ≡ table_loop lib left m i pid
  unfolding table_loop
  table_loop-send zero m answer i pid = refl
  table_loop-send (suc left) m answer i pid = rw (table_loop-send left m answer (suc i) pid) refl

  -- When the page tables represent the swap positions of the processes and no frame is in use,
  -- GET_FRAME for a page that the process has answers that the page has no frame, and the same
  -- request once more fails on freed memory: the first one freed the page table that is still in
  -- the list.
  pub handle_get_frame-no_frame :
      (config : Config) (m : Memory) (swap : List (ℤ × List ℤ)) (pcb : Pcb) (positions : List ℤ)
      (n : ℕ)
      → Represents m swap
      → lookup_swap swap pcb.pid ≡ some positions
      → pcb.table_pages ≡ pos n
      → n < length positions
      → (m' : Memory) × (handle_get_frame lib config m pcb ≡ some m')
        × (m'.sent ≡ m.sent ++ no_frame ∷ [])
        × (handle_get_frame lib config m' pcb ≡ none)
  unfolding handle_get_frame get_table_pages_by_pid
  handle_get_frame-no_frame config m swap pcb positions n h e asked below =
      let f = get_table-Finds m swap pcb.pid positions h e in
      let (a, z, at, page) = PagesAre-get_elem? m f.pages positions n f.pages_are below in
      let gone =
        get_table-freed lib (send m no_frame) pcb.pid f.address
          (table_loop-send (lib.list_size m.page_table_list) m no_frame 0 pcb.pid ∙ f.is_found) in
      (
        freed (send m no_frame) f.address,
        rw f.is_found (
            rw f.table
              (rw asked (rw (lib.list_get_lem f.pages n) (rw at (rw page (rw f.table refl)))))),
        refl,
        rw gone refl,
      )
