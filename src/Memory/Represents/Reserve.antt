-- ===== src/Memory/Represents/Reserve.antt =====
-- `reserve_swap_memory` adds a process to what the memory represents.
use old_so_tp.Prelude.{
  ℕ, zero, suc, ◌+◌, ◌≡◌, refl, ap, ◌∙◌, sym, subst, some, List, [], ◌∷◌, ◌++◌, map, arith, length,
  drop, get_elem?, get_elem?-lt, drop-get_elem?, drop_all, append-nil, append_assoc,
}
use old_so_tp.Prelude.Int.{ℤ}
use old_so_tp.Commons.{Commons}
use old_so_tp.Memory.State.{PageTable, Config, Memory, new_page, new_table}
use old_so_tp.Memory.Pages.Tables.{pages_loop, create_page_table}
use old_so_tp.Memory.Connection.{reserve_swap_memory}
use old_so_tp.Memory.Represents.{absent, position, PagesAre, TableIs, TablesAre, Represents}
use old_so_tp.Memory.Represents.Extends.{
  Extends, Extends-refl, Extends-trans, new_page-Extends, new_table-Extends, PagesAre-Keeps,
  Extends-Keeps, TablesAre-Keeps, PagesAre-snoc, TablesAre-snoc, update-same,
}

-- What the loop leaves: the memory `m'` with the pages behind those that were there.
record Built (config : Config) (m : Memory) (positions : List ℤ) (r : List ℕ × Memory)
    : Type 0 where
  extends : Extends m r.1
  pages_are : PagesAre r.1 r.0 positions

module _ (lib : Commons) (config : Config) where
  pages_loop_step :
      (left : ℕ) (m : Memory) (blocks : List ℕ) (i : ℕ) (pages : List ℕ) (block : ℕ)
      → get_elem? blocks i ≡ some block
      → pages_loop lib config (suc left) m blocks i pages
        ≡ pages_loop lib config left
            (new_page m (absent (position config block))).1
            blocks
            (suc i)
            (pages ++ m.next ∷ [])
  unfolding pages_loop
  pages_loop_step left m blocks i pages block e =
      rw (lib.list_get_lem blocks i) (rw e (rw (lib.list_add_lem pages m.next) refl))

  pages_loop-Built :
      (left : ℕ) (m : Memory) (blocks : List ℕ) (i : ℕ) (pages : List ℕ) (positions : List ℤ)
      → i + left ≡ length blocks
      → PagesAre m pages positions
      → (r : List ℕ × Memory) × (pages_loop lib config left m blocks i pages ≡ some r)
        × Built config m (positions ++ map (position config) (drop i blocks)) r
  unfolding pages_loop
  pages_loop-Built zero m blocks i pages positions inside h = (
    (pages, m),
    refl,
    record {
      extends = Extends-refl m;
      pages_are =
          subst (PagesAre m pages)
            (sym (
              ap (λ bs. positions ++ map (position config) bs) (drop_all blocks i (omega arith))
              ∙ append-nil positions))
            h;
    },
  )
  pages_loop-Built (suc left) m blocks i pages positions inside h =
      let (block, e) = get_elem?-lt blocks i (omega arith) in
      let z = position config block in
      let m1 = (new_page m (absent z)).1 in
      let x = new_page-Extends m (absent z) in
      let (r, f, b) =
        pages_loop-Built left m1 blocks (suc i) (pages ++ m.next ∷ []) (positions ++ z ∷ [])
          (omega arith)
          (PagesAre-snoc m1 pages positions m.next z
            (PagesAre-Keeps m m1 (Extends-Keeps m m1 x) pages positions h)
            (update-same m.pages m.next (some (absent z))) (omega arith)) in
      (
        r,
        pages_loop_step left m blocks i pages block e ∙ f,
        record {
          extends = Extends-trans m m1 r.1 x b.extends;
          pages_are =
              subst (PagesAre r.1 r.0)
                (append_assoc positions (z ∷ []) (map (position config) (drop (suc i) blocks))
                  ∙ ap (λ bs. positions ++ map (position config) bs)
                      (sym (drop-get_elem? blocks i block e)))
                b.pages_are;
        },
      )

  create_page_table-TableIs :
      (m : Memory) (pid : ℤ) (blocks : List ℕ)
      → (r : ℕ × Memory) × (create_page_table lib config m pid blocks ≡ some r)
        × Extends m r.1
        × TableIs r.1 r.0 pid (map (position config) blocks)
  unfolding create_page_table
  create_page_table-TableIs m pid blocks =
      let (r, e, b) =
        pages_loop-Built (lib.list_size blocks) m blocks 0 [] []
          (omega (arith, lib.list_size_lem blocks)) tt in
      let t : PageTable = record { pages = r.0; pid = pid } in
      let x = new_table-Extends r.1 t in
      (
        new_table r.1 t,
        rw e refl,
        Extends-trans m r.1 (new_table r.1 t).1 b.extends x,
        record {
          pages = r.0;
          table = update-same r.1.tables r.1.next (some t);
          below = omega arith;
          pages_are =
              PagesAre-Keeps r.1 (new_table r.1 t).1 (Extends-Keeps r.1 (new_table r.1 t).1 x) r.0
                (map (position config) blocks) b.pages_are;
        },
      )

  -- When the page tables represent a sequence of processes with the swap positions of their pages,
  -- and no frame is in use, `reserve_swap_memory` returns, sends nothing, and the page tables
  -- represent the sequence with the new process at its end, each of its blocks at the block times
  -- the page size as an `int`.
  pub reserve_swap_memory-Represents :
      (m : Memory) (swap : List (ℤ × List ℤ)) (pid : ℤ) (blocks : List ℕ)
      → Represents m swap
      → (m' : Memory) × (reserve_swap_memory lib config m pid blocks ≡ some m')
        × Represents m' (swap ++ (pid, map (position config) blocks) ∷ [])
        × (m'.sent ≡ m.sent)
  unfolding reserve_swap_memory
  reserve_swap_memory-Represents m swap pid blocks h =
      let (r, e, x, t) = create_page_table-TableIs m pid blocks in
      let m' = record r.1 { page_table_list = lib.list_add r.1.page_table_list r.0 } in
      (
        m',
        rw e refl,
        record {
          tables =
              subst (λ l. TablesAre m' l (swap ++ (pid, map (position config) blocks) ∷ []))
                (sym
                  (lib.list_add_lem r.1.page_table_list r.0 ∙ ap (λ l. l ++ r.0 ∷ []) x.same_list))
                (TablesAre-snoc m' m.page_table_list swap r.0 (pid, map (position config) blocks)
                  (TablesAre-Keeps m m'
                    (record { grows = x.grows; old_pages = x.old_pages; old_tables = x.old_tables })
                    m.page_table_list swap h.tables)
                  (record {
                    pages = t.pages;
                    table = t.table;
                    below = t.below;
                    pages_are =
                        PagesAre-Keeps r.1 m'
                          (record {
                            grows = omega arith;
                            old_pages = λ a b. refl;
                            old_tables = λ a b. refl;
                          })
                          t.pages (map (position config) blocks) t.pages_are;
                  }));
          no_frames = x.same_frames ∙ h.no_frames;
        },
        x.same_sent,
      )
