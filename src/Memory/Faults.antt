-- ===== src/Memory/Faults.antt =====
-- The requests that use freed memory or a null pointer: the second GET_FRAME of a process, and
-- a page fault while no frame is in use.
use old_so_tp.Prelude.{
  ℕ, zero, suc, ◌≡◌, refl, ap, ◌∙◌, sym, subst, Option, none, some, List, [], ◌>>=◌, Bool-cases,
  Option-cases, ==_iff, inl, inr, ◌==◌, if◌then◌else◌, get_elem?,
}
use old_so_tp.Prelude.Int.{ℤ, eq_int}
use old_so_tp.Commons.{Commons}
use old_so_tp.Shared.Process.{Pcb}
use old_so_tp.Memory.State.{Page, PageTable, Config, Memory, update, free_table}
use old_so_tp.Memory.Pages.Tables.{
  table_loop, get_table_pages_by_pid, delete_loop, delete_page_table,
}
use old_so_tp.Memory.Pages.Frames.{replace_page_fifo}
use old_so_tp.Memory.Connection.{requested_page, handle_page_fault}
use old_so_tp.Memory.Represents.Extends.{update-same}

-- A chain that ends in a fault, or began with one.
module _ {A B : Type 0} where
  pub bind-none :
      (m : Option A) (f : A → Option B) → ((a : A) → m ≡ some a → f a ≡ none) → (m >>= f) ≡ none
  bind-none none f h = refl
  bind-none (some a) f h = h a refl

  pub >>=-eq-some :
      (m : Option A) (f : A → Option B) (b : B)
      → (m >>= f) ≡ some b
      → (a : A) × (m ≡ some a) × (f a ≡ some b)
  >>=-eq-some none f b h = cc
  >>=-eq-some (some a) f b h = (a, refl, h)

-- A table that was freed.
abbrev pub freed : Memory → ℕ → Memory
freed m a = record m { tables = update m.tables a none }

module _ (lib : Commons) where
  table_loop_step :
      (left : ℕ) (m : Memory) (i : ℕ) (pid : ℤ) (b : ℕ) (t : PageTable)
      → get_elem? m.page_table_list i ≡ some b
      → m.tables b ≡ some t
      → table_loop lib (suc left) m i pid
        ≡ (if eq_int t.pid pid then some b else table_loop lib left m (suc i) pid)
  unfolding table_loop
  table_loop_step left m i pid b t e f =
      rw (lib.list_get_lem m.page_table_list i) (rw e (rw f refl))

  table_loop_fault :
      (left : ℕ) (m : Memory) (i : ℕ) (pid : ℤ) (b : ℕ)
      → get_elem? m.page_table_list i ≡ some b
      → m.tables b ≡ none
      → table_loop lib (suc left) m i pid ≡ none
  unfolding table_loop
  table_loop_fault left m i pid b e f = rw (lib.list_get_lem m.page_table_list i) (rw e (rw f refl))

  table_loop_end :
      (left : ℕ) (m : Memory) (i : ℕ) (pid : ℤ)
      → get_elem? m.page_table_list i ≡ none
      → table_loop lib (suc left) m i pid ≡ none
  unfolding table_loop
  table_loop_end left m i pid e = rw (lib.list_get_lem m.page_table_list i) (rw e refl)

  pass :
      (left : ℕ) (m : Memory) (i : ℕ) (pid : ℤ) (a b : ℕ) (t : PageTable)
      → get_elem? m.page_table_list i ≡ some b
      → m.tables b ≡ some t
      → table_loop lib (suc left) m i pid ≡ some a
      → (table_loop lib left m (suc i) pid ≡ some a
          → table_loop lib left (freed m a) (suc i) pid ≡ none)
      → table_loop lib (suc left) (freed m a) i pid ≡ none
  pass left m i pid a b t e f h ih =
      let s = sym (table_loop_step left m i pid b t e f) ∙ h in
      elim (Bool-cases (b == a)) [
        | inl same ↦ table_loop_fault left (freed m a) i pid b e (rw same refl)
        | inr other ↦
            let f' : (freed m a).tables b ≡ some t = rw other f in
            elim (Bool-cases (eq_int t.pid pid)) [
              | inl hit ↦
                  let s' : some b ≡ some a =
                    subst (λ c. (if c then some b else table_loop lib left m (suc i) pid) ≡ some a)
                      hit s in
                  let eq : b ≡ a = cc in let n = (==_iff b a).1 eq in cc
              | inr miss ↦
                  table_loop_step left (freed m a) i pid b t e f'
                  ∙ rw miss (
                      ih (
                        subst
                          (λ c. (if c then some b else table_loop lib left m (suc i) pid) ≡ some a)
                          miss s))
            ]
      ]

  pub table_loop-freed :
      (left : ℕ) (m : Memory) (i : ℕ) (pid : ℤ) (a : ℕ)
      → table_loop lib left m i pid ≡ some a
      → table_loop lib left (freed m a) i pid ≡ none
  unfolding table_loop
  table_loop-freed zero m i pid a h = cc
  table_loop-freed (suc left) m i pid a h = elim (Option-cases (get_elem? m.page_table_list i)) [
    | inl e ↦ table_loop_end left (freed m a) i pid e
    | inr (b, e) ↦ elim (Option-cases (m.tables b)) [
      | inl f ↦ let x = sym (table_loop_fault left m i pid b e f) ∙ h in cc
      | inr (t, f) ↦ pass left m i pid a b t e f h (table_loop-freed left m (suc i) pid a)
    ]
  ]

  pub get_table-freed :
      (m : Memory) (pid : ℤ) (a : ℕ)
      → get_table_pages_by_pid lib m pid ≡ some a
      → get_table_pages_by_pid lib (freed m a) pid ≡ none
  unfolding get_table_pages_by_pid
  get_table-freed m pid a h = table_loop-freed (lib.list_size m.page_table_list) m 0 pid a h

  -- The table that `delete_page_table` is about is freed when it returns.
  delete_page_table-freed :
      (m : Memory) (a : ℕ) (r : List ℤ × Memory)
      → delete_page_table lib m a ≡ some r
      → r.1.tables a ≡ none
  unfolding delete_page_table
  delete_page_table-freed m a r h =
      let (t, e, h1) = >>=-eq-some (m.tables a) _ r h in
      let (r1, e1, h2) =
        >>=-eq-some (delete_loop lib (lib.list_size t.pages) m t.pages 0 []) _ r h1 in
      let (m2, e2, h3) = >>=-eq-some (free_table r1.1 a) _ r h2 in
      let (t2, e3, h4) = >>=-eq-some (r1.1.tables a) _ m2 e2 in
      let same : freed r1.1 a ≡ m2 = cc in
      let same' : (r1.0, m2) ≡ r = cc in
      ap (λ p. p.1.tables a) (sym same')
      ∙ ap (λ n. n.tables a) (sym same)
      ∙ update-same r1.1.tables a none

  replace_page_fifo-none :
      (misused : Page → ℤ → Option Page) (config : Config) (m : Memory) (page : ℕ) (pid n : ℤ)
      → m.frames_used_list ≡ []
      → replace_page_fifo lib misused config m page pid n ≡ none
  unfolding replace_page_fifo
  replace_page_fifo-none misused config m page pid n empty =
      bind-none (lib.list_get m.frames_used_list 0) _ (λ a e.
        let x = sym (lib.list_get_lem m.frames_used_list 0 ∙ ap (λ l. get_elem? l 0) empty) ∙ e in
        cc)

  -- While no frame is in use, a page fault fails: the victim is looked for in an empty list.
  pub handle_page_fault-none :
      (misused : Page → ℤ → Option Page) (config : Config) (m : Memory) (pcb : Pcb)
      → m.frames_used_list ≡ []
      → handle_page_fault lib misused config m pcb ≡ none
  unfolding handle_page_fault
  handle_page_fault-none misused config m pcb empty =
      bind-none (requested_page lib m pcb) _
        (λ r e. rw (replace_page_fifo-none misused config m r.1 pcb.pid pcb.table_pages empty) refl)
