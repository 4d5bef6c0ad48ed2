-- ===== src/Filesystem/Blocks.antt =====
-- The free blocks after some requests.
use old_so_tp.Prelude.{
  ℕ, zero, suc, ◌+◌, ◌-◌, ◌≤◌, ◌≡◌, refl, sym, ap, ◌∙◌, some, List, [], ◌∷◌, ◌++◌, map, length,
  replicate, take, drop, append_assoc, append-nil, arith,
}
use old_so_tp.Prelude.Int.{pos, pos_part, sub_ℕ, times, wrap_int}
use old_so_tp.Commons.{Commons}
use old_so_tp.Filesystem.{
  Config, Filesystem, Write, fat_entry, block_at, Sent, greeting, reserve_swap_answer,
  reserve_swap_copy, blocks_loop, initialize_free_blocks, open_fat, start, swap_loop, handle_swap,
  reserve_swap, handle_create_process, serve,
}

-- The numbers from the first on.
abbrev pub range : ℕ → ℕ → List ℕ
range a zero = []
range a (suc n) = a ∷ range (suc a) n

abbrev pub total : List ℕ → ℕ
total [] = 0
total (q ∷ qs) = q + total qs

-- The write that clears a block.
abbrev pub cleared : Config → ℕ → Write
cleared config block = block_at (wrap_int (times (pos block) config.block_size))

-- The file after the last of some requests, from the first free block on.
abbrev pub last_cleared : Config → ℕ → List Write → List ℕ → List Write
last_cleared config a file [] = file
last_cleared config a file (q ∷ qs) =
    last_cleared config (a + q) (map (cleared config) (range a q)) qs

abbrev pub answers : List ℕ → List Sent
answers [] = []
answers (q ∷ qs) = greeting ∷ reserve_swap_answer (pos 12) ∷ reserve_swap_copy (pos 12) ∷ answers qs

length-range : (a n : ℕ) → length (range a n) ≡ n
length-range a zero = refl
length-range a (suc n) = ap suc (length-range (suc a) n)

take-range : (a n q : ℕ) → q ≤ n → take q (range a n) ≡ range a q
take-range a n zero h = refl
take-range a zero (suc q) h = absurd (omega arith)
take-range a (suc n) (suc q) h = ap (◌∷◌ a) (take-range (suc a) n q (omega arith))

range_same : (a b n m : ℕ) → a ≡ b → n ≡ m → range a n ≡ range b m
range_same a b n m e f = ap (λ x. range x n) e ∙ ap (range b) f

drop-range : (a n q : ℕ) → q ≤ n → drop q (range a n) ≡ range (a + q) (n - q)
drop-range a n zero h = range_same a (a + 0) n (n - 0) (omega arith) (omega arith)
drop-range a zero (suc q) h = absurd (omega arith)
drop-range a (suc n) (suc q) h =
    drop-range (suc a) n q (omega arith)
    ∙ range_same (suc a + q) (a + suc q) (n - q) (suc n - suc q) (omega arith) (omega arith)

-- A file system whose free blocks of swap are the `n` from `a` on.
abbrev free_from : ℕ → ℕ → List ℕ → List Write → List Sent → Filesystem
free_from a n fat file sent = record {
  free_swap_blocks = range a n;
  free_fat_blocks = fat;
  blocks_file = file;
  sent = sent;
}

free_from_same :
    (a b n m : ℕ) (fat : List ℕ) (file : List Write) (sent sent' : List Sent)
    → a ≡ b
    → n ≡ m
    → sent ≡ sent'
    → some (free_from a n fat file sent) ≡ some (free_from b m fat file sent')
free_from_same a b n m fat file sent sent' e f g =
    ap (λ x. some (free_from x n fat file sent)) e
    ∙ ap (λ x. some (free_from b x fat file sent)) f
    ∙ ap (λ x. some (free_from b m fat file x)) g

module _ (lib : Commons) where
  blocks_loop-range : (n i : ℕ) (blocks : List ℕ) → blocks_loop lib n i blocks ≡ blocks ++ range i n
  unfolding blocks_loop
  blocks_loop-range zero i blocks = sym (append-nil blocks)
  blocks_loop-range (suc n) i blocks =
      blocks_loop-range n (suc i) (lib.list_add blocks i)
      ∙ ap (λ l. l ++ range (suc i) n) (lib.list_add_lem blocks i)
      ∙ append_assoc blocks (i ∷ []) (range (suc i) n)

  start-range :
      (config : Config)
      → let fat = pos_part (sub_ℕ config.total_quantity_blocks config.swap_quantity_blocks) in
        start lib config
        ≡ free_from 0 config.swap_quantity_blocks (range 1 (fat - 1)) (replicate fat fat_entry) []
  unfolding start open_fat initialize_free_blocks
  start-range config =
      let fat = pos_part (sub_ℕ config.total_quantity_blocks config.swap_quantity_blocks) in
      let swap = config.swap_quantity_blocks in
      ap
        (λ l. record (free_from 0 0 (blocks_loop lib (fat - 1) 1 []) (replicate fat fat_entry) []) {
          free_swap_blocks = l;
        })
        (blocks_loop-range (swap - 0) 0 [] ∙ range_same 0 0 (swap - 0) swap refl (omega arith))
      ∙ ap (λ l. free_from 0 swap l (replicate fat fat_entry) []) (blocks_loop-range (fat - 1) 1 [])

  swap_loop-cleared :
      (config : Config) (blocks : List ℕ) (file : List Write)
      → swap_loop lib (length blocks) config blocks file
        ≡ some ([], file ++ map (cleared config) blocks)
  unfolding swap_loop
  swap_loop-cleared config [] file = ap (λ f. some ([], f)) (sym (append-nil file))
  swap_loop-cleared config (b ∷ blocks) file = rw (lib.list_remove_lem (b ∷ blocks) 0) (
      swap_loop-cleared config blocks (file ++ cleared config b ∷ [])
      ∙ ap (λ f. some ([], f))
          (append_assoc file (cleared config b ∷ []) (map (cleared config) blocks)))

  handle_swap-cleared :
      (config : Config) (fs : Filesystem) (blocks : List ℕ)
      → handle_swap lib config fs blocks
        ≡ some ([], record fs { blocks_file = map (cleared config) blocks })
  unfolding handle_swap
  handle_swap-cleared config fs blocks =
      rw (lib.list_size_lem blocks) (rw (swap_loop-cleared config blocks []) refl)

  handle_create_process-range :
      (config : Config) (a n q : ℕ) (fat : List ℕ) (file : List Write) (sent : List Sent)
      → q ≤ n
      → handle_create_process lib config (free_from a n fat file sent) q
        ≡ some (
            free_from
              (a + q)
              (n - q)
              fat
              (map (cleared config) (range a q))
              (sent ++ answers (q ∷ [])))
  unfolding handle_create_process reserve_swap
  handle_create_process-range config a n q fat file sent h =
      rw (lib.list_take_and_remove_lem (range a n) q (let l = length-range a n in omega arith)) (
        rw (take-range a n q h) (
          rw (drop-range a n q h) (
            rw (handle_swap-cleared config (free_from (a + q) (n - q) fat file sent) (range a q))
              refl)))

  serve-range :
      (config : Config) (qs : List ℕ) (a n : ℕ) (fat : List ℕ) (file : List Write)
      (sent : List Sent)
      → total qs ≤ n
      → serve lib config qs (free_from a n fat file sent)
        ≡ some (
            free_from
              (a + total qs)
              (n - total qs)
              fat
              (last_cleared config a file qs)
              (sent ++ answers qs))
  unfolding serve
  serve-range config [] a n fat file sent h =
      free_from_same a (a + 0) n (n - 0) fat file sent (sent ++ []) (omega arith) (omega arith)
        (sym (append-nil sent))
  serve-range config (q ∷ qs) a n fat file sent h =
      rw (handle_create_process-range config a n q fat file sent (omega arith)) (
        serve-range config qs (a + q) (n - q) fat (map (cleared config) (range a q))
          (sent ++ answers (q ∷ [])) (omega arith)
        ∙ free_from_same (a + q + total qs) (a + (q + total qs)) (n - q - total qs)
            (n - (q + total qs)) fat (last_cleared config a file (q ∷ qs)) _ _ (omega arith)
            (omega arith) (append_assoc sent (answers (q ∷ [])) (answers qs)))

  -- For any sequence of requests for no more blocks of swap than there are, the file system
  -- answers each; after them the free blocks of swap are those behind the requested ones, each
  -- block is given out once and in order, the free blocks of the table are as at the start, the
  -- file has only the writes of the last request, and each answer is the number 12, sent twice.
  pub serve-start :
      (config : Config) (qs : List ℕ)
      → total qs ≤ config.swap_quantity_blocks
      → let fat = pos_part (sub_ℕ config.total_quantity_blocks config.swap_quantity_blocks) in
        serve lib config qs (start lib config)
        ≡ some (record {
          free_swap_blocks = range (total qs) (config.swap_quantity_blocks - total qs);
          free_fat_blocks = range 1 (fat - 1);
          blocks_file = last_cleared config 0 (replicate fat fat_entry) qs;
          sent = answers qs;
        })
  serve-start config qs h =
      let fat = pos_part (sub_ℕ config.total_quantity_blocks config.swap_quantity_blocks) in
      ap (serve lib config qs) (start-range config)
      ∙ serve-range config qs 0 config.swap_quantity_blocks (range 1 (fat - 1))
          (replicate fat fat_entry) [] h
      ∙ free_from_same (0 + total qs) (total qs) _ _ _ _ _ _ (omega arith) refl refl
