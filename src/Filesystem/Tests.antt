-- ===== src/Filesystem/Tests.antt =====
-- Eight blocks, four of them for swap.
use old_so_tp.Prelude.{◌≡◌, some, [], ◌∷◌, arith}
use old_so_tp.Prelude.Int.{pos, wrap_int}
use old_so_tp.Commons.Reference.{reference}
use old_so_tp.Filesystem.{
  Config, block_at, greeting, reserve_swap_answer, reserve_swap_copy, start, serve,
}
use old_so_tp.Filesystem.Blocks.{serve-start}

abbrev config : Config
config = record { total_quantity_blocks = 8; swap_quantity_blocks = 4; block_size = 64 }

serve-start_example :
    serve reference config (1 ∷ 2 ∷ []) (start reference config)
    ≡ some (record {
      free_swap_blocks = 3 ∷ [];
      free_fat_blocks = 1 ∷ 2 ∷ 3 ∷ [];
      blocks_file = block_at (pos 64) ∷ block_at (pos 128) ∷ [];
      sent =
          greeting
          ∷ reserve_swap_answer (pos 12)
          ∷ reserve_swap_copy (pos 12)
          ∷ greeting
          ∷ reserve_swap_answer (pos 12)
          ∷ reserve_swap_copy (pos 12)
          ∷ [];
    })
unfolding wrap_int
serve-start_example = serve-start reference config (1 ∷ 2 ∷ []) (omega arith)
