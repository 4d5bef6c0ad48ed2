-- ===== src/Filesystem.antt =====
-- old/filesystem/src: the free blocks, and the reservation of swap. The functions that read and
-- write a value of a file are not modelled.
pub mod Blocks
mod Tests
use old_so_tp.Prelude.{
  ℕ, zero, suc, ◌+◌, ◌-◌, Option, none, some, List, [], ◌∷◌, ◌++◌, ◌>>=◌, replicate, ltb,
  if◌then◌else◌,
}
use old_so_tp.Prelude.Int.{ℤ, pos, pos_part, sub_ℕ, times, wrap_int}
use old_so_tp.Commons.{Commons}

-- The numbers of the configuration that are used. None is negative.
pub record Config : Type 0 where
  pub total_quantity_blocks : ℕ
  pub swap_quantity_blocks : ℕ
  pub block_size : ℕ

-- A write to the file of blocks: a word of the table, or a block at an offset. What a block holds is
-- left out: the code takes its bytes from behind a string of two.
pub data Write : Type 0 where
  fat_entry : Write
  block_at : ℤ → Write

-- What is sent to the memory: the header FILESYSTEM on a new connection, and a number under the
-- header RESERVE_SWAP, on that connection and on the socket 4.
pub data Sent : Type 0 where
  greeting : Sent
  reserve_swap_answer reserve_swap_copy : ℤ → Sent

-- `blocks_file` has the writes since the file was opened last, which empties it.
pub record Filesystem : Type 0 where
  pub free_swap_blocks : List ℕ
  pub free_fat_blocks : List ℕ
  pub blocks_file : List Write
  pub sent : List Sent

module _ (lib : Commons) where
  open lib use {list_add, list_size, list_remove, list_take_and_remove}

  -- The rounds that are left and the index.
  unfoldable pub blocks_loop : ℕ → ℕ → List ℕ → List ℕ
  blocks_loop zero i free_blocks = free_blocks
  blocks_loop (suc left) i free_blocks = blocks_loop left (suc i) (list_add free_blocks i)

  unfoldable pub initialize_free_blocks : ℕ → ℤ → List ℕ → List ℕ
  unfolding blocks_loop
  initialize_free_blocks start quantity free_blocks =
      blocks_loop (pos_part quantity - start) start free_blocks

  unfoldable pub open_fat : Config → Filesystem → Filesystem
  unfolding initialize_free_blocks
  open_fat config fs =
      let fat_quantity = sub_ℕ config.total_quantity_blocks config.swap_quantity_blocks in
      record fs {
        free_swap_blocks =
            initialize_free_blocks 0 (pos config.swap_quantity_blocks) fs.free_swap_blocks;
        free_fat_blocks = initialize_free_blocks 1 fat_quantity fs.free_fat_blocks;
        blocks_file = replicate (pos_part fat_quantity) fat_entry;
      }

  -- `main`, up to the connections.
  unfoldable pub start : Config → Filesystem
  unfolding open_fat
  start config =
      open_fat config
        (record { free_swap_blocks = []; free_fat_blocks = []; blocks_file = []; sent = [] })

  unfoldable pub swap_loop : ℕ → Config → List ℕ → List Write → Option (List ℕ × List Write)
  swap_loop zero config swap_blocks file = some (swap_blocks, file)
  swap_loop (suc left) config swap_blocks file = do
    let (removed, rest) = list_remove swap_blocks 0
    swap ← removed
    swap_loop left config rest
        (file ++ block_at (wrap_int (times (pos swap) config.block_size)) ∷ [])

  -- The list of the blocks is emptied.
  unfoldable pub handle_swap : Config → Filesystem → List ℕ → Option (List ℕ × Filesystem)
  unfolding swap_loop
  handle_swap config fs swap_blocks = do
    (left, file) ← swap_loop (list_size swap_blocks) config swap_blocks []
    some (left, record fs { blocks_file = file })

  unfoldable pub reserve_swap : Config → Filesystem → ℕ → Option (List ℕ × Filesystem)
  unfolding handle_swap
  reserve_swap config fs reserve_quantity = do
    let (swap_blocks, rest) = list_take_and_remove fs.free_swap_blocks reserve_quantity
    handle_swap config (record fs { free_swap_blocks = rest }) swap_blocks

  -- The blocks are not sent. The answer is always 12.
  unfoldable pub handle_create_process : Config → Filesystem → ℕ → Option Filesystem
  unfolding reserve_swap
  handle_create_process config fs reserve_quantity = do
    (swap_blocks, fs') ← reserve_swap config fs reserve_quantity
    some (record fs' {
      sent = fs'.sent ++ greeting ∷ reserve_swap_answer (pos 12) ∷ reserve_swap_copy (pos 12) ∷ [];
    })

  -- The requests of one connection after the other.
  unfoldable pub serve : Config → List ℕ → Filesystem → Option Filesystem
  unfolding handle_create_process
  serve config [] fs = some fs
  serve config (quantity ∷ quantities) fs = do
    fs' ← handle_create_process config fs quantity
    serve config quantities fs'
