-- ===== src/Shared/Buffer/Grow.antt =====
-- The loop of `change_buffer_size`: it ends with room for the bytes, and keeps what was written.
use old_so_tp.Prelude.{
  ℕ, zero, suc, ◌+◌, ◌-◌, ◌^◌, ◌≤◌, ◌<◌, ◌≡◌, ◌∙◌, inl, inr, none, some, List, max, ◌++◌, arith,
  length, take, replicate, length-append, length-take, length-replicate, take-append, take-take,
  ltb, Bool-cases,
}
use old_so_tp.Shared.Buffer.{
  Buffer, Cell, realloc, grow_once, grow, change_buffer_size, default_buffer_size, add_size,
}
use old_so_tp.Shared.Buffer.Spec.{max_size}

pub length-realloc : (s : List Cell) (n : ℕ) → length (realloc s n) ≡ n
length-realloc s n = omega (
  arith,
  length-take n (s ++ replicate n none),
  length-append s (replicate n none),
  length-replicate {A = Cell} n none,
)

take-realloc : (s : List Cell) (k n : ℕ) → k ≤ length s → k ≤ n → take k (realloc s n) ≡ take k s
take-realloc s k n h g = take-take k n (s ++ replicate n none) g ∙ take-append k s _ h

-- What the loop promises: `c` is `b` with room for `n` bytes more.
pub record Grown (b : Buffer) (n : ℕ) (c : Buffer) : Type 0 where
  pub sized : length c.stream ≡ c.buffer_size
  pub bounded : c.buffer_size ≤ max_size
  pub same_offset : c.offset ≡ b.offset
  pub room : b.offset + n ≤ c.buffer_size
  pub kept : take b.offset c.stream ≡ take b.offset b.stream
  pub no_shrink : b.buffer_size ≤ c.buffer_size
  -- No round is run in vain.
  pub minimal : c.buffer_size ≤ max b.buffer_size (b.offset + n + default_buffer_size)

-- One more round in front of the loop.
Grown-grow_once :
    (b c : Buffer) (n : ℕ)
    → length b.stream ≡ b.buffer_size
    → b.buffer_size < b.offset + n
    → b.offset ≤ b.buffer_size
    → b.offset + n < 2 ^ 32
    → Grown (grow_once b) n c
    → Grown b n c
unfolding grow_once
Grown-grow_once b c n sized more within need g = record {
  sized = g.sized;
  bounded = g.bounded;
  same_offset = g.same_offset;
  room = g.room;
  kept =
      g.kept
      ∙ take-realloc b.stream b.offset (add_size b.buffer_size default_buffer_size) (omega arith)
          (omega arith);
  no_shrink = let h = g.no_shrink in omega arith;
  minimal = let h = g.minimal in omega arith;
}

grow_lem :
    (fuel : ℕ) (b : Buffer) (n : ℕ)
    → length b.stream ≡ b.buffer_size
    → b.buffer_size ≤ max_size
    → b.offset ≤ b.buffer_size
    → b.offset + n < 2 ^ 32
    → b.offset + n - b.buffer_size < fuel
    → (c : Buffer) × (grow fuel b n ≡ some c) × Grown b n c
unfolding grow grow_once
grow_lem zero b n sized small within need enough = elim enough [ ]
grow_lem (suc f) b n sized small within need enough =
    elim (Bool-cases (ltb b.buffer_size (add_size b.offset n))) [
      | inl more ↦
          let b' = grow_once b in
          let (c, e, g) =
            grow_lem f b' n (length-realloc b.stream b'.buffer_size) (ground arith) (ground arith)
              need (ground arith) in
          (c, rw more e, Grown-grow_once b c n sized (ground arith) within need g)
      | inr done ↦ (b, rw done, ground arith)
    ]

-- For a buffer whose offset is within its size and with `offset + n` below 2^32, the loop of
-- `change_buffer_size` ends with room for `n` bytes more, the same offset and the same bytes
-- before it, and has grown by no more rounds than it had to.
pub change_buffer_size-Grown :
    (b : Buffer) (n : ℕ)
    → length b.stream ≡ b.buffer_size
    → b.buffer_size ≤ max_size
    → b.offset ≤ b.buffer_size
    → b.offset + n < 2 ^ 32
    → (c : Buffer) × (change_buffer_size b n ≡ some c) × Grown b n c
unfolding change_buffer_size
change_buffer_size-Grown b n sized small within need =
    grow_lem (suc (b.offset + n)) b n sized small within need (omega arith)
