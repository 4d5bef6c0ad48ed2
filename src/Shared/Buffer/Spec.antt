-- ===== src/Shared/Buffer/Spec.antt =====
-- The abstract view of a buffer: the bytes written so far, or those left to read.
use old_so_tp.Prelude.{
  ℕ, ◌+◌, ◌≤◌, ◌<◌, ◌^◌, ◌≡◌, Option, some, List, [], ◌∷◌, ◌++◌, ◌%◌, map, length, take, drop,
}
use old_so_tp.Prelude.Bytes.{to_bytes}
use old_so_tp.Prelude.CString.{CString}
use old_so_tp.Shared.Buffer.{Buffer, add_u32, default_buffer_size}

-- The largest `buffer_size` that a buffer of a 32-bit offset reaches.
abbrev pub max_size : ℕ
max_size = 2 ^ 32 + default_buffer_size

-- A buffer under construction: its allocation, and the bytes that were added.
pub record Holds (b : Buffer) (bytes : List ℕ) : Type 0 where
  pub sized : length b.stream ≡ b.buffer_size
  pub bounded : b.buffer_size ≤ max_size
  pub filled : b.offset ≡ length bytes
  pub fits : length bytes ≤ b.buffer_size
  pub written : take b.offset b.stream ≡ map some bytes

-- A received buffer: the bytes from the offset to the end.
pub record Remains (b : Buffer) (bytes : List ℕ) : Type 0 where
  pub within : b.offset ≤ length b.stream
  pub bounded : length b.stream < 2 ^ 32
  pub unread : drop b.offset b.stream ≡ map some bytes

-- The wire format: what each kind of value is as bytes.
abbrev pub string_bytes : CString → List ℕ
string_bytes s = to_bytes 4 (add_u32 (length s) 1) ++ (s ++ 0 ∷ [])

module _ {A : Type 0} where
  abbrev pub item_bytes : (A → List ℕ) → List A → List ℕ
  item_bytes enc [] = []
  item_bytes enc (x ∷ xs) = enc x ++ item_bytes enc xs

  abbrev pub list_bytes : (A → List ℕ) → List A → List ℕ
  list_bytes enc xs = to_bytes 4 (length xs % 2 ^ 32) ++ item_bytes enc xs

-- `w` adds exactly these bytes at the end, whatever the buffer holds.
pub record Appends (w : Buffer → Option Buffer) (cs : List ℕ) : Type 0 where
  pub at :
      (b : Buffer) (bs : List ℕ)
      → Holds b bs
      → length bs + length cs < 2 ^ 32
      → (b' : Buffer) × (w b ≡ some b') × Holds b' (bs ++ cs)

-- `r` returns the value and consumes exactly these bytes, whatever follows.
pub record Reads {A : Type 0} (r : Buffer → Option (A × Buffer)) (x : A) (cs : List ℕ)
    : Type 0 where
  pub at :
      (b : Buffer) (ds : List ℕ)
      → Remains b (cs ++ ds)
      → (b' : Buffer) × (r b ≡ some (x, b')) × Remains b' ds
