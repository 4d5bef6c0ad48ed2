-- ===== src/Shared/Buffer.antt =====
-- shared/src/serialization.c: buffers that grow as values are added, and packages.
-- A stream is its allocated bytes; `none` is a byte that nothing has written yet. A step is `none`
-- where the code would touch memory that it does not own or read such a byte.
pub mod Spec
pub mod Copy
pub mod Grow
pub mod Write
pub mod Read
pub mod RoundTrip
mod Tests
use old_so_tp.Prelude.{
  ℕ, zero, suc, ◌+◌, ◌%◌, ◌^◌, Option, none, some, List, [], ◌∷◌, ◌++◌, map, ◌>>=◌, length, take,
  drop, replicate, ltb, leb, if◌then◌else◌,
}
use old_so_tp.Prelude.Bytes.{to_bytes, of_bytes}
use old_so_tp.Prelude.Int.{ℤ, to_word, of_word}
use old_so_tp.Prelude.CString.{CString, until_zero}
use old_so_tp.Commons.{Commons}

abbrev pub Cell : Type 0
Cell = Option ℕ

pub record Buffer : Type 0 where
  pub offset : ℕ
  pub buffer_size : ℕ
  pub stream : List Cell

pub record Package : Type 0 where
  pub header : ℕ
  pub payload : Buffer

abbrev pub default_buffer_size : ℕ
default_buffer_size = 64

-- `size_t` and `uint32_t` sums.
abbrev pub add_size : ℕ → ℕ → ℕ
add_size a b = (a + b) % 2 ^ 64

abbrev pub add_u32 : ℕ → ℕ → ℕ
add_u32 a b = (a + b) % 2 ^ 32

unfoldable pub create_buffer : ℕ → Buffer
create_buffer buffer_size = record {
  offset = 0;
  buffer_size = buffer_size;
  stream = replicate buffer_size none;
}

unfoldable pub create_package : ℕ → ℕ → Package
create_package header buffer_size = record { header = header; payload = create_buffer buffer_size }

-- The C library's `realloc` to `n` bytes, and `memcpy` to and from the stream at an offset.
abbrev pub realloc : List Cell → ℕ → List Cell
realloc s n = take n (s ++ replicate n none)

pub memcpy_in : List Cell → ℕ → List ℕ → Option (List Cell)
memcpy_in s at bytes =
    if leb (at + length bytes) (length s)
    then some (take at s ++ (map some bytes ++ drop (at + length bytes) s))
    else none

pub all_written : List Cell → Option (List ℕ)
all_written [] = some []
all_written (none ∷ cs) = none
all_written (some b ∷ cs) = elim (all_written cs) [ none ↦ none | some bs ↦ some (b ∷ bs) ]

pub memcpy_out : List Cell → ℕ → ℕ → Option (List ℕ)
memcpy_out s at n = if leb (at + n) (length s) then all_written (take n (drop at s)) else none

-- The body of the loop of `change_buffer_size`.
pub grow_once : Buffer → Buffer
grow_once b =
    let size = add_size b.buffer_size default_buffer_size in
    record b { buffer_size = size; stream = realloc b.stream size }

-- The loop with fuel for its rounds.
pub grow : ℕ → Buffer → ℕ → Option Buffer
grow zero b n = none
grow (suc fuel) b n =
    let rest = grow fuel (grow_once b) n in
    if ltb b.buffer_size (add_size b.offset n) then rest else some b

-- Each round adds a byte at least, so the bytes that are wanted bound the rounds.
pub change_buffer_size : Buffer → ℕ → Option Buffer
change_buffer_size b n = grow (suc (b.offset + n)) b n

pub add_to_buffer : Buffer → List ℕ → Option Buffer
add_to_buffer b bytes = do
  b' ← change_buffer_size b (length bytes)
  s ← memcpy_in b'.stream b'.offset bytes
  some (record b' { offset = add_u32 b'.offset (length bytes); stream = s })

pub add_int32_to_buffer : Buffer → ℤ → Option Buffer
add_int32_to_buffer b value = add_to_buffer b (to_bytes 4 (to_word value))

pub add_uint32_to_buffer : Buffer → ℕ → Option Buffer
add_uint32_to_buffer b value = add_to_buffer b (to_bytes 4 value)

pub add_uint8_to_buffer : Buffer → ℕ → Option Buffer
add_uint8_to_buffer b value = add_to_buffer b (to_bytes 1 value)

-- A double is carried as the number that its 8 bytes spell.
pub add_double_to_buffer : Buffer → ℕ → Option Buffer
add_double_to_buffer b value = add_to_buffer b (to_bytes 8 value)

-- The copy takes the terminating zero too.
pub add_string_to_buffer : Buffer → CString → Option Buffer
add_string_to_buffer b value = do
  b' ← add_uint32_to_buffer b (add_u32 (length value) 1)
  add_to_buffer b' (value ++ 0 ∷ [])

-- `*destination` is the null pointer or has room for the bytes, so the destination is no argument.
pub buffer_take : Buffer → ℕ → Option (List ℕ × Buffer)
buffer_take b n = do
  bytes ← memcpy_out b.stream b.offset n
  some (bytes, record b { offset = add_u32 b.offset n })

pub take_uint32_from_buffer : Buffer → Option (ℕ × Buffer)
take_uint32_from_buffer b = do (bytes, b') ← buffer_take b 4; some (of_bytes bytes, b')

pub take_int32_from_buffer : Buffer → Option (ℤ × Buffer)
take_int32_from_buffer b = do (bytes, b') ← buffer_take b 4; some (of_word (of_bytes bytes), b')

pub take_uint8_from_buffer : Buffer → Option (ℕ × Buffer)
take_uint8_from_buffer b = do (bytes, b') ← buffer_take b 1; some (of_bytes bytes, b')

pub take_double_from_buffer : Buffer → Option (ℕ × Buffer)
take_double_from_buffer b = do (bytes, b') ← buffer_take b 8; some (of_bytes bytes, b')

pub take_string_from_buffer : Buffer → Option (CString × Buffer)
take_string_from_buffer b = do
  (size, b1) ← take_uint32_from_buffer b
  (bytes, b2) ← buffer_take b1 size
  s ← until_zero bytes
  some (s, b2)

module _ (lib : Commons) {A : Type 0} where
  open lib use {list_size, list_add, list_iterate}

  pub add_list_to_buffer : Buffer → List A → (Buffer → A → Option Buffer) → Option Buffer
  add_list_to_buffer b xs add = do
    b' ← add_uint32_to_buffer b (list_size xs % 2 ^ 32)
    list_iterate xs (λ x s. add s x) b'

  pub take_items : ℕ → List A → (Buffer → Option (A × Buffer)) → Buffer → Option (List A × Buffer)
  take_items zero taken take_value b = some (taken, b)
  take_items (suc left) taken take_value b = do
    (x, b') ← take_value b
    take_items left (list_add taken x) take_value b'

  pub take_list_from_buffer : Buffer → (Buffer → Option (A × Buffer)) → Option (List A × Buffer)
  take_list_from_buffer b take_value = do
    (size, b') ← take_uint32_from_buffer b
    take_items size [] take_value b'
