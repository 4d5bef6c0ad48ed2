-- ===== src/Shared/Buffer/RoundTrip.antt =====
-- What is added to a buffer is at its end, and what is taken from a received one is at its front:
-- strings and lists of them, in the wire format of Shared/Buffer/Spec.
use old_so_tp.Prelude.{ℕ, ◌+◌, ◌^◌, ◌<◌, ◌≡◌, some, List, ◌++◌, length, All}
use old_so_tp.Prelude.CString.{CString, IsCString}
use old_so_tp.Commons.{Commons}
use old_so_tp.Shared.Buffer.{
  Buffer, add_string_to_buffer, add_list_to_buffer, take_string_from_buffer, take_list_from_buffer,
}
use old_so_tp.Shared.Buffer.Spec.{Holds, Remains, string_bytes, list_bytes}
use old_so_tp.Shared.Buffer.Write.{add_string-Appends, add_list-Appends}
use old_so_tp.Shared.Buffer.Read.{take_string-Reads, take_list-Reads}

-- A string whose 32-bit length counts its terminator too.
abbrev pub IsShort : CString → Type 0
IsShort s = IsCString s × (length s + 1 < 2 ^ 32)

-- `add_list_to_buffer` with strings on a buffer of any content, when the 32-bit offset can count
-- the bytes, succeeds and leaves a well-formed buffer with the old bytes followed by the number of
-- strings and each string behind its length.
pub add_list-Holds :
    (lib : Commons) (names : List CString) (b : Buffer) (bs : List ℕ)
    → Holds b bs
    → length bs + length (list_bytes string_bytes names) < 2 ^ 32
    → (b' : Buffer) × (add_list_to_buffer lib b names add_string_to_buffer ≡ some b')
      × Holds b' (bs ++ list_bytes string_bytes names)
add_list-Holds lib names b bs h small =
    (add_list-Appends lib string_bytes add_string_to_buffer add_string-Appends names).at b bs h
      small

-- From a received buffer whose bytes begin with a list of fewer than 2^32 strings in the wire
-- format, each without a zero byte and with a 32-bit length, `take_list_from_buffer` reads an
-- equal list and leaves the bytes behind it.
pub take_list-Remains :
    (lib : Commons) (names : List CString) (b : Buffer) (ds : List ℕ)
    → All IsShort names
    → length names < 2 ^ 32
    → Remains b (list_bytes string_bytes names ++ ds)
    → (b' : Buffer) × (take_list_from_buffer lib b take_string_from_buffer ≡ some (names, b'))
      × Remains b' ds
take_list-Remains lib names b ds good small r =
    (take_list-Reads lib string_bytes take_string_from_buffer IsShort
        (λ s h. take_string-Reads s h.0 h.1) names good small).at
      b ds r
