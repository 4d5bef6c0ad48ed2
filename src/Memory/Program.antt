-- ===== src/Memory/Program.antt =====
-- memory/src/memory.c and handle_connection.c: the instructions of a process, which are the lines of
-- a file. A file is its text, without a zero byte.
pub mod Overflow
mod Tests
use old_so_tp.Prelude.{
  ℕ, zero, suc, Option, none, some, List, [], ◌∷◌, ◌>>=◌, ◌==◌, if◌then◌else◌, length, ltb,
}
use old_so_tp.Prelude.Int.{ℤ, pos, negsuc}
use old_so_tp.Prelude.CString.{CString, codes}
use old_so_tp.Shared.Instructions.{send_instruction}
use old_so_tp.Shared.Process.{Pcb}
use old_so_tp.Shared.Socket.{Outgoing}

-- At most `n` bytes of a line, its newline included, and the rest of the file.
unfoldable pub take_line : ℕ → CString → CString × CString
take_line zero file = ([], file)
take_line (suc n) [] = ([], [])
take_line (suc n) (c ∷ file) =
    let (line, rest) = take_line n file in if c == 10 then (c ∷ [], file) else (c ∷ line, rest)

-- `fgets` into a buffer of `suc n` bytes, which ends with a zero. At the end of the file the buffer
-- stays as it was.
unfoldable pub fgets : ℕ → CString → Option (CString × CString)
unfolding take_line
fgets n [] = none
fgets n (c ∷ file) = some (take_line n (c ∷ file))

-- What `fgets` writes, and a zero, in a block of a size: what does not fit overwrites the heap.
unfoldable pub stored : ℕ → CString → Option CString
stored size line = if ltb (length line) size then some line else none

-- The rounds that are left, the file from its position on, and `line_instruction`, the one byte that
-- `string_new` allocates.
unfoldable pub line_loop : ℕ → CString → CString → Option CString
unfolding fgets stored
line_loop zero file line_instruction = some line_instruction
line_loop (suc left) file line_instruction = elim (fgets 1023 file) [
  | none ↦ line_loop left file line_instruction
  | some (line, rest) ↦ (do
    line_instruction' ← stored 1 line
    line_loop left rest line_instruction')
]

-- The rounds of `i` from 0 to the counter.
abbrev pub rounds_up_to : ℤ → ℕ
rounds_up_to (pos n) = suc n
rounds_up_to (negsuc n) = 0

-- The newline that `strcspn` finds becomes the end.
unfoldable pub cut_newline : CString → CString
cut_newline [] = []
cut_newline (c ∷ cs) = let rest = cut_newline cs in if c == 10 then [] else c ∷ rest

-- A file that cannot be opened gives no value.
unfoldable pub get_instruction_from_file : Option CString → ℤ → Option CString
unfolding line_loop cut_newline
get_instruction_from_file none program_counter = none
get_instruction_from_file (some file) program_counter = do
  line_instruction ← line_loop (rounds_up_to program_counter) file []
  some (cut_newline line_instruction)

-- `string_append` of the library, and the files at their paths, are arguments.
module _ (string_append : CString → CString → CString) (files : CString → Option CString) where
  unfoldable pub handle_instruction : CString → Outgoing → Pcb → Option Outgoing
  handle_instruction instruction_path socket process_to_execute = do
    let path =
        string_append (string_append (string_append [] instruction_path) (codes "/"))
          process_to_execute.path
    instruction ← get_instruction_from_file (files path) process_to_execute.program_counter
    send_instruction socket instruction
