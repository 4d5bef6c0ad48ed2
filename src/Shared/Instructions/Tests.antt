-- ===== src/Shared/Instructions/Tests.antt =====
-- Instructions of a program.
use old_so_tp.Prelude.{ℕ, List, ◌≡◌, ◌≢◌, ◌↔◌, refl, ap, some, [], ◌∷◌, ◌++◌, map, arith}
use old_so_tp.Prelude.Bytes.{to_bytes}
use old_so_tp.Prelude.Int.{pos, negsuc, to_word}
use old_so_tp.Prelude.CString.{codes}
use old_so_tp.Commons.Reference.{reference}
use old_so_tp.Shared.Buffer.{Buffer, create_buffer, take_string_from_buffer}
use old_so_tp.Shared.Buffer.Spec.{Holds, Remains, string_bytes}
use old_so_tp.Shared.Buffer.Write.{create_buffer-Holds}
use old_so_tp.Shared.Instructions.{
  Instruction, InstructionType, sum_op, no_op, translate_instruction, add_instruction_to_buffer,
  take_instruction_from_buffer, send_instruction,
}
use old_so_tp.Shared.Instructions.Delivery.{send_instruction-Delivers}
use old_so_tp.Shared.Operation.{instruction, code_of}
use old_so_tp.Shared.Process.Messages.{Delivers}
use old_so_tp.Shared.Process.Samples.{socket, can_send, stream, incoming-stream}
use old_so_tp.Shared.Socket.Transfer.{package_bytes}
use old_so_tp.Shared.Instructions.Names.{spelling, translate_instruction-spelling}
use old_so_tp.Shared.Instructions.Wire.{instruction_bytes, received, take_instruction-Remains}

is_sum : InstructionType → ℕ
is_sum sum_op = 1
is_sum _ = 0

sum_op-no_op : sum_op ≢ no_op
unfolding is_sum
sum_op-no_op e = let zero_is_one : is_sum sum_op ≡ is_sum no_op = ap is_sum e in omega arith

translate_instruction-spelling_example :
    (translate_instruction (codes "SUM") ≡ sum_op) ↔ (codes "SUM" ≡ spelling sum_op)
translate_instruction-spelling_example =
    translate_instruction-spelling (codes "SUM") sum_op sum_op-no_op

abbrev jump : Instruction
jump = record { instruction_type = 3; params = pos 1 ∷ negsuc 1 ∷ [] }

abbrev on_wire : Buffer
on_wire = record {
  offset = 0;
  buffer_size = 14;
  stream = map some (instruction_bytes jump ++ 7 ∷ []);
}

on_wire-Remains : Remains on_wire (instruction_bytes jump ++ 7 ∷ [])
unfolding to_bytes to_word
on_wire-Remains = record { within = omega arith; bounded = omega arith; unread = refl }

take_instruction-Remains_example :
    (b' : Buffer) × (r' : Buffer) × (add_instruction_to_buffer reference (create_buffer 4) jump
      ≡ some b')
    × Holds b' (instruction_bytes jump)
    × (take_instruction_from_buffer reference on_wire ≡ some (received jump, r'))
    × Remains r' (7 ∷ [])
unfolding to_bytes to_word
take_instruction-Remains_example =
    take_instruction-Remains reference jump (create_buffer 4) [] (7 ∷ []) on_wire (omega arith)
      (omega arith) (create_buffer-Holds 4 (omega arith)) (omega arith) on_wire-Remains

abbrev arriving : List ℕ
arriving = package_bytes (code_of instruction) (string_bytes (codes "EXIT")) ++ 7 ∷ []

send_instruction-Delivers_example :
    Delivers socket
      (send_instruction socket (codes "EXIT"))
      take_string_from_buffer
      (code_of instruction)
      (codes "EXIT")
      (string_bytes (codes "EXIT"))
      (7 ∷ [])
      (stream arriving)
unfolding to_bytes code_of
send_instruction-Delivers_example =
    send_instruction-Delivers socket (codes "EXIT") (7 ∷ []) (stream arriving)
      (
        (
          omega arith,
          omega arith,
          (omega arith, omega arith, (omega arith, omega arith, (omega arith, omega arith, tt))),
        ),
        omega arith,
      )
      (can_send (code_of instruction) 5 (string_bytes (codes "EXIT")) (omega arith) (omega arith)
        (omega arith))
      (incoming-stream arriving)
