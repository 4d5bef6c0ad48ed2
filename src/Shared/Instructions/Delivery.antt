-- ===== src/Shared/Instructions/Delivery.antt =====
-- Lists of instructions, and the text of an instruction from the memory to the CPU.
use old_so_tp.Prelude.{
  ℕ, zero, suc, ◌+◌, ◌≡◌, sym, ap, ◌∙◌, List, [], ◌∷◌, ◌++◌, length, replicate, get_elem?,
  append_assoc, append-nil, ◌==◌, if◌then◌else◌, inl, inr, Bool-cases,
}
use old_so_tp.Prelude.CString.{CString}
use old_so_tp.Commons.{Commons}
use old_so_tp.Shared.Operation.{instruction, code_of}
use old_so_tp.Shared.Buffer.{take_string_from_buffer}
use old_so_tp.Shared.Buffer.Spec.{string_bytes}
use old_so_tp.Shared.Buffer.Write.{add_string-Appends}
use old_so_tp.Shared.Buffer.Read.{take_string-Reads}
use old_so_tp.Shared.Socket.{Event, Outgoing}
use old_so_tp.Shared.Socket.Receive.{incoming}
use old_so_tp.Shared.Socket.Transfer.{package_bytes}
use old_so_tp.Shared.Process.Wire.{IsText}
use old_so_tp.Shared.Process.Messages.{CanSend, Delivers, send_with-Delivers}
use old_so_tp.Shared.Instructions.{
  Instruction, rounds, create_instruction, no_op_loop, add_instruction_to_list, send_instruction,
  type_code,
}

-- The instruction that a NO_OP is repeated as.
abbrev pub skip : Instruction
skip = record { instruction_type = 16; params = [] }

-- What an instruction adds to a program.
abbrev pub expansion : Instruction → List Instruction
expansion i =
    if i.instruction_type == 16 then replicate (rounds (get_elem? i.params 0)) skip else i ∷ []

module _ (lib : Commons) where
  no_op_loop-append : (n : ℕ) (l : List Instruction) → no_op_loop lib n l ≡ l ++ replicate n skip
  unfolding no_op_loop create_instruction type_code
  no_op_loop-append zero l = sym (append-nil l)
  no_op_loop-append (suc n) l =
      no_op_loop-append n (lib.list_add l skip)
      ∙ ap (λ k. k ++ replicate n skip) (lib.list_add_lem l skip)
      ∙ append_assoc l (skip ∷ []) (replicate n skip)

  -- `add_instruction_to_list` puts a NO_OP at the end of the list as many times as its first
  -- parameter says, none where that is missing or negative, and any other instruction once.
  pub add_instruction_to_list-append :
      (l : List Instruction) (i : Instruction) → add_instruction_to_list lib l i ≡ l ++ expansion i
  unfolding add_instruction_to_list type_code
  add_instruction_to_list-append l i = elim (Bool-cases (i.instruction_type == 16)) [
    | inl skips ↦
        rw skips
          (rw (lib.list_get_lem i.params 0) (no_op_loop-append (rounds (get_elem? i.params 0)) l))
    | inr other ↦ rw other (lib.list_add_lem l i)
  ]

-- Over a connection that takes the message, `send_instruction` sends a text without a zero byte,
-- whose length with its zero the wire format can count, and the receiver, to which what was sent
-- arrives with more behind it, in whatever pieces, reads the operation code and the text, and what
-- follows is left.
pub send_instruction-Delivers :
    (s : Outgoing) (text : CString) (later : List ℕ) (events : List Event)
    → IsText text
    → CanSend s (code_of instruction) (length text + 1) (string_bytes text)
    → incoming events ≡ package_bytes (code_of instruction) (string_bytes text) ++ later
    → Delivers s
        (send_instruction s text)
        take_string_from_buffer
        (code_of instruction)
        text
        (string_bytes text)
        later
        events
unfolding send_instruction
send_instruction-Delivers s text later events t c i =
    send_with-Delivers s (code_of instruction) (length text + 1) _ take_string_from_buffer text _
      later events c i (add_string-Appends text) (take_string-Reads text t.0 t.1)
