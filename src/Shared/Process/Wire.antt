-- ===== src/Shared/Process/Wire.antt =====
-- The wire format of a control block, and that it is read back as it was written.
use old_so_tp.Prelude.{ℕ, ◌+◌, ◌^◌, ◌<◌, ◌≡◌, subst, List, ◌++◌, length, All, arith}
use old_so_tp.Prelude.Bytes.{to_bytes}
use old_so_tp.Prelude.Int.{pos, IsInt, to_word, of_word, to_word-lt, of_word-to_word}
use old_so_tp.Prelude.CString.{CString, IsCString}
use old_so_tp.Commons.{Commons}
use old_so_tp.Shared.Buffer.{take_uint32_from_buffer, take_string_from_buffer}
use old_so_tp.Shared.Buffer.Spec.{string_bytes, list_bytes, Appends, Reads}
use old_so_tp.Shared.Buffer.Write.{
  Appends-then, add_uint32-Appends, add_int32-Appends, add_string-Appends, add_list-Appends,
}
use old_so_tp.Shared.Buffer.Read.{
  Reads-then, Reads-map, take_uint32-Reads, take_int32-Reads, take_string-Reads, take_list-Reads,
}
use old_so_tp.Shared.Process.{
  Pcb, Process, add_process_to_buffer, take_process_from_buffer, add_pcb_to_buffer,
  take_pcb_from_buffer,
}

abbrev pub pcb_bytes : Pcb → List ℕ
pcb_bytes p =
    to_bytes 4 (to_word p.pid)
    ++ (to_bytes 4 (to_word p.program_counter)
        ++ (to_bytes 4 (to_word p.quantum)
            ++ (to_bytes 4 (to_word p.size)
                ++ (list_bytes (to_bytes 4) p.cpu_register
                    ++ (list_bytes string_bytes p.resources
                        ++ (to_bytes 4 (to_word p.table_pages)
                            ++ (string_bytes p.path
                                ++ (to_bytes 4 (to_word (pos p.state))
                                    ++ to_bytes 4 (to_word p.client_socket)))))))))

abbrev pub IsWord : ℕ → Type 0
IsWord n = n < 2 ^ 32

-- A string that the 32-bit length on the wire can count.
abbrev pub IsText : CString → Type 0
IsText s = IsCString s × (length s + 1 < 2 ^ 32)

-- The ranges that the C types of the fields impose.
pub record IsWire (p : Pcb) : Type 0 where
  pub pid : IsInt p.pid
  pub program_counter : IsInt p.program_counter
  pub size : IsInt p.size
  pub quantum : IsInt p.quantum
  pub registers : All IsWord p.cpu_register
  pub register_count : length p.cpu_register < 2 ^ 32
  pub resources : All IsText p.resources
  pub resource_count : length p.resources < 2 ^ 32
  pub table_pages : IsInt p.table_pages
  pub path : IsText p.path
  pub state : p.state < 2 ^ 31
  pub client_socket : IsInt p.client_socket

pub add_process-Appends :
    (p : Process) → Appends (λ b. add_process_to_buffer b p) (string_bytes p.path)
unfolding add_process_to_buffer
add_process-Appends p = add_string-Appends p.path

pub take_process-Reads :
    (p : Process) → IsText p.path → Reads take_process_from_buffer p (string_bytes p.path)
unfolding take_process_from_buffer
take_process-Reads p h =
    Reads-map (λ path. record { path = path }) (take_string-Reads p.path h.0 h.1)

to_word_state : (n : ℕ) → n < 2 ^ 31 → to_word (pos n) ≡ n
unfolding to_word
to_word_state n h = omega arith

module _ (lib : Commons) where
  pub add_pcb-Appends : (p : Pcb) → Appends (λ b. add_pcb_to_buffer lib b p) (pcb_bytes p)
  unfolding add_pcb_to_buffer
  add_pcb-Appends p = Appends-then (add_uint32-Appends _) (
      Appends-then (add_int32-Appends _) (
        Appends-then (add_int32-Appends _) (
          Appends-then (add_uint32-Appends _) (
            Appends-then (add_list-Appends lib _ _ add_uint32-Appends _) (
              Appends-then (add_list-Appends lib _ _ add_string-Appends _) (
                Appends-then (add_int32-Appends _) (
                  Appends-then (add_string-Appends _)
                    (Appends-then (add_int32-Appends _) (add_int32-Appends _)))))))))

  -- The fields as the receiver converts them.
  converted : Pcb → Pcb
  converted p = record p {
    pid = of_word (to_word p.pid);
    size = of_word (to_word p.size);
    state = to_word (pos p.state);
  }

  converted_lem : (p : Pcb) → IsWire p → converted p ≡ p
  unfolding converted
  converted_lem p w =
      rw (of_word-to_word p.pid w.pid)
        (rw (of_word-to_word p.size w.size) (rw (to_word_state p.state w.state)))

  take_pcb-Reads :
      (p : Pcb) → IsWire p → Reads (take_pcb_from_buffer lib) (converted p) (pcb_bytes p)
  unfolding take_pcb_from_buffer converted
  take_pcb-Reads p w = Reads-then _ (take_uint32-Reads (to_word p.pid) (to_word-lt p.pid)) (
      Reads-then _ (take_int32-Reads p.program_counter w.program_counter) (
        Reads-then _ (take_int32-Reads p.quantum w.quantum) (
          Reads-then _ (take_uint32-Reads (to_word p.size) (to_word-lt p.size)) (
            Reads-then _
              (take_list-Reads lib (to_bytes 4) take_uint32_from_buffer IsWord take_uint32-Reads
                p.cpu_register w.registers w.register_count)
              (Reads-then _
                (take_list-Reads lib string_bytes take_string_from_buffer IsText
                  (λ s h. take_string-Reads s h.0 h.1) p.resources w.resources w.resource_count)
                (Reads-then _ (take_int32-Reads p.table_pages w.table_pages) (
                  Reads-then _ (take_string-Reads p.path w.path.0 w.path.1) (
                    Reads-then _ (take_int32-Reads (pos p.state) (omega arith))
                      (Reads-map _ (take_int32-Reads p.client_socket w.client_socket))))))))))

  -- A control block is read back as it was written.
  pub take_pcb-Reads_same : (p : Pcb) → IsWire p → Reads (take_pcb_from_buffer lib) p (pcb_bytes p)
  take_pcb-Reads_same p w =
      subst (λ q. Reads (take_pcb_from_buffer lib) q (pcb_bytes p)) (converted_lem p w)
        (take_pcb-Reads p w)
