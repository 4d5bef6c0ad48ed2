-- ===== src/Shared/Process/Delivery.antt =====
-- What the kernel reads from a message is what was sent: control blocks and requests.
use old_so_tp.Prelude.{ℕ, ◌≡◌, Option, some, List, ◌++◌, ◌>>=◌}
use old_so_tp.Prelude.Bytes.{to_bytes}
use old_so_tp.Prelude.Int.{ℤ, IsInt, to_word}
use old_so_tp.Prelude.CString.{CString}
use old_so_tp.Commons.{Commons}
use old_so_tp.Shared.Buffer.{Buffer, take_int32_from_buffer, take_string_from_buffer}
use old_so_tp.Shared.Buffer.Spec.{string_bytes}
use old_so_tp.Shared.Buffer.Write.{Appends-then, add_int32-Appends, add_string-Appends}
use old_so_tp.Shared.Buffer.Read.{Reads-then, Reads-map, take_int32-Reads, take_string-Reads}
use old_so_tp.Shared.Socket.{Event, Outgoing}
use old_so_tp.Shared.Socket.Receive.{incoming}
use old_so_tp.Shared.Socket.Transfer.{package_bytes}
use old_so_tp.Shared.Process.{
  Pcb, Sizes, send_pcb, send_sleep, send_pcb_and_resource, take_pcb_from_buffer,
}
use old_so_tp.Shared.Process.Wire.{pcb_bytes, IsText, IsWire, add_pcb-Appends, take_pcb-Reads_same}
use old_so_tp.Shared.Process.Messages.{CanSend, Delivers, send_with-Delivers}

-- The payload of a request for a resource, and of a sleep, as the kernel reads them.
module _ (lib : Commons) where
  abbrev pub take_request : Buffer → Option ((Pcb × CString) × Buffer)
  take_request b = do
    (pcb, b1) ← take_pcb_from_buffer lib b
    (resource, b2) ← take_string_from_buffer b1
    some ((pcb, resource), b2)

  abbrev pub take_sleep : Buffer → Option ((Pcb × ℤ) × Buffer)
  take_sleep b = do
    (pcb, b1) ← take_pcb_from_buffer lib b
    (time, b2) ← take_int32_from_buffer b1
    some ((pcb, time), b2)

module _ (lib : Commons) (sizes : Sizes) (s : Outgoing) (header : ℕ) (pcb : Pcb) (w : IsWire pcb)
    (later : List ℕ) (events : List Event) where
  -- For a control block in the ranges of its C types and a connection that goes on to take bytes,
  -- `send_pcb` puts `package_bytes` of it on the wire; a receiver whose incoming bytes begin with
  -- these, in pieces of any size, reads the header and an equal control block, and leaves what
  -- follows.
  pub send_pcb-Delivers :
      CanSend s header sizes.pcb_size (pcb_bytes pcb)
      → incoming events ≡ package_bytes header (pcb_bytes pcb) ++ later
      → Delivers s
          (send_pcb lib sizes s header pcb)
          (take_pcb_from_buffer lib)
          header
          pcb
          (pcb_bytes pcb)
          later
          events
  unfolding send_pcb
  send_pcb-Delivers c i =
      send_with-Delivers s header sizes.pcb_size _ _ pcb (pcb_bytes pcb) later events c i
        (add_pcb-Appends lib pcb) (take_pcb-Reads_same lib pcb w)

  -- For a control block and a name in the ranges of their C types, and a connection that goes on
  -- to take bytes, `send_pcb_and_resource` puts `package_bytes` of them on the wire; a receiver
  -- whose incoming bytes begin with these, in pieces of any size, reads the header, an equal
  -- control block and the same name, and leaves what follows.
  pub send_pcb_and_resource-Delivers :
      (resource : CString)
      → IsText resource
      → CanSend s header sizes.package_size (pcb_bytes pcb ++ string_bytes resource)
      → incoming events ≡ package_bytes header (pcb_bytes pcb ++ string_bytes resource) ++ later
      → Delivers s
          (send_pcb_and_resource lib sizes s header pcb resource)
          (take_request lib)
          header
          (pcb, resource)
          (pcb_bytes pcb ++ string_bytes resource)
          later
          events
  unfolding send_pcb_and_resource
  send_pcb_and_resource-Delivers resource t c i =
      send_with-Delivers s header sizes.package_size _ (take_request lib) (pcb, resource) _ later
        events c i (Appends-then (add_pcb-Appends lib pcb) (add_string-Appends resource))
        (Reads-then _ (take_pcb-Reads_same lib pcb w)
          (Reads-map (λ r. (pcb, r)) (take_string-Reads resource t.0 t.1)))

  -- For a control block and a time in the ranges of their C types and a connection that goes on to
  -- take bytes, `send_sleep` puts `package_bytes` of them on the wire; a receiver whose incoming
  -- bytes begin with these, in pieces of any size, reads the header, an equal control block and
  -- the same time, and leaves what follows.
  pub send_sleep-Delivers :
      (sleep_time : ℤ)
      → IsInt sleep_time
      → CanSend s header sizes.sleep_size (pcb_bytes pcb ++ to_bytes 4 (to_word sleep_time))
      → incoming events
        ≡ package_bytes header (pcb_bytes pcb ++ to_bytes 4 (to_word sleep_time)) ++ later
      → Delivers s
          (send_sleep lib sizes s header pcb sleep_time)
          (take_sleep lib)
          header
          (pcb, sleep_time)
          (pcb_bytes pcb ++ to_bytes 4 (to_word sleep_time))
          later
          events
  unfolding send_sleep
  send_sleep-Delivers sleep_time t c i =
      send_with-Delivers s header sizes.sleep_size _ (take_sleep lib) (pcb, sleep_time) _ later
        events c i (Appends-then (add_pcb-Appends lib pcb) (add_int32-Appends sleep_time))
        (Reads-then _ (take_pcb-Reads_same lib pcb w)
          (Reads-map (λ r. (pcb, r)) (take_int32-Reads sleep_time t)))
