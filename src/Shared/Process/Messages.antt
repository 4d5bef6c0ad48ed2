-- ===== src/Shared/Process/Messages.antt =====
-- Every message of the protocol arrives as it was sent.
use old_so_tp.Prelude.{
  ℕ, ◌+◌, ◌^◌, ◌≤◌, ◌<◌, ◌≡◌, ap, ◌∙◌, Option, some, List, [], ◌++◌, length, append_assoc,
  append-nil, arith,
}
use old_so_tp.Prelude.Bytes.{to_bytes}
use old_so_tp.Shared.Buffer.{Buffer, create_package, create_buffer}
use old_so_tp.Shared.Buffer.Spec.{Appends, Reads, max_size}
use old_so_tp.Shared.Buffer.Write.{create_buffer-Holds}
use old_so_tp.Shared.Socket.{Event, Outgoing, send_package, receive_header, receive_payload}
use old_so_tp.Shared.Socket.Send.{IsOpen}
use old_so_tp.Shared.Socket.Receive.{incoming}
use old_so_tp.Shared.Socket.Transfer.{
  package_bytes, send_package-sends, receive_header-incoming, receive_payload-Remains,
}
use old_so_tp.Shared.Process.{send_with, get_with}

send_with_steps :
    (s s' : Outgoing) (header size : ℕ) (add : Buffer → Option Buffer) (b : Buffer)
    → add (create_buffer size) ≡ some b
    → send_package s (record { header = header; payload = b }) ≡ some s'
    → send_with s header size add ≡ some s'
unfolding send_with create_package
send_with_steps s s' header size add b e f = rw e f

-- A message that is written goes out behind what was sent before.
pub send_with-sends :
    (s : Outgoing) (header size : ℕ) (add : Buffer → Option Buffer) (bs : List ℕ) (n : ℕ)
    → Appends add bs
    → size ≤ max_size
    → length bs < 2 ^ 32
    → IsOpen (5 + length bs + n) s
    → (s' : Outgoing) × (send_with s header size add ≡ some s')
      × (s'.wire ≡ s.wire ++ package_bytes header bs)
      × IsOpen n s'
send_with-sends s header size add bs n w fits small o =
    let (b, e, h) = w.at (create_buffer size) [] (create_buffer-Holds size fits) (omega arith) in
    let (s', f, wire, o') =
      send_package-sends s (record { header = header; payload = b }) bs n h o in
    (s', send_with_steps s s' header size add b e f, wire, o')

get_with_steps :
    {A : Type 0} (events events' : List Event) (take_value : Buffer → Option (A × Buffer))
    (b c : Buffer) (x : A)
    → receive_payload events ≡ some (some b, events')
    → take_value b ≡ some (x, c)
    → get_with take_value events ≡ some (x, events')
unfolding get_with
get_with_steps events events' take_value b c x e f = rw e (rw f)

-- The conditions on the connection and the sizes of a message.
pub record CanSend (s : Outgoing) (header size : ℕ) (bs : List ℕ) : Type 0 where
  pub is_open : IsOpen (5 + length bs) s
  pub is_byte : header < 2 ^ 8
  pub size_fits : size ≤ max_size
  pub countable : length bs < 2 ^ 32

module _ {A : Type 0} where
  -- What a receiver sees of a message at the head of its connection.
  pub record Arrives (take_value : Buffer → Option (A × Buffer)) (header : ℕ) (x : A)
      (later : List ℕ) (events : List Event) : Type 0 where
    pub after_header : List Event
    pub after_payload : List Event
    pub header_read : receive_header events ≡ some (some header, after_header)
    pub value_read : get_with take_value after_header ≡ some (x, after_payload)
    pub left : incoming after_payload ≡ later

  arrives :
      (take_value : Buffer → Option (A × Buffer)) (header : ℕ) (x : A) (bs later : List ℕ)
      (events : List Event)
      → Reads take_value x bs
      → header < 2 ^ 8
      → length bs < 2 ^ 32
      → incoming events ≡ package_bytes header bs ++ later
      → Arrives take_value header x later events
  arrives take_value header x bs later events r h small e =
      let e' : incoming events ≡ to_bytes 1 header ++ (to_bytes 4 (length bs) ++ (bs ++ later)) =
        e
        ∙ append_assoc (to_bytes 1 header) (to_bytes 4 (length bs) ++ bs) later
        ∙ ap (◌++◌ (to_bytes 1 header)) (append_assoc (to_bytes 4 (length bs)) bs later) in
      let (e1, g1, i1) = receive_header-incoming events header _ h e' in
      let (b, e2, g2, m, i2) = receive_payload-Remains e1 bs later small i1 in
      let (c, g3, _) = r.at b [] (rw append-nil m) in
      record {
        after_header = e1;
        after_payload = e2;
        header_read = g1;
        value_read = get_with_steps e1 e2 take_value b c x g2 g3;
        left = i2;
      }

  -- A message is out on the wire of the sender, and the receiver gets it.
  abbrev pub Delivers :
      Outgoing
      → Option Outgoing
      → (Buffer → Option (A × Buffer))
      → ℕ
      → A
      → List ℕ
      → List ℕ
      → List Event
      → Type 0
  Delivers s sent take_value header x bs later events =
      (s' : Outgoing) × (sent ≡ some s')
      × (s'.wire ≡ s.wire ++ package_bytes header bs)
      × Arrives take_value header x later events

  pub send_with-Delivers :
      (s : Outgoing) (header size : ℕ) (add : Buffer → Option Buffer)
      (take_value : Buffer → Option (A × Buffer)) (x : A) (bs later : List ℕ) (events : List Event)
      → CanSend s header size bs
      → incoming events ≡ package_bytes header bs ++ later
      → Appends add bs
      → Reads take_value x bs
      → Delivers s (send_with s header size add) take_value header x bs later events
  send_with-Delivers s header size add take_value x bs later events c i w r =
      let (s', e, wire, _) =
        send_with-sends s header size add bs 0 w c.size_fits c.countable (record {
          accepting = c.is_open.accepting;
          enough = let k = c.is_open.enough in omega arith;
        }) in
      (s', e, wire, arrives take_value header x bs later events r c.is_byte c.countable i)
