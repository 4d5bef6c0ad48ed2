-- ===== src/Shared/Socket/Transfer.antt =====
-- A package that is sent arrives with the bytes that its payload held.
use old_so_tp.Prelude.{
  ℕ, ◌+◌, ◌^◌, ◌≤◌, ◌<◌, ◌≡◌, refl, sym, ap, ◌∙◌, true, none, some, List, [], ◌∷◌, ◌++◌, map,
  append_assoc, arith, length, take, drop, replicate, length-append, length-map, length-replicate,
  take-append_all, drop-append_all, take_all,
}
use old_so_tp.Prelude.Bytes.{to_bytes, length-to_bytes, of_bytes-to_bytes_4}
use old_so_tp.Shared.Buffer.{Cell, Buffer, Package, create_buffer, memcpy_out}
use old_so_tp.Shared.Buffer.Spec.{Holds, Remains}
use old_so_tp.Shared.Buffer.Copy.{memcpy_out_start}
use old_so_tp.Shared.Socket.{
  Event, Outgoing, send_header, socket_send, send_package, socket_get, receive_header,
  receive_stream, receive_sized, receive_payload, receive_package,
}
use old_so_tp.Shared.Socket.Send.{IsOpen, socket_send-sends}
use old_so_tp.Shared.Socket.Receive.{incoming, socket_get-Received}

-- What a package is on the wire: its header, the length of the payload, the payload.
abbrev pub package_bytes : ℕ → List ℕ → List ℕ
package_bytes header bs = to_bytes 1 header ++ (to_bytes 4 (length bs) ++ bs)

send_package_steps :
    (s s1 s2 s3 : Outgoing) (p : Package) (bs : List ℕ)
    → socket_send s (to_bytes 1 p.header) ≡ some s1
    → socket_send s1 (to_bytes 4 p.payload.offset) ≡ some s2
    → memcpy_out p.payload.stream 0 p.payload.offset ≡ some bs
    → socket_send s2 bs ≡ some s3
    → send_package s p ≡ some s3
unfolding send_package send_header
send_package_steps s s1 s2 s3 p bs e1 e2 e3 e4 = rw e1 (rw e2 (rw e3 e4))

pub send_package-sends :
    (s : Outgoing) (p : Package) (bs : List ℕ) (n : ℕ)
    → Holds p.payload bs
    → IsOpen (5 + length bs + n) s
    → (s' : Outgoing) × (send_package s p ≡ some s')
      × (s'.wire ≡ s.wire ++ package_bytes p.header bs)
      × IsOpen n s'
send_package-sends s p bs n h o =
    let l1 = length-to_bytes 1 p.header in
    let l4 = length-to_bytes 4 p.payload.offset in
    let (s1, e1, w1, o1) =
      socket_send-sends s (to_bytes 1 p.header) (4 + length bs + n)
        (record { accepting = o.accepting; enough = let k = o.enough in omega arith }) in
    let (s2, e2, w2, o2) =
      socket_send-sends s1 (to_bytes 4 p.payload.offset) (length bs + n)
        (record { accepting = o1.accepting; enough = let k = o1.enough in omega arith }) in
    let (s3, e3, w3, o3) = socket_send-sends s2 bs n o2 in
    (
      s3,
      send_package_steps s s1 s2 s3 p bs e1 e2 whole e3,
      w3
          ∙ ap (λ w. w ++ bs)
              (w2
                ∙ ap (λ w. w ++ to_bytes 4 p.payload.offset) w1
                ∙ append_assoc s.wire (to_bytes 1 p.header) (to_bytes 4 p.payload.offset))
          ∙ append_assoc s.wire (to_bytes 1 p.header ++ to_bytes 4 p.payload.offset) bs
          ∙ ap (◌++◌ s.wire) (append_assoc (to_bytes 1 p.header) (to_bytes 4 p.payload.offset) bs)
          ∙ ap (λ m. s.wire ++ (to_bytes 1 p.header ++ (to_bytes 4 m ++ bs))) h.filled,
      o3,
    )
  where
    whole : memcpy_out p.payload.stream 0 p.payload.offset ≡ some bs
    whole =
        memcpy_out_start p.payload.stream p.payload.offset bs
          (let f = h.filled in let g = h.fits in let z = h.sized in omega arith) h.written

-- A block of memory that is filled exactly by the bytes that come next.
get_block :
    (events : List Event) (dest : List Cell) (cs rest : List ℕ)
    → incoming events ≡ cs ++ rest
    → length dest ≡ length cs
    → length cs < 2 ^ 32
    → (events' : List Event) × (socket_get events dest (length cs)
        ≡ some (true, map some cs, events'))
      × (incoming events' ≡ rest)
get_block events dest cs rest e l small =
    let enough : length cs ≤ length (incoming events) =
      omega (arith, ap length e, length-append cs rest) in
    let (dest', events', g, r) =
      socket_get-Received events dest (length cs) (omega arith) (omega arith) enough in
    let same : dest' ≡ map some cs =
      sym (take_all dest' (0 + length cs) (let k = r.same_length in omega arith))
      ∙ r.stored
      ∙ ap (λ bs. map some (take (length cs) bs)) e
      ∙ ap (map some) (take-append_all cs rest) in
    (
      events',
      g ∙ ap (λ d. some (true, d, events')) same,
      r.rest ∙ ap (drop (length cs)) e ∙ drop-append_all cs rest,
    )

stream-Remains :
    (bs : List ℕ)
    → length bs < 2 ^ 32
    → Remains (record (create_buffer (length bs)) { stream = map some bs }) bs
unfolding create_buffer
stream-Remains bs small = record {
  within = omega arith;
  bounded = omega (arith, length-map {B = Cell} bs some);
  unread = refl;
}

receive_stream_lem :
    (events events' : List Event) (bs : List ℕ)
    → socket_get events (create_buffer (length bs)).stream (length bs)
      ≡ some (true, map some bs, events')
    → receive_stream events (length bs)
      ≡ some (some (record (create_buffer (length bs)) { stream = map some bs }), events')
unfolding receive_stream
receive_stream_lem events events' bs e = rw e

receive_payload_steps :
    (events e1 e2 : List Event) (n : ℕ) (b : Buffer)
    → n < 2 ^ 32
    → socket_get events (replicate 4 none) 4 ≡ some (true, map some (to_bytes 4 n), e1)
    → receive_stream e1 n ≡ some (some b, e2)
    → receive_payload events ≡ some (some b, e2)
unfolding receive_payload receive_sized
receive_payload_steps events e1 e2 n b small s r = rw s (
    rw
      (memcpy_out_start (map some (to_bytes 4 n)) 4 (to_bytes 4 n)
        (omega (arith, length-map {B = Cell} (to_bytes 4 n) some, length-to_bytes 4 n))
        (take_all (map some (to_bytes 4 n)) 4
          (omega (arith, length-map {B = Cell} (to_bytes 4 n) some, length-to_bytes 4 n))))
      (rw (of_bytes-to_bytes_4 n small) r))

length-stream : (n : ℕ) → length (create_buffer n).stream ≡ n
unfolding create_buffer
length-stream n = length-replicate n none

-- However the stream is split, the received buffer holds the payload, ready to be read.
pub receive_payload-Remains :
    (events : List Event) (bs rest : List ℕ)
    → length bs < 2 ^ 32
    → incoming events ≡ to_bytes 4 (length bs) ++ (bs ++ rest)
    → (b : Buffer) × (events' : List Event) × (receive_payload events ≡ some (some b, events'))
      × Remains b bs
      × (incoming events' ≡ rest)
receive_payload-Remains events bs rest small e =
    let l = length-to_bytes 4 (length bs) in
    let (e1, g1, i1) =
      get_block events (replicate 4 none) (to_bytes 4 (length bs)) (bs ++ rest) e (sym l)
        (omega arith) in
    let (e2, g2, i2) =
      get_block e1 (create_buffer (length bs)).stream bs rest i1 (length-stream (length bs))
        small in
    (
      record (create_buffer (length bs)) { stream = map some bs },
      e2,
      receive_payload_steps events e1 e2 (length bs) _ small
          (ap (socket_get events (replicate 4 none)) (sym l) ∙ g1) (receive_stream_lem e1 e2 bs g2),
      stream-Remains bs small,
      i2,
    )

receive_header_step :
    (events e1 : List Event) (h : ℕ)
    → h < 2 ^ 8
    → socket_get events (none ∷ []) 1 ≡ some (true, map some (to_bytes 1 h), e1)
    → receive_header events ≡ some (some h, e1)
unfolding receive_header
receive_header_step events e1 h small s =
    rw s (unfold to_bytes in ap (λ n. some (some n, e1)) (omega arith))

pub receive_header-incoming :
    (events : List Event) (h : ℕ) (rest : List ℕ)
    → h < 2 ^ 8
    → incoming events ≡ to_bytes 1 h ++ rest
    → (events' : List Event) × (receive_header events ≡ some (some h, events'))
      × (incoming events' ≡ rest)
receive_header-incoming events h rest small e =
    let l = length-to_bytes 1 h in
    let (e1, g1, i1) = get_block events (none ∷ []) (to_bytes 1 h) rest e (sym l) (omega arith) in
    (
      e1,
      receive_header_step events e1 h small (ap (socket_get events (none ∷ [])) (sym l) ∙ g1),
      i1,
    )

receive_package_steps :
    (events e1 e2 : List Event) (h : ℕ) (b : Buffer)
    → receive_header events ≡ some (some h, e1)
    → receive_payload e1 ≡ some (some b, e2)
    → receive_package events ≡ some (some (some h, b), e2)
unfolding receive_package
receive_package_steps events e1 e2 h b p q = rw p (rw q)

-- For a payload that holds fewer than 2^32 bytes, a header of one byte and a connection that goes
-- on to take bytes, `send_package` puts header, length and payload behind what was sent before;
-- `receive_package` on incoming bytes that begin with these, however they are split, returns the
-- header and a buffer with exactly the payload left to read, and leaves what follows.
pub send_package-receive_package :
    (s : Outgoing) (p : Package) (bs later : List ℕ) (events : List Event)
    → Holds p.payload bs
    → p.header < 2 ^ 8
    → length bs < 2 ^ 32
    → IsOpen (5 + length bs) s
    → incoming events ≡ package_bytes p.header bs ++ later
    → (s' : Outgoing) × (send_package s p ≡ some s')
      × (s'.wire ≡ s.wire ++ package_bytes p.header bs)
      × (b : Buffer) × (events' : List Event) × (receive_package events
          ≡ some (some (some p.header, b), events'))
      × Remains b bs
      × (incoming events' ≡ later)
send_package-receive_package s p bs later events h header small o i =
    let (s', e, w, _) =
      send_package-sends s p bs 0 h
        (record { accepting = o.accepting; enough = let k = o.enough in omega arith }) in
    let i' : incoming events ≡ to_bytes 1 p.header ++ (to_bytes 4 (length bs) ++ (bs ++ later)) =
      i
      ∙ append_assoc (to_bytes 1 p.header) (to_bytes 4 (length bs) ++ bs) later
      ∙ ap (◌++◌ (to_bytes 1 p.header)) (append_assoc (to_bytes 4 (length bs)) bs later) in
    let (e1, g1, i1) = receive_header-incoming events p.header _ header i' in
    let (b, e2, g2, r, i2) = receive_payload-Remains e1 bs later small i1 in
    (s', e, w, b, e2, receive_package_steps events e1 e2 p.header b g1 g2, r, i2)
