-- ===== src/Shared/Socket.antt =====
-- shared/src/sockets.c: whole transfers over calls that move a part, headers and packages.
-- The network answers each call: `send` by a count or an error, `recv` by what has arrived.
pub mod Send
pub mod Receive
pub mod Transfer
mod Tests
use old_so_tp.Prelude.{
  ℕ, zero, suc, ◌+◌, ◌-◌, ◌%◌, ◌^◌, Bool, true, false, Option, none, some, List, [], ◌∷◌, ◌++◌,
  ◌>>=◌, length, take, drop, min, ltb, leb, ◌==◌, if◌then◌else◌, replicate,
}
use old_so_tp.Prelude.Bytes.{to_bytes, of_bytes}
use old_so_tp.Prelude.Int.{ℤ, pos, negsuc, ltb_ℤ}
use old_so_tp.Shared.Buffer.{
  Cell, Buffer, Package, create_buffer, create_package, memcpy_in, memcpy_out, add_size,
}

-- What comes over a connection: bytes that arrive together, its end, or an error of `recv`.
pub data Event : Type 0 where
  chunk : ℕ → List ℕ → Event
  closed : Event
  failed : Event

-- The two directions of a socket: the answers that `send` will give with the bytes that are out,
-- and the events that `recv` will meet.
pub record Outgoing : Type 0 where
  pub answers : List ℤ
  pub wire : List ℕ

-- The result of `send_all` and the socket after it; `none` while `send` does not answer. The
-- answer `sent` is at most the size that was asked for.
unfoldable pub send_loop : List ℤ → List ℕ → List ℕ → Option (ℤ × Outgoing)
send_loop answers [] wire = some (pos 1, record { answers = answers; wire = wire })
send_loop [] (b ∷ bs) wire = none
send_loop (sent ∷ answers) (b ∷ bs) wire = elim sent [
  | pos zero ↦ some (pos zero, record { answers = answers; wire = wire })
  | pos (suc n) ↦ send_loop answers (drop (suc n) (b ∷ bs)) (wire ++ take (suc n) (b ∷ bs))
  | negsuc n ↦ some (negsuc n, record { answers = answers; wire = wire })
]

unfoldable pub send_all : Outgoing → List ℕ → Option (ℤ × Outgoing)
unfolding send_loop
send_all socket buffer = send_loop socket.answers buffer socket.wire

-- The result of `send_all` is dropped.
pub socket_send : Outgoing → List ℕ → Option Outgoing
socket_send socket source = do (result, socket') ← send_all socket source; some socket'

-- What a `recv` that took less than had arrived leaves for the next one.
abbrev left_over : List ℕ → List Event → List Event
left_over [] events = events
left_over (b ∷ bs) events = chunk b bs ∷ events

-- The destination is a block of memory with an index into it; `none` while nothing arrives, and
-- where the copy leaves the block.
-- `received` is a `size_t`, so only 0 passes the test `received <= 0`: -1, which `recv` returns on
-- an error, is 2^64 - 1 here, and is added to the pointer and taken from the size like a count.
pub recv_loop : List Event → List Cell → ℕ → ℕ → Option (ℕ × List Cell × List Event)
recv_loop events dest at zero = some (1, dest, events)
recv_loop [] dest at (suc size) = none
recv_loop (closed ∷ events) dest at (suc size) = some (0, dest, closed ∷ events)
recv_loop (failed ∷ events) dest at (suc size) =
    recv_loop events dest ((at + (2 ^ 64 - 1)) % 2 ^ 64)
      ((suc size + 2 ^ 64 - (2 ^ 64 - 1)) % 2 ^ 64)
recv_loop (chunk b bs ∷ events) dest at (suc size) =
    let rest = memcpy_in dest at (b ∷ bs) >>= λ d.
    recv_loop events d (add_size at (length (b ∷ bs))) (suc size - length (b ∷ bs)) in
    let last = memcpy_in dest at (take (suc size) (b ∷ bs)) >>= λ d.
    some (1, d, left_over (drop (suc size) (b ∷ bs)) events) in
    if leb (length (b ∷ bs)) (suc size) then rest else last

pub recv_all : List Event → List Cell → ℕ → Option (ℕ × List Cell × List Event)
unfolding recv_loop
recv_all events dest size = recv_loop events dest 0 size

-- Whether the bytes were received, and the destination.
pub socket_get : List Event → List Cell → ℕ → Option (Bool × List Cell × List Event)
socket_get events dest zero = some (true, dest, events)
socket_get events dest (suc size) = do
  (received, d, events') ← recv_all events dest (suc size)
  some (leb 1 received, d, events')

pub send_header : Outgoing → ℕ → Option Outgoing
send_header socket header = socket_send socket (to_bytes 1 header)

-- The result is dropped, so after a lost connection the header is an unwritten byte.
pub receive_header : List Event → Option (Cell × List Event)
receive_header events = do
  (got, d, events') ← socket_get events (none ∷ []) 1
  some (elim d [ [] ↦ none | c ∷ rest ↦ c ], events')

pub omit_header : List Event → Option (List Event)
omit_header events = do (got, d, events') ← socket_get events (none ∷ []) 1; some events'

pub send_package : Outgoing → Package → Option Outgoing
send_package socket pack = do
  s1 ← send_header socket pack.header
  s2 ← socket_send s1 (to_bytes 4 pack.payload.offset)
  bytes ← memcpy_out pack.payload.stream 0 pack.payload.offset
  socket_send s2 bytes

-- The inner `none` is the null pointer, after a lost connection.
receive_stream : List Event → ℕ → Option (Option Buffer × List Event)
receive_stream events size = do
  (got, stream, events') ← socket_get events (create_buffer size).stream size
  some (if got then some (record (create_buffer size) { stream = stream }) else none, events')

receive_sized : Bool → List Cell → List Event → Option (Option Buffer × List Event)
unfolding receive_stream
receive_sized false size events = some (none, events)
receive_sized true size events = do
  bytes ← memcpy_out size 0 4
  receive_stream events (of_bytes bytes)

pub receive_payload : List Event → Option (Option Buffer × List Event)
unfolding receive_sized
receive_payload events = do
  (got, size, events') ← socket_get events (replicate 4 none) 4
  receive_sized got size events'

pub receive_package : List Event → Option (Option (Cell × Buffer) × List Event)
unfolding receive_payload
receive_package events = do
  (header, e1) ← receive_header events
  (payload, e2) ← receive_payload e1
  some (elim payload [ none ↦ none | some b ↦ some (header, b) ], e2)
