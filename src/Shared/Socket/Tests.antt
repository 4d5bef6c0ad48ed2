-- ===== src/Shared/Socket/Tests.antt =====
-- Concrete transfers.
use old_so_tp.Prelude.{◌≡◌, refl, none, some, List, [], ◌∷◌, arith}
use old_so_tp.Prelude.Bytes.{to_bytes}
use old_so_tp.Prelude.Int.{ℤ, pos, negsuc}
use old_so_tp.Shared.Buffer.{Cell, Buffer, Package}
use old_so_tp.Shared.Buffer.Spec.{Remains}
use old_so_tp.Shared.Socket.{
  Event, chunk, failed, Outgoing, send_all, recv_all, send_package, receive_package, send_loop,
}
use old_so_tp.Shared.Socket.Send.{IsOpen, send_all-sends, Sent, send_all-Sent}
use old_so_tp.Shared.Socket.Receive.{incoming, Received, recv_all-Received, recv_all-failed}
use old_so_tp.Shared.Socket.Transfer.{package_bytes, send_package-receive_package}

-- A connection that takes one byte at a time.
abbrev slow : List ℤ
slow = pos 1 ∷ pos 1 ∷ pos 1 ∷ pos 1 ∷ pos 1 ∷ pos 1 ∷ pos 1 ∷ []

abbrev socket : Outgoing
socket = record { answers = slow; wire = [] }

send_all-sends_example :
    (s' : Outgoing) × (send_all socket (1 ∷ 2 ∷ 3 ∷ []) ≡ some (pos 1, s'))
    × (s'.wire ≡ 1 ∷ 2 ∷ 3 ∷ [])
    × IsOpen 4 s'
send_all-sends_example = send_all-sends socket (1 ∷ 2 ∷ 3 ∷ []) 4 (record {
  accepting = (
    omega arith,
    (omega arith, (omega arith, (omega arith, (omega arith, (omega arith, (omega arith, tt)))))),
  );
  enough = omega arith;
})

abbrev broken : Outgoing
broken = record { answers = pos 2 ∷ negsuc 0 ∷ []; wire = [] }

send_all-broken :
    send_all broken (1 ∷ 2 ∷ 3 ∷ []) ≡ some (negsuc 0, record { answers = []; wire = 1 ∷ 2 ∷ [] })
unfolding send_all send_loop
send_all-broken = refl

send_all-Sent_example :
    Sent [] (1 ∷ 2 ∷ 3 ∷ []) (negsuc 0) (record { answers = []; wire = 1 ∷ 2 ∷ [] })
send_all-Sent_example =
    send_all-Sent broken (record { answers = []; wire = 1 ∷ 2 ∷ [] }) (1 ∷ 2 ∷ 3 ∷ []) (negsuc 0)
      send_all-broken

abbrev pieces : List Event
pieces = chunk 1 (2 ∷ []) ∷ chunk 3 (4 ∷ []) ∷ []

abbrev room : List Cell
room = none ∷ none ∷ none ∷ []

recv_all-Received_example :
    (dest' : List Cell) × (events' : List Event) × (recv_all pieces room 3
      ≡ some (1, dest', events'))
    × Received pieces room 0 3 dest' events'
recv_all-Received_example =
    recv_all-Received pieces room 3 (omega arith) (omega arith) (omega arith)

recv_all-failed_example : recv_all (failed ∷ pieces) room 3 ≡ none
recv_all-failed_example =
    recv_all-failed 1 (2 ∷ []) (chunk 3 (4 ∷ []) ∷ []) room 3 (omega arith) (omega arith)
      (omega arith)

abbrev payload : Package
payload = record {
  header = 34;
  payload = record { offset = 2; buffer_size = 2; stream = some 8 ∷ some 9 ∷ [] };
}

send_package-receive_package_example :
    (s' : Outgoing) × (send_package socket payload ≡ some s')
    × (s'.wire ≡ package_bytes 34 (8 ∷ 9 ∷ []))
    × (b : Buffer) × (events' : List Event) × (receive_package
          (chunk 34 (2 ∷ 0 ∷ []) ∷ chunk 0 (0 ∷ 8 ∷ 9 ∷ 5 ∷ []) ∷ [])
        ≡ some (some (some 34, b), events'))
    × Remains b (8 ∷ 9 ∷ [])
    × (incoming events' ≡ 5 ∷ [])
unfolding to_bytes
send_package-receive_package_example =
    send_package-receive_package socket payload (8 ∷ 9 ∷ []) (5 ∷ [])
      (chunk 34 (2 ∷ 0 ∷ []) ∷ chunk 0 (0 ∷ 8 ∷ 9 ∷ 5 ∷ []) ∷ [])
      (record {
        sized = refl;
        bounded = omega arith;
        filled = refl;
        fits = omega arith;
        written = refl;
      })
      (omega arith) (omega arith)
      (record {
        accepting = (
          omega arith,
          (
            omega arith,
            (omega arith, (omega arith, (omega arith, (omega arith, (omega arith, tt))))),
          ),
        );
        enough = omega arith;
      })
      refl
