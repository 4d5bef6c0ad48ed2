-- ===== src/Shared/Socket/Receive.antt =====
-- `recv_all` over a stream that arrives in pieces, and what it does where `recv` fails.
use old_so_tp.Prelude.{
  ℕ, zero, suc, ◌+◌, ◌-◌, ◌%◌, ◌^◌, ◌≤◌, ◌<◌, ◌≡◌, refl, sym, ap, ◌∙◌, inl, inr, true, none, some,
  List, [], ◌∷◌, ◌++◌, map, map-append, append_assoc, append-nil, arith, length, take, drop,
  length-take, length-append, take-append, take-append_ge, drop-append, drop-append_ge, leb,
  Bool-cases, leb→le,
}
use old_so_tp.Shared.Buffer.{Cell}
use old_so_tp.Shared.Buffer.Copy.{
  spliced, memcpy_in_lem, memcpy_in_fault, length-spliced, take-spliced,
}
use old_so_tp.Shared.Socket.{
  Event, chunk, closed, failed, left_over, recv_loop, recv_all, socket_get,
}

-- The bytes that arrive before the connection ends or fails.
abbrev pub incoming : List Event → List ℕ
incoming [] = []
incoming (chunk b bs ∷ events) = b ∷ (bs ++ incoming events)
incoming (closed ∷ events) = []
incoming (failed ∷ events) = []

incoming-left_over :
    (bs : List ℕ) (events : List Event) → incoming (left_over bs events) ≡ bs ++ incoming events
incoming-left_over [] events = refl
incoming-left_over (b ∷ bs) events = refl

-- What a whole transfer of `size` bytes to index `at` leaves.
pub record Received (events : List Event) (dest : List Cell) (at size : ℕ) (dest' : List Cell)
    (events' : List Event) : Type 0 where
  pub same_length : length dest' ≡ length dest
  pub stored : take (at + size) dest' ≡ take at dest ++ map some (take size (incoming events))
  pub rest : incoming events' ≡ drop size (incoming events)

-- A piece that fits whole, in front of the rest of the transfer.
Received-chunk :
    (bs : List ℕ) (events : List Event) (dest dest' : List Cell) (at size : ℕ)
    (events' : List Event)
    → (b : ℕ) → length (b ∷ bs) ≤ size
    → at + size ≤ length dest
    → Received events
        (spliced dest at (b ∷ bs))
        (at + length (b ∷ bs))
        (size - length (b ∷ bs))
        dest'
        events'
    → Received (chunk b bs ∷ events) dest at size dest' events'
Received-chunk bs events dest dest' at size events' b fits room r = record {
  same_length = r.same_length ∙ length-spliced dest at (b ∷ bs) (omega arith);
  stored =
      ap (λ n. take n dest') (omega arith)
      ∙ r.stored
      ∙ ap (λ s. s ++ map some (take (size - length (b ∷ bs)) (incoming events)))
          (take-spliced dest at (b ∷ bs) (omega arith))
      ∙ append_assoc (take at dest) (map some (b ∷ bs)) _
      ∙ ap (◌++◌ (take at dest))
          (sym (map-append some (b ∷ bs) (take (size - length (b ∷ bs)) (incoming events))))
      ∙ ap (λ s. take at dest ++ map some s)
          (sym (take-append_ge size (b ∷ bs) (incoming events) fits));
  rest = r.rest ∙ sym (drop-append_ge size (b ∷ bs) (incoming events) fits);
}

-- A piece that brings more than was wanted ends the transfer.
Received-last :
    (b : ℕ) (bs : List ℕ) (events : List Event) (dest : List Cell) (at size : ℕ)
    → size ≤ length (b ∷ bs)
    → at + size ≤ length dest
    → Received
        (chunk b bs ∷ events)
        dest
        at
        size
        (spliced dest at (take size (b ∷ bs)))
        (left_over (drop size (b ∷ bs)) events)
Received-last b bs events dest at size fits room = record {
  same_length = length-spliced dest at (take size (b ∷ bs)) (omega (arith, count));
  stored =
      ap (λ n. take n (spliced dest at (take size (b ∷ bs)))) (omega (arith, count))
      ∙ take-spliced dest at (take size (b ∷ bs)) (omega (arith, count))
      ∙ ap (λ s. take at dest ++ map some s)
          (sym (take-append size (b ∷ bs) (incoming events) fits));
  rest =
      incoming-left_over (drop size (b ∷ bs)) events
      ∙ sym (drop-append size (b ∷ bs) (incoming events) fits);
}
  where
    count : length (take size (b ∷ bs)) ≡ size
    count = omega (arith, length-take size (b ∷ bs))

recv_loop_lem :
    (events : List Event) (dest : List Cell) (at size : ℕ)
    → at + size ≤ length dest
    → length dest < 2 ^ 64
    → size ≤ length (incoming events)
    → (dest' : List Cell) × (events' : List Event) × (recv_loop events dest at size
        ≡ some (1, dest', events'))
      × Received events dest at size dest' events'
unfolding recv_loop
recv_loop_lem events dest at zero room small enough = (
  dest,
  events,
  refl,
  record {
    same_length = refl;
    stored = ap (λ n. take n dest) (omega arith) ∙ sym (append-nil (take at dest));
    rest = refl;
  },
)
recv_loop_lem [] dest at (suc size) room small enough = elim enough [ ]
recv_loop_lem (closed ∷ events) dest at (suc size) room small enough = elim enough [ ]
recv_loop_lem (failed ∷ events) dest at (suc size) room small enough = elim enough [ ]
recv_loop_lem (chunk b bs ∷ events) dest at (suc size) room small enough =
    elim (Bool-cases (leb (length (b ∷ bs)) (suc size))) [
      | inl fits ↦
          let k = leb→le _ _ fits in
          let (dest', events', e, r) =
            recv_loop_lem events (spliced dest at (b ∷ bs)) (at + length (b ∷ bs))
              (suc size - length (b ∷ bs))
              (omega (arith, length-spliced dest at (b ∷ bs) (omega arith)))
              (omega (arith, length-spliced dest at (b ∷ bs) (omega arith)))
              (omega (arith, length-append bs (incoming events))) in
          (
            dest',
            events',
            rw fits (
                rw (memcpy_in_lem dest at (b ∷ bs) (omega arith)) (
                  ap
                    (λ n.
                      recv_loop events (spliced dest at (b ∷ bs)) n (suc size - length (b ∷ bs)))
                    (omega arith)
                  ∙ e)),
            Received-chunk bs events dest dest' at (suc size) events' b k room r,
          )
      | inr more ↦ (
        spliced dest at (take (suc size) (b ∷ bs)),
        left_over (drop (suc size) (b ∷ bs)) events,
        rw more (
            rw (
              memcpy_in_lem dest at (take (suc size) (b ∷ bs))
                (omega (arith, length-take size bs)))),
        Received-last b bs events dest at (suc size) (ground arith) room,
      )
    ]

-- When at least `size` bytes arrive before the connection ends or fails, and the destination has
-- room for them, `recv_all` returns 1, has stored the first `size` of them in order, however they
-- are split into pieces, and leaves the others to arrive.
pub recv_all-Received :
    (events : List Event) (dest : List Cell) (size : ℕ)
    → size ≤ length dest
    → length dest < 2 ^ 64
    → size ≤ length (incoming events)
    → (dest' : List Cell) × (events' : List Event) × (recv_all events dest size
        ≡ some (1, dest', events'))
      × Received events dest 0 size dest' events'
unfolding recv_all
recv_all-Received events dest size room small enough =
    recv_loop_lem events dest 0 size (omega arith) small enough

pub socket_get-Received :
    (events : List Event) (dest : List Cell) (size : ℕ)
    → size ≤ length dest
    → length dest < 2 ^ 64
    → size ≤ length (incoming events)
    → (dest' : List Cell) × (events' : List Event) × (socket_get events dest size
        ≡ some (true, dest', events'))
      × Received events dest 0 size dest' events'
unfolding socket_get
socket_get-Received events dest zero room small enough =
    (dest, events, refl, record { same_length = refl; stored = refl; rest = refl })
socket_get-Received events dest (suc size) room small enough =
    let (dest', events', e, r) = recv_all-Received events dest (suc size) room small enough in
    (dest', events', rw e, r)

-- When `recv` fails after some bytes and before the last one, the loop of `recv_all` does not
-- report it: it goes on one byte further back, with one byte more to receive.
pub recv_loop-failed :
    (events : List Event) (dest : List Cell) (at size : ℕ)
    → 0 < at
    → at < 2 ^ 64
    → 0 < size
    → size + 1 < 2 ^ 64
    → recv_loop (failed ∷ events) dest at size ≡ recv_loop events dest (at - 1) (size + 1)
unfolding recv_loop
recv_loop-failed events dest at zero p lt q small = elim q [ ]
recv_loop-failed events dest at (suc size) p lt q small =
    ap (λ n. recv_loop events dest n ((suc size + 2 ^ 64 - (2 ^ 64 - 1)) % 2 ^ 64)) (omega arith)
    ∙ ap (recv_loop events dest (at - 1)) (omega arith)

recv_loop_fault :
    (b : ℕ) (bs : List ℕ) (events : List Event) (dest : List Cell) (at n : ℕ)
    → length dest ≤ at
    → recv_loop (chunk b bs ∷ events) dest at (suc n) ≡ none
unfolding recv_loop
recv_loop_fault b bs events dest at n d =
    ground (arith, memcpy_in_fault dest at (b ∷ bs), memcpy_in_fault dest at (b ∷ take n bs))

-- When `recv` fails on the first call of a transfer of at least one byte and another piece
-- arrives, `recv_all` goes on and copies the piece outside the destination.
pub recv_all-failed :
    (b : ℕ) (bs : List ℕ) (events : List Event) (dest : List Cell) (size : ℕ)
    → 0 < size
    → size + 1 < 2 ^ 64
    → length dest < 2 ^ 64
    → recv_all (failed ∷ chunk b bs ∷ events) dest size ≡ none
unfolding recv_all recv_loop
recv_all-failed b bs events dest zero p small d = elim p [ ]
recv_all-failed b bs events dest (suc size) p small d =
    ap (recv_loop (chunk b bs ∷ events) dest (2 ^ 64 - 1)) {y = suc (suc size)} (omega arith)
    ∙ recv_loop_fault b bs events dest (2 ^ 64 - 1) (suc size) (omega arith)
