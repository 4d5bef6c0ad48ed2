-- ===== src/Shared/Process/Samples.antt =====
-- Connections for the examples of messages.
use old_so_tp.Prelude.{
  ℕ, zero, suc, ◌^◌, ◌≤◌, ◌<◌, ◌≡◌, refl, List, [], ◌∷◌, length, arith, replicate, All,
  length-replicate,
}
use old_so_tp.Prelude.Int.{pos}
use old_so_tp.Shared.Socket.{Event, chunk, Outgoing}
use old_so_tp.Shared.Socket.Send.{Accepts}
use old_so_tp.Shared.Socket.Receive.{incoming}
use old_so_tp.Shared.Process.Messages.{CanSend}

-- A connection that takes a whole message at once, as many as are sent.
abbrev pub socket : Outgoing
socket = record { answers = replicate 100 (pos 100); wire = [] }

accepting : (n : ℕ) → All Accepts (replicate n (pos 100))
accepting zero = tt
accepting (suc n) = (omega arith, accepting n)

pub can_send :
    (header size : ℕ) (bs : List ℕ)
    → header < 2 ^ 8
    → size ≤ 100
    → length bs ≤ 95
    → CanSend socket header size bs
can_send header size bs h n l = record {
  is_open = record {
    accepting = accepting 100;
    enough = omega (arith, length-replicate 100 (pos 100));
  };
  is_byte = h;
  size_fits = omega arith;
  countable = omega arith;
}

-- The first byte of a message, and the rest of it with what follows.
abbrev pub stream : List ℕ → List Event
stream [] = []
stream (b ∷ bs) = chunk b [] ∷ (stream bs)

pub incoming-stream : (bs : List ℕ) → incoming (stream bs) ≡ bs
incoming-stream [] = refl
incoming-stream (b ∷ bs) = rw (incoming-stream bs)
