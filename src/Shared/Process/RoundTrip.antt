-- ===== src/Shared/Process/RoundTrip.antt =====
-- A control block in a buffer: `add_pcb_to_buffer` and `take_pcb_from_buffer`.
use old_so_tp.Prelude.{ℕ, ◌+◌, ◌^◌, ◌<◌, ◌≡◌, some, List, ◌++◌, length}
use old_so_tp.Commons.{Commons}
use old_so_tp.Shared.Buffer.{Buffer}
use old_so_tp.Shared.Buffer.Spec.{Holds, Remains}
use old_so_tp.Shared.Process.{Pcb, add_pcb_to_buffer, take_pcb_from_buffer}
use old_so_tp.Shared.Process.Wire.{pcb_bytes, IsWire, add_pcb-Appends, take_pcb-Reads_same}

-- `add_pcb_to_buffer` on a buffer of any content, when the 32-bit offset can count the bytes,
-- succeeds and leaves a well-formed buffer with the old bytes followed by the wire format of the
-- control block.
pub add_pcb-Holds :
    (lib : Commons) (p : Pcb) (b : Buffer) (bs : List ℕ)
    → Holds b bs
    → length bs + length (pcb_bytes p) < 2 ^ 32
    → (b' : Buffer) × (add_pcb_to_buffer lib b p ≡ some b') × Holds b' (bs ++ pcb_bytes p)
add_pcb-Holds lib p b bs h small = (add_pcb-Appends lib p).at b bs h small

-- From a received buffer whose bytes begin with the wire format of a control block with fields in
-- the ranges of their C types, `take_pcb_from_buffer` reads an equal control block and leaves the
-- bytes behind it.
pub take_pcb-Remains :
    (lib : Commons) (p : Pcb) (b : Buffer) (ds : List ℕ)
    → IsWire p
    → Remains b (pcb_bytes p ++ ds)
    → (b' : Buffer) × (take_pcb_from_buffer lib b ≡ some (p, b')) × Remains b' ds
take_pcb-Remains lib p b ds w r = (take_pcb-Reads_same lib p w).at b ds r
