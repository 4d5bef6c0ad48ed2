-- ===== src/Shared/Buffer/Tests.antt =====
-- Concrete buffers.
use old_so_tp.Prelude.{◌≡◌, refl, none, some, List, [], ◌∷◌, ◌++◌, arith, replicate, map}
use old_so_tp.Prelude.Bytes.{to_bytes}
use old_so_tp.Prelude.CString.{CString, codes}
use old_so_tp.Shared.Buffer.{Buffer, change_buffer_size}
use old_so_tp.Shared.Buffer.Spec.{Remains, string_bytes, list_bytes}
use old_so_tp.Shared.Buffer.Grow.{Grown, change_buffer_size-Grown}

abbrev small : Buffer
small = record { offset = 0; buffer_size = 4; stream = replicate 4 none }

change_buffer_size-Grown_example :
    (c : Buffer) × (change_buffer_size small 70 ≡ some c) × Grown small 70 c
change_buffer_size-Grown_example =
    change_buffer_size-Grown small 70 refl (omega arith) (omega arith) (omega arith)

abbrev names : List CString
names = codes "DISCO" ∷ codes "RED" ∷ []

abbrev received : Buffer
received = record {
  offset = 0;
  buffer_size = 24;
  stream = map some (list_bytes string_bytes names ++ 7 ∷ []);
}

received-Remains : Remains received (list_bytes string_bytes names ++ 7 ∷ [])
unfolding to_bytes
received-Remains = record { within = omega arith; bounded = omega arith; unread = refl }
