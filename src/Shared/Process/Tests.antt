-- ===== src/Shared/Process/Tests.antt =====
-- A concrete control block on the wire.
use old_so_tp.Prelude.{ℕ, refl, some, List, [], ◌∷◌, ◌++◌, arith, map}
use old_so_tp.Prelude.Int.{pos, negsuc, to_word}
use old_so_tp.Prelude.Bytes.{to_bytes}
use old_so_tp.Prelude.CString.{codes}
use old_so_tp.Commons.Reference.{reference}
use old_so_tp.Shared.Buffer.{Buffer}
use old_so_tp.Shared.Buffer.Spec.{Remains, string_bytes}
use old_so_tp.Shared.Socket.Transfer.{package_bytes}
use old_so_tp.Shared.Process.Samples.{socket, can_send, stream, incoming-stream}
use old_so_tp.Shared.Process.{
  Pcb, Sizes, take_pcb_from_buffer, send_pcb, send_pcb_and_resource, send_sleep,
}
use old_so_tp.Shared.Process.Wire.{pcb_bytes, IsWire}
use old_so_tp.Shared.Process.Messages.{Delivers}
use old_so_tp.Shared.Process.Delivery.{
  take_request, take_sleep, send_pcb-Delivers, send_pcb_and_resource-Delivers, send_sleep-Delivers,
}

abbrev sample : Pcb
sample = record {
  pid = pos 1;
  program_counter = pos 2;
  quantum = pos 0;
  size = pos 64;
  cpu_register = 5 ∷ 6 ∷ [];
  resources = codes "RED" ∷ [];
  table_pages = negsuc 0;
  path = codes "f";
  state = 1;
  client_socket = pos 9;
}

sample-IsWire : IsWire sample
sample-IsWire = record {
  pid = (omega arith, omega arith);
  program_counter = (omega arith, omega arith);
  quantum = (omega arith, omega arith);
  size = (omega arith, omega arith);
  registers = (omega arith, (omega arith, tt));
  register_count = omega arith;
  resources = (
    (
      (omega arith, omega arith, (omega arith, omega arith, (omega arith, omega arith, tt))),
      omega arith,
    ),
    tt,
  );
  resource_count = omega arith;
  table_pages = (omega arith, omega arith);
  path = ((omega arith, omega arith, tt), omega arith);
  state = omega arith;
  client_socket = (omega arith, omega arith);
}

abbrev received : Buffer
received = record { offset = 0; buffer_size = 80; stream = map some (pcb_bytes sample ++ 7 ∷ []) }

received-Remains : Remains received (pcb_bytes sample ++ 7 ∷ [])
unfolding to_bytes
received-Remains = record { within = omega arith; bounded = omega arith; unread = refl }

abbrev sizes : Sizes
sizes = record { pcb_size = 40; process_size = 8; sleep_size = 44; package_size = 4 }

abbrev message : List ℕ → List ℕ
message bs = package_bytes 12 bs ++ 7 ∷ []

send_pcb-Delivers_example :
    Delivers socket
      (send_pcb reference sizes socket 12 sample)
      (take_pcb_from_buffer reference)
      12
      sample
      (pcb_bytes sample)
      (7 ∷ [])
      (stream (message (pcb_bytes sample)))
unfolding to_bytes
send_pcb-Delivers_example =
    send_pcb-Delivers reference sizes socket 12 sample sample-IsWire (7 ∷ [])
      (stream (message (pcb_bytes sample)))
      (can_send 12 40 (pcb_bytes sample) (omega arith) (omega arith) (omega arith))
      (incoming-stream (message (pcb_bytes sample)))

send_pcb_and_resource-Delivers_example :
    Delivers socket
      (send_pcb_and_resource reference sizes socket 12 sample (codes "RED"))
      (take_request reference)
      12
      (sample, codes "RED")
      (pcb_bytes sample ++ string_bytes (codes "RED"))
      (7 ∷ [])
      (stream (message (pcb_bytes sample ++ string_bytes (codes "RED"))))
unfolding to_bytes
send_pcb_and_resource-Delivers_example =
    send_pcb_and_resource-Delivers reference sizes socket 12 sample sample-IsWire (7 ∷ [])
      (stream (message (pcb_bytes sample ++ string_bytes (codes "RED")))) (codes "RED")
      (
        (omega arith, omega arith, (omega arith, omega arith, (omega arith, omega arith, tt))),
        omega arith,
      )
      (can_send 12 4 (pcb_bytes sample ++ string_bytes (codes "RED")) (omega arith) (omega arith)
        (omega arith))
      (incoming-stream (message (pcb_bytes sample ++ string_bytes (codes "RED"))))

send_sleep-Delivers_example :
    Delivers socket
      (send_sleep reference sizes socket 12 sample (pos 30))
      (take_sleep reference)
      12
      (sample, pos 30)
      (pcb_bytes sample ++ to_bytes 4 (to_word (pos 30)))
      (7 ∷ [])
      (stream (message (pcb_bytes sample ++ to_bytes 4 (to_word (pos 30)))))
unfolding to_bytes
send_sleep-Delivers_example =
    send_sleep-Delivers reference sizes socket 12 sample sample-IsWire (7 ∷ [])
      (stream (message (pcb_bytes sample ++ to_bytes 4 (to_word (pos 30))))) (pos 30)
      (omega arith, omega arith)
      (can_send 12 44 (pcb_bytes sample ++ to_bytes 4 (to_word (pos 30))) (omega arith)
        (omega arith) (omega arith))
      (incoming-stream (message (pcb_bytes sample ++ to_bytes 4 (to_word (pos 30)))))
