-- ===== src/Kernel/State.antt =====
-- The kernel's globals (kernel/src/kernel.c, kernel/include/queues.h, planners.h, semaphores.h) and
-- how its functions end.
use old_so_tp.Prelude.{
  ℕ, zero, suc, List, [], ◌∷◌, ◌++◌, get_elem?, set, Option, none, some, ◌==◌, if◌then◌else◌,
}
use old_so_tp.Prelude.Int.{ℤ, pos, negsuc}
pub use old_so_tp.Prelude.Int.{eq_int}
pub use old_so_tp.Prelude.Run.{Run, done, waits, crash, ◌>>=◌, not_null}
use old_so_tp.Prelude.CString.{CString}
use old_so_tp.Shared.Operation.{OperationCode}
use old_so_tp.Shared.Process.{Pcb}

-- Whom a message goes to.
pub data Peer : Type 0 where
  to_memory to_cpu : Peer

pub record Message : Type 0 where
  pub peer : Peer
  pub header : OperationCode
  pub body : Pcb

-- The queues hold pointers: `heap` is the control block at an address. Addresses from
-- `next_address` on are not allocated. A mutex stands around single accesses of a queue or a
-- connection in the source, and an access is one step here, so the mutexes have no count.
pub record Kernel : Type 0 where
  pub heap : ℕ → Pcb
  pub next_address : ℕ
  pub queue_new : List ℕ
  pub queue_ready : List ℕ
  pub queue_exec : List ℕ
  pub list_of_queue_blocked : List (List ℕ)
  pub all_resources : List CString
  pub all_resources_instances : List CString
  pub sem_process_new : ℕ
  pub sem_process_ready : ℕ
  pub sem_process_blocked : ℕ
  pub sem_cpu_available : ℕ
  pub sem_multiprogramming_degree : ℕ
  pub sem_short_term_planner : ℕ
  pub sem_long_term_planner : ℕ
  pub mutex_stopping_planner : ℕ
  pub id_to_assign : ℕ
  -- What was sent, the last message at the end, the headers on the interrupt connection of the CPU,
  -- and the process ids of the deadlocks logged.
  pub sent : List Message
  pub interrupts : List OperationCode
  pub deadlocks : List ℤ

-- `process->state = state`.
abbrev pub with_state : (ℕ → Pcb) → ℕ → ℕ → ℕ → Pcb
with_state heap a state b = if b == a then record (heap a) { state = state } else heap b

abbrev pub write_pcb : (ℕ → Pcb) → ℕ → Pcb → ℕ → Pcb
write_pcb heap a pcb b = if b == a then pcb else heap b

-- `sem_init`: a negative value, as an `unsigned`, is above SEM_VALUE_MAX, and the semaphore stays as
-- it was.
abbrev pub sem_init : ℕ → ℤ → ℕ
sem_init old (pos n) = n
sem_init old (negsuc n) = old

-- `malloc` of a control block, filled with `pcb`.
abbrev pub allocate : Kernel → Pcb → Kernel
allocate k pcb = record k {
  heap = write_pcb k.heap k.next_address pcb;
  next_address = suc k.next_address;
}

-- `sem_wait` on a count, and what goes on with the count that is left.
abbrev pub down : ℕ → (ℕ → Kernel) → Run Kernel
down zero f = waits
down (suc n) f = done (f n)

-- `send_pcb` over one of the connections. Shared/Process/Delivery has the bytes.
abbrev pub send_pcb : Kernel → Peer → OperationCode → ℕ → Kernel
send_pcb k peer header a = record k {
  sent = k.sent ++ record { peer = peer; header = header; body = k.heap a } ∷ [];
}

-- A pointer to a queue. `fresh_queue` is one that `get_queue_blocked` creates and nobody keeps.
pub data QueueRef : Type 0 where
  new_queue ready_queue exec_queue : QueueRef
  blocked_queue : ℕ → QueueRef
  fresh_queue : QueueRef

abbrev pub or_empty : Option (List ℕ) → List ℕ
or_empty none = []
or_empty (some q) = q

abbrev pub queue_at : Kernel → QueueRef → List ℕ
queue_at k new_queue = k.queue_new
queue_at k ready_queue = k.queue_ready
queue_at k exec_queue = k.queue_exec
queue_at k (blocked_queue i) = or_empty (get_elem? k.list_of_queue_blocked i)
queue_at k fresh_queue = []

-- A change of the elements of a queue, through its pointer.
abbrev pub write_queue : Kernel → QueueRef → List ℕ → Kernel
write_queue k new_queue q = record k { queue_new = q }
write_queue k ready_queue q = record k { queue_ready = q }
write_queue k exec_queue q = record k { queue_exec = q }
write_queue k (blocked_queue i) q = record k {
  list_of_queue_blocked = set k.list_of_queue_blocked i q;
}
write_queue k fresh_queue q = k
