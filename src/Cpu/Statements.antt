-- ===== src/Cpu/Statements.antt =====
-- What the statements of a program mean: the registers as a list that is written at one place, and
-- the report to the kernel.
pub mod Parse
pub mod Execute
use old_so_tp.Prelude.{
  ℕ, suc, zero, ◌+◌, ◌-◌, ◌%◌, ◌^◌, ◌==◌, ◌≡◌, Bool, false, Option, none, some, List, [], ◌∷◌, ◌++◌,
  get_elem?, set, if◌then◌else◌,
}
use old_so_tp.Prelude.Int.{to_word}
use old_so_tp.Prelude.CString.{CString, codes, str_eq}
use old_so_tp.Prelude.Decimal.{atoi}
use old_so_tp.Commons.{insert_at}
use old_so_tp.Shared.Process.{Pcb}
use old_so_tp.Kernel.Connection.{finishes, wait_for, signal, sleep}
use old_so_tp.Cpu.Execution.{Word, Cycle, next, reports}

pub data Register : Type 0 where
  ax bx cx dx : Register

abbrev pub place : Register → ℕ
place ax = 0
place bx = 1
place cx = 2
place dx = 3

abbrev pub register_name : Register → CString
register_name ax = codes "AX"
register_name bx = codes "BX"
register_name cx = codes "CX"
register_name dx = codes "DX"

-- A statement, with the texts of its numbers and names.
pub data Statement : Type 0 where
  set_to jump : Register → CString → Statement
  add_to subtract : Register → Register → Statement
  move_in move_out : CString → CString → Statement
  sleeps acquires releases : CString → Statement
  exits : Statement

-- The words of a statement.
abbrev pub words_of : Statement → List CString
words_of (set_to r value) = codes "SET" ∷ register_name r ∷ value ∷ []
words_of (jump r target) = codes "JNZ" ∷ register_name r ∷ target ∷ []
words_of (add_to d o) = codes "SUM" ∷ register_name d ∷ register_name o ∷ []
words_of (subtract d o) = codes "SUB" ∷ register_name d ∷ register_name o ∷ []
words_of (move_in to from) = codes "MOV_IN" ∷ to ∷ from ∷ []
words_of (move_out to from) = codes "MOV_OUT" ∷ to ∷ from ∷ []
words_of (sleeps time) = codes "SLEEP" ∷ time ∷ []
words_of (acquires resource) = codes "WAIT" ∷ resource ∷ []
words_of (releases resource) = codes "SIGNAL" ∷ resource ∷ []
words_of exits = codes "EXIT" ∷ []

-- The array of some strings, from a given index on, each at its address.
abbrev pub placed : (ℕ → ℕ) → ℕ → List CString → List Word
placed address i [] = []
placed address i (s ∷ ss) = record { address = address i; text = s } ∷ placed address (suc i) ss

-- A text that names no register.
pub record IsName (s : CString) : Type 0 where
  pub not_ax : str_eq s (codes "AX") ≡ false
  pub not_bx : str_eq s (codes "BX") ≡ false
  pub not_cx : str_eq s (codes "CX") ≡ false
  pub not_dx : str_eq s (codes "DX") ≡ false

-- The names that a statement gives to the kernel name no register.
abbrev pub IsValid : Statement → Type 0
IsValid (set_to r value) = Unit {0}
IsValid (jump r target) = Unit {0}
IsValid (add_to d o) = Unit {0}
IsValid (subtract d o) = Unit {0}
IsValid (move_in to from) = Unit {0}
IsValid (move_out to from) = Unit {0}
IsValid (sleeps time) = IsName time
IsValid (acquires resource) = IsName resource
IsValid (releases resource) = IsName resource
IsValid exits = Unit {0}

abbrev pub value_of : List ℕ → Register → ℕ
value_of registers r = elim (get_elem? registers (place r)) [ none ↦ 0 | some v ↦ v ]

abbrev pub write : Pcb → Register → ℕ → Cycle
write pcb r value = next (record pcb { cpu_register = set pcb.cpu_register (place r) value })

-- A jump that is taken puts its target into the list of registers, before the register that it
-- tests, and the control block goes on with the next statement.
abbrev pub meaning : Statement → Pcb → Cycle
meaning (set_to r value) pcb = write pcb r (to_word (atoi value))
meaning (add_to d o) pcb =
    write pcb d ((value_of pcb.cpu_register d + value_of pcb.cpu_register o) % 2 ^ 32)
meaning (subtract d o) pcb =
    write pcb d
      ((value_of pcb.cpu_register d + (2 ^ 32 - value_of pcb.cpu_register o % 2 ^ 32)) % 2 ^ 32)
meaning (jump r target) pcb =
    if value_of pcb.cpu_register r == 0
    then next pcb
    else next
        (record pcb { cpu_register = insert_at pcb.cpu_register (place r) (to_word (atoi target)) })
meaning (move_in to from) pcb = next pcb
meaning (move_out to from) pcb = next pcb
meaning (sleeps time) pcb = reports pcb (sleep pcb (atoi time))
meaning (acquires resource) pcb = reports pcb (wait_for pcb resource)
meaning (releases resource) pcb = reports pcb (signal pcb resource)
meaning exits pcb = reports pcb (finishes pcb)
