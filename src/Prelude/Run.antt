-- ===== src/Prelude/Run.antt =====
-- How a function of a program ends.
use old_so_tp.Prelude.{Option, none, some}

-- It returns, waits for what never comes in its state (a semaphore whose count is 0, a message), or
-- uses a null pointer or a value that was never set.
pub data Run (A : Type 0) : Type 0 where
  done : A → Run A
  waits : Run A
  crash : Run A

infixl 5 ◌>>=◌
abbrev pub ◌>>=◌ : {A B : Type 0} → Run A → (A → Run B) → Run B
done a >>= f = f a
waits >>= f = waits
crash >>= f = crash

abbrev pub not_null : {A : Type 0} → Option A → Run A
not_null none = crash
not_null (some a) = done a
