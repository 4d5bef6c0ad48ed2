-- ===== src/Kernel/Placed/Rules.antt =====
-- Rules for what a call leaves, and for an address that moves.
use old_so_tp.Prelude.{
  ℕ, zero, suc, ◌+◌, ◌≤◌, ◌≡◌, refl, sym, subst, Option, none, some, List, [], ◌∷◌, Bool, true,
  false, Bool-cases, inl, inr, arith, if◌then◌else◌,
}
use old_so_tp.Commons.{Commons, first_of_queue}
use old_so_tp.Kernel.Occurrences.{one}
use old_so_tp.Shared.Process.{Pcb, new, ready, execution, blocked}
use old_so_tp.Kernel.State.{Kernel, Run, done, waits, crash, ◌>>=◌, not_null, down}
use old_so_tp.Kernel.Balance.{Ends}
use old_so_tp.Kernel.Placed.{Fits, Leaves}

module _ {A : Type 0} where
  pub Leaves-any : (P : A → Type 0) (m : Run A) → ((a : A) → P a) → Leaves P m
  Leaves-any P (done a) h = h a
  Leaves-any P waits h = tt
  Leaves-any P crash h = tt

  pub Leaves-weaken :
      (P Q : A → Type 0) (m : Run A) → ((a : A) → P a → Q a) → Leaves P m → Leaves Q m
  Leaves-weaken P Q (done a) h p = h a p
  Leaves-weaken P Q waits h p = tt
  Leaves-weaken P Q crash h p = tt

  pub Leaves-if :
      (P : A → Type 0) (w : Bool) (m m' : Run A)
      → Leaves P m
      → Leaves P m'
      → Leaves P (if w then m else m')
  Leaves-if P true m m' p q = p
  Leaves-if P false m m' p q = q

  pub Ends-Leaves :
      (W : Type 0) (P Q : A → Type 0) (m : Run A)
      → Ends W P m
      → Leaves Q m
      → Ends W (λ a. P a × Q a) m
  Ends-Leaves W P Q (done a) p q = (p, q)
  Ends-Leaves W P Q waits p q = p
  Ends-Leaves W P Q crash p q = p

  pub Leaves-Ends : (W : Type 0) (P : A → Type 0) (m : Run A) → Ends W P m → Leaves P m
  Leaves-Ends W P (done a) p = p
  Leaves-Ends W P waits p = tt
  Leaves-Ends W P crash p = tt

module _ {A B : Type 0} where
  pub Leaves-bind :
      (P : A → Type 0) (Q : B → Type 0) (m : Run A) (f : A → Run B)
      → Leaves P m
      → ((a : A) → P a → Leaves Q (f a))
      → Leaves Q (m >>= f)
  Leaves-bind P Q (done a) f p h = h a p
  Leaves-bind P Q waits f p h = tt
  Leaves-bind P Q crash f p h = tt

  pub Leaves-then :
      (Q : B → Type 0) (m : Run A) (f : A → Run B) → ((a : A) → Leaves Q (f a)) → Leaves Q (m >>= f)
  Leaves-then Q m f h = Leaves-bind (λ a. Unit {0}) Q m f (Leaves-any _ m (λ a. tt)) (λ a u. h a)

  pub Leaves-not_null :
      (Q : B → Type 0) (o : Option A) (f : A → Run B)
      → ((a : A) → o ≡ some a → Leaves Q (f a))
      → Leaves Q (not_null o >>= f)
  Leaves-not_null Q none f h = tt
  Leaves-not_null Q (some a) f h = h a refl

pub Leaves-down :
    (Q : Kernel → Type 0) (n : ℕ) (g : ℕ → Kernel) → ((m : ℕ) → Q (g m)) → Leaves Q (down n g)
Leaves-down Q zero g h = tt
Leaves-down Q (suc m) g h = h m

module _ (lib : Commons) {B : Type 0} where
  first_lem :
      (Q : B → Type 0) (q : List ℕ) (f : ℕ × List ℕ → Run B)
      → ((a : ℕ) (rest : List ℕ) → q ≡ a ∷ rest → Leaves Q (f (a, rest)))
      → Leaves Q (not_null (first_of_queue q) >>= f)
  first_lem Q [] f h = tt
  first_lem Q (a ∷ rest) f h = h a rest refl

  pub Leaves-pop :
      (Q : B → Type 0) (q : List ℕ) (f : ℕ × List ℕ → Run B)
      → ((a : ℕ) (rest : List ℕ) → q ≡ a ∷ rest → Leaves Q (f (a, rest)))
      → Leaves Q (not_null (lib.queue_pop q) >>= f)
  Leaves-pop Q q f h =
      subst (λ r. Leaves Q (not_null r >>= f)) (sym (lib.queue_pop_lem q)) (first_lem Q q f h)

pub Fits-state : {u s s' n r e b z : ℕ} → s ≡ s' → Fits u s n r e b z → Fits u s' n r e b z
Fits-state {u} {s} {s'} {n} {r} {e} {b} {z} h f = subst (λ t. Fits u t n r e b z) h f

-- Nothing but fewer places.
pub Fits-less :
    {u u' s n n' r r' e e' b b' z z' : ℕ}
    → Fits u s n r e b z
    → u' + n' + r' + e' + b' + z' ≤ u + n + r + e + b + z
    → n' ≤ n
    → r' ≤ r
    → e' ≤ e
    → b' ≤ b
    → Fits u' s n' r' e' b' z'
Fits-less {u} {u'} {s} {n} {n'} {r} {r'} {e} {e'} {b} {b'} {z} {z'} f all less_n less_r less_e
      less_b =
    let once = f.once in
    let in_new = f.in_new in
    let in_ready = f.in_ready in
    let in_exec = f.in_exec in
    let in_blocked = f.in_blocked in
    record {
      once = omega arith;
      in_new = omega arith;
      in_ready = omega arith;
      in_exec = omega arith;
      in_blocked = omega arith;
    }

-- An address moves, where `w` says that it is the one at hand, `x` and `y` are its control blocks
-- after and before.
module _ {u u' n n' r r' e e' b b' z z' : ℕ} (w : Bool) (x y : Pcb)
    (f : Fits u y.state n r e b z) where
  -- It leaves all queues, or falls asleep.
  pub Fits-gone :
      u' + n' + r' + e' + b' + z' ≤ u + n + r + e + b + z
      → n' + r' + e' + b' + one w ≤ u + n + r + e + b + z
      → n' ≤ n
      → r' ≤ r
      → e' ≤ e
      → b' ≤ b
      → Fits u' (if w then x else y).state n' r' e' b' z'
  Fits-gone all gone less_n less_r less_e less_b = elim (Bool-cases w) [
    | inl here ↦
        let once = f.once in
        rw here (record {
          once = omega arith;
          in_new = ground (arith, here);
          in_ready = ground (arith, here);
          in_exec = ground (arith, here);
          in_blocked = ground (arith, here);
        })
    | inr there ↦ rw there (Fits-less f all less_n less_r less_e less_b)
  ]

  pub Fits-to_new :
      u' + n' + r' + e' + b' + z' ≤ u + n + r + e + b + z
      → u' + r' + e' + b' + z' + one w ≤ u + n + r + e + b + z
      → n' ≤ n + one w
      → r' ≤ r
      → e' ≤ e
      → b' ≤ b
      → Fits u' (if w then record x { state = new } else y).state n' r' e' b' z'
  Fits-to_new all moved less_n less_r less_e less_b = elim (Bool-cases w) [
    | inl here ↦
        let once = f.once in
        rw here (record {
          once = omega arith;
          in_new = ground (arith, here);
          in_ready = ground (arith, here);
          in_exec = ground (arith, here);
          in_blocked = ground (arith, here);
        })
    | inr there ↦ rw there (Fits-less f all (ground (arith, there)) less_r less_e less_b)
  ]

  pub Fits-to_ready :
      u' + n' + r' + e' + b' + z' ≤ u + n + r + e + b + z
      → u' + n' + e' + b' + z' + one w ≤ u + n + r + e + b + z
      → n' ≤ n
      → r' ≤ r + one w
      → e' ≤ e
      → b' ≤ b
      → Fits u' (if w then record x { state = ready } else y).state n' r' e' b' z'
  Fits-to_ready all moved less_n less_r less_e less_b = elim (Bool-cases w) [
    | inl here ↦
        let once = f.once in
        rw here (record {
          once = omega arith;
          in_new = ground (arith, here);
          in_ready = ground (arith, here);
          in_exec = ground (arith, here);
          in_blocked = ground (arith, here);
        })
    | inr there ↦ rw there (Fits-less f all less_n (ground (arith, there)) less_e less_b)
  ]

  pub Fits-to_exec :
      u' + n' + r' + e' + b' + z' ≤ u + n + r + e + b + z
      → u' + n' + r' + b' + z' + one w ≤ u + n + r + e + b + z
      → n' ≤ n
      → r' ≤ r
      → e' ≤ e + one w
      → b' ≤ b
      → Fits u' (if w then record x { state = execution } else y).state n' r' e' b' z'
  Fits-to_exec all moved less_n less_r less_e less_b = elim (Bool-cases w) [
    | inl here ↦
        let once = f.once in
        rw here (record {
          once = omega arith;
          in_new = ground (arith, here);
          in_ready = ground (arith, here);
          in_exec = ground (arith, here);
          in_blocked = ground (arith, here);
        })
    | inr there ↦ rw there (Fits-less f all less_n less_r (ground (arith, there)) less_b)
  ]

  pub Fits-to_blocked :
      u' + n' + r' + e' + b' + z' ≤ u + n + r + e + b + z
      → u' + n' + r' + e' + z' + one w ≤ u + n + r + e + b + z
      → n' ≤ n
      → r' ≤ r
      → e' ≤ e
      → b' ≤ b + one w
      → Fits u' (if w then record x { state = blocked } else y).state n' r' e' b' z'
  Fits-to_blocked all moved less_n less_r less_e less_b = elim (Bool-cases w) [
    | inl here ↦
        let once = f.once in
        rw here (record {
          once = omega arith;
          in_new = ground (arith, here);
          in_ready = ground (arith, here);
          in_exec = ground (arith, here);
          in_blocked = ground (arith, here);
        })
    | inr there ↦ rw there (Fits-less f all less_n less_r less_e (ground (arith, there)))
  ]
