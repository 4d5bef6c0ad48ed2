-- ===== src/Kernel/Balance/Rules.antt =====
-- Rules for calls that return or wait: sequences, waits, and pops of queues that are not empty.
use old_so_tp.Prelude.{
  ℕ, zero, suc, ◌<◌, ◌≡◌, refl, List, [], ◌∷◌, length, length-append, arith, subst, sym, ap, ◌∙◌,
}
use old_so_tp.Commons.{Commons, first_of_queue}
use old_so_tp.Kernel.State.{Kernel, Run, done, waits, crash, ◌>>=◌, not_null, down}
use old_so_tp.Kernel.Balance.{Ends, Returns}

module _ {A B : Type 0} where
  pub Ends-bind :
      (W : Type 0) (P : A → Type 0) (Q : B → Type 0) (m : Run A) (f : A → Run B)
      → Returns P m
      → ((a : A) → P a → Ends W Q (f a))
      → Ends W Q (m >>= f)
  Ends-bind W P Q (done a) f p h = h a p
  Ends-bind W P Q waits f p h = absurd p
  Ends-bind W P Q crash f p h = p

  pub Ends-map :
      (W : Type 0) (Q : B → Type 0) (m : Run A) (g : A → B)
      → Ends W (λ a. Q (g a)) m
      → Ends W Q (m >>= λ a. done (g a))
  Ends-map W Q (done a) g p = p
  Ends-map W Q waits g p = p
  Ends-map W Q crash g p = p

module _ {A : Type 0} where
  pub Ends-weaken :
      (W : Type 0) (P Q : A → Type 0) (m : Run A) → ((a : A) → P a → Q a) → Ends W P m → Ends W Q m
  Ends-weaken W P Q (done a) h p = h a p
  Ends-weaken W P Q waits h p = p
  Ends-weaken W P Q crash h p = p

  -- A call that always returns may be used where a wait is allowed.
  pub Returns-Ends : (W : Type 0) (P : A → Type 0) (m : Run A) → Returns P m → Ends W P m
  Returns-Ends W P (done a) h = h
  Returns-Ends W P waits h = absurd h
  Returns-Ends W P crash h = h

pub Ends-down :
    {B : Type 0} (W : Type 0) (Q : B → Type 0) (n : ℕ) (g : ℕ → Kernel) (f : Kernel → Run B)
    → (n ≡ 0 → W)
    → ((m : ℕ) → n ≡ suc m → Ends W Q (f (g m)))
    → Ends W Q (down n g >>= f)
Ends-down W Q zero g f w h = w refl
Ends-down W Q (suc m) g f w h = h m refl

pub Ends-down_last :
    (W : Type 0) (Q : Kernel → Type 0) (n : ℕ) (g : ℕ → Kernel)
    → (n ≡ 0 → W)
    → ((m : ℕ) → n ≡ suc m → Q (g m))
    → Ends W Q (down n g)
Ends-down_last W Q zero g w h = w refl
Ends-down_last W Q (suc m) g w h = h m refl

module _ (lib : Commons) where
  first_lem :
      {B : Type 0} (W : Type 0) (Q : B → Type 0) (q : List ℕ) (f : ℕ × List ℕ → Run B)
      → 0 < length q
      → ((a : ℕ) (rest : List ℕ) → q ≡ a ∷ rest → Ends W Q (f (a, rest)))
      → Ends W Q (not_null (first_of_queue q) >>= f)
  first_lem W Q [] f p h = absurd (omega arith)
  first_lem W Q (a ∷ rest) f p h = h a rest refl

  pub Ends-pop :
      {B : Type 0} (W : Type 0) (Q : B → Type 0) (q : List ℕ) (f : ℕ × List ℕ → Run B)
      → 0 < length q
      → ((a : ℕ) (rest : List ℕ) → q ≡ a ∷ rest → Ends W Q (f (a, rest)))
      → Ends W Q (not_null (lib.queue_pop q) >>= f)
  Ends-pop W Q q f p h =
      subst (λ r. Ends W Q (not_null r >>= f)) (sym (lib.queue_pop_lem q)) (first_lem W Q q f p h)

  pub length-push : (q : List ℕ) (a : ℕ) → length (lib.queue_push q a) ≡ suc (length q)
  length-push q a = ap length (lib.queue_push_lem q a) ∙ length-append q (a ∷ []) ∙ omega arith
