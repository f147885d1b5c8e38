-- ===== src/Exec/Ensures.antt =====
-- Postconditions of actions: `P` of the result and the state if the action returns, `E` of the
-- state if it raises. One rule for each way to build an action.
use mama_ai.Prelude.{◌≡◌, refl, Bool, true, false, Option, none, some, if◌then◌else◌, subst}
use mama_ai.Result.{Exc, Result, ok, err}
use mama_ai.Exec.{Exec, continue, handle, or_raise, put_back}

pub data Ensures {ℓ} {S A : Type ℓ} (P : A → S → Type ℓ) (E : S → Type ℓ)
    : Result A × S → Type ℓ where
  returned : (a : A) (s : S) → P a s → Ensures P E (ok a, s)
  raised : (e : Exc) (s : S) → E s → Ensures P E (err e, s)

ok-injective {ℓ} : {A : Type ℓ} {a b : A} → ok a ≡ ok b → a ≡ b
ok-injective h = cc

module _ {ℓ} {S A : Type ℓ} {P : A → S → Type ℓ} {E : S → Type ℓ} where
  -- What holds of a run that returned, and of one that raised.
  pub Ensures-ok : {m : Result A × S} {a : A} → Ensures P E m → m.0 ≡ ok a → P a m.1
  Ensures-ok (returned b s p) h = subst (λ x. P x s) (ok-injective h) p
  Ensures-ok (raised e s p) h = cc

  pub Ensures-err : {m : Result A × S} {e : Exc} → Ensures P E m → m.0 ≡ err e → E m.1
  Ensures-err (returned b s p) h = cc
  Ensures-err (raised e s p) h = p

  pub Ensures-lift :
      (r : Result A) (s : S) → ((a : A) → r ≡ ok a → P a s) → E s → Ensures P E (r, s)
  Ensures-lift (ok a) s p e = returned a s (p a refl)
  Ensures-lift (err x) s p e = raised x s e

  pub Ensures-or_raise :
      (o : Option A) (x : Exc) (s : S)
      → ((a : A) → o ≡ some a → P a s)
      → E s
      → Ensures P E (or_raise o x s)
  Ensures-or_raise none x s p e = raised x s e
  Ensures-or_raise (some a) x s p e = returned a s (p a refl)

  pub Ensures-if :
      (b : Bool) (m n : Result A × S)
      → (b ≡ true → Ensures P E m)
      → (b ≡ false → Ensures P E n)
      → Ensures P E (if b then m else n)
  Ensures-if true m n h k = h refl
  Ensures-if false m n h k = k refl

  pub Ensures-handle :
      {Q : S → Type ℓ} (m : Result A × S) (f : Exc → Exec S A)
      → Ensures P Q m
      → ((e : Exc) (s : S) → Q s → Ensures P E (f e s))
      → Ensures P E (handle m f)
  Ensures-handle m f (returned a s p) k = returned a s p
  Ensures-handle m f (raised e s q) k = k e s q

  -- What holds of every end that the postconditions allow.
  pub Ensures-end {κ} :
      (Q : Result A × S → Type κ) {m : Result A × S}
      → Ensures P E m
      → ((a : A) (s : S) → P a s → Q (ok a, s))
      → ((e : Exc) (s : S) → E s → Q (err e, s))
      → Q m
  Ensures-end Q (returned a s p) f g = f a s p
  Ensures-end Q (raised e s p) f g = g e s p

  -- A weaker postcondition.
  pub Ensures-weaken :
      {P' : A → S → Type ℓ} {E' : S → Type ℓ} {m : Result A × S}
      → Ensures P' E' m
      → ((a : A) (s : S) → P' a s → P a s)
      → ((s : S) → E' s → E s)
      → Ensures P E m
  Ensures-weaken (returned a s p) f g = returned a s (f a s p)
  Ensures-weaken (raised e s p) f g = raised e s (g s p)

module _ {ℓ} {S A B : Type ℓ} {P : A → S → Type ℓ} {Q : B → S → Type ℓ} {E : S → Type ℓ} where
  pub Ensures-bind :
      (m : Result A × S) (f : A → Exec S B)
      → Ensures P E m
      → ((a : A) (s : S) → P a s → Ensures Q E (f a s))
      → Ensures Q E (continue m f)
  Ensures-bind m f (returned a s p) k = k a s p
  Ensures-bind m f (raised e s p) k = raised e s p

module _ {ℓ} {S A B : Type ℓ} {Q : B → S → Type ℓ} {E : S → Type ℓ} where
  -- A check that touches no state, and what follows it.
  pub Ensures-check :
      (r : Result A) (s : S) (f : A → Exec S B)
      → ((a : A) → r ≡ ok a → Ensures Q E (f a s))
      → E s
      → Ensures Q E (continue (r, s) f)
  Ensures-check (ok a) s f k e = k a refl
  Ensures-check (err x) s f k e = raised x s e

  pub Ensures-found :
      (o : Option A) (x : Exc) (s : S) (f : A → Exec S B)
      → ((a : A) → o ≡ some a → Ensures Q E (f a s))
      → E s
      → Ensures Q E (continue (or_raise o x s) f)
  Ensures-found none x s f k e = raised x s e
  Ensures-found (some a) x s f k e = k a refl

-- Every run ends in some state.
pub Ensures-run {ℓ} : {S A : Type ℓ} (m : Result A × S) → Ensures (λ a s. Unit) (λ s. Unit) m
Ensures-run (ok a, s) = returned a s tt
Ensures-run (err e, s) = raised e s tt

-- An action on a part of a larger object.
pub Ensures-put_back :
    {S P A : Type 0} {Q : A → P → Type 0} {E : P → Type 0} (set : P → S) {m : Result A × P}
    → Ensures Q E m
    → Ensures
        (λ a s. (p : P) × (s ≡ set p) × Q a p)
        (λ s. (p : P) × (s ≡ set p) × E p)
        (put_back m set)
Ensures-put_back set (returned a p q) = returned a (set p) (p, refl, q)
Ensures-put_back set (raised e p q) = raised e (set p) (p, refl, q)
