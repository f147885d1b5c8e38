-- ===== src/Exec.antt =====
-- Python methods that mutate an object and may raise: an action takes the state, and returns the
-- result or the exception beside the new state. What was written before a raise stays written.
pub mod Ensures
use mama_ai.Prelude.{Option, none, some}
use mama_ai.Result.{Exc, Result, ok, err}

abbrev pub Exec {ℓ} : Type ℓ → Type ℓ → Type ℓ
Exec S A = S → Result A × S

module _ {ℓ} {S A : Type ℓ} where
  abbrev pub pure : A → Exec S A
  pure a s = (ok a, s)

  abbrev pub raise : Exc → Exec S A
  raise e s = (err e, s)

  -- a computation that touches no state
  abbrev pub lift : Result A → Exec S A
  lift r s = (r, s)

  abbrev pub gets : (S → A) → Exec S A
  gets f s = (ok (f s), s)

  -- the value, or `raise e` at `None`
  abbrev pub or_raise : Option A → Exc → Exec S A
  or_raise none e s = (err e, s)
  or_raise (some a) e s = (ok a, s)

abbrev pub modify {ℓ} : {S : Type ℓ} → (S → S) → Exec S (Unit {ℓ})
modify f s = (ok tt, f s)

module _ {ℓ} {S A B : Type ℓ} where
  abbrev pub continue : Result A × S → (A → Exec S B) → Result B × S
  continue (ok a, s) f = f a s
  continue (err e, s) f = (err e, s)

  infixl 10 ◌>>=◌ ◌>>◌
  abbrev pub ◌>>=◌ : Exec S A → (A → Exec S B) → Exec S B
  ◌>>=◌ m f s = continue (m s) f

  abbrev pub ◌>>◌ : Exec S A → Exec S B → Exec S B
  m >> n = m >>= λ _. n

module _ {ℓ} {S A : Type ℓ} where
  abbrev pub handle : Result A × S → (Exc → Exec S A) → Result A × S
  handle (ok a, s) h = (ok a, s)
  handle (err e, s) h = h e s

  -- `try: m; except Exception as e: h(e)`
  abbrev pub catch : Exec S A → (Exc → Exec S A) → Exec S A
  catch m h s = handle (m s) h

  -- `try: m; except Exception: restore; raise`
  abbrev pub or_restore : Exec S A → (S → S) → Exec S A
  or_restore m restore = catch m (λ e s. (err e, restore s))

-- An action on a part of a larger object.
module _ {ℓ} {S P A : Type ℓ} where
  abbrev pub put_back : Result A × P → (P → S) → Result A × S
  put_back (r, p) set = (r, set p)

  abbrev pub zoom : (S → P) → (S → P → S) → Exec P A → Exec S A
  zoom get set m s = put_back (m (get s)) (set s)
