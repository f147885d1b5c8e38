-- ===== src/Result.antt =====
-- Python exceptions as values: the result of code that may raise and changes no state.
use mama_ai.Prelude.{String, List, ℕ, ◌≡◌, refl, ◌⊎◌, inl, inr}

-- The exceptions by their Python classes; a message is the pieces of its f-string.
-- `foreign n` is whatever a store, an executor or another object outside the model raises.
pub data Exc : Type 0 where
  type_error value_error key_error permission_error timeout_error runtime_error integrity_error :
      List String → Exc
  foreign : ℕ → Exc

pub data Result {ℓ} (A : Type ℓ) : Type ℓ where
  ok : A → Result A
  err : Exc → Result A

infixl 10 ◌>>=◌ ◌>>◌
abbrev pub ◌>>=◌ {ℓ κ} : {A : Type ℓ} {B : Type κ} → Result A → (A → Result B) → Result B
ok a >>= f = f a
err e >>= f = err e

abbrev pub ◌>>◌ {ℓ κ} : {A : Type ℓ} {B : Type κ} → Result A → Result B → Result B
m >> k = m >>= λ _. k

pub Result-cases {ℓ} :
    {A : Type ℓ} (r : Result A) → ((e : Exc) × (r ≡ err e)) ⊎ ((a : A) × (r ≡ ok a))
Result-cases (ok a) = inr (a, refl)
Result-cases (err e) = inl (e, refl)
