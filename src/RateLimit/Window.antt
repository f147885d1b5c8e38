-- ===== src/RateLimit/Window.antt =====
-- backend/app/middleware/rate_limiter.py: a bucket of times, and the window that ends at a time.
use mama_ai.Prelude.{
  ℕ, ◌≡◌, ◌≤◌, ◌+◌, refl, arith, Bool, true, List, [], ◌∷◌, All, leb, ltb, length, if◌then◌else◌,
  Bool-cases, inl, inr,
}
use mama_ai.RateLimit.{Floats, prune, append}

abbrev pub IsNoLater : ℕ → ℕ → Type 0
IsNoLater now t = t ≤ now

abbrev pub IsAscending : List ℕ → Type 0
IsAscending [] = Unit
IsAscending (t ∷ ts) = All (λ x. t ≤ x) ts × IsAscending ts

module _ ⦃F : Floats⦄ where
  -- A time is in the window of `window` seconds that ends at `now`.
  abbrev pub is_recent : ℕ → ℕ → ℕ → Bool
  is_recent window now t = ltb (F.minus now window) t

  unfoldable pub recent : ℕ → ℕ → List ℕ → ℕ
  recent window now [] = 0
  recent window now (t ∷ ts) = (if is_recent window now t then 1 else 0) + recent window now ts

  pub recent-prune :
      (window now later : ℕ) (b : List ℕ)
      → now ≤ later
      → recent window later (prune now window b) ≡ recent window later b
  unfolding recent prune
  recent-prune window now later [] h = refl
  recent-prune window now later (t ∷ ts) h =
      ground (arith, recent-prune window now later ts h, F.minus_le now later window h)

  recent-All :
      (window now t : ℕ) (b : List ℕ)
      → is_recent window now t ≡ true
      → All (λ x. t ≤ x) b
      → recent window now b ≡ length b
  unfolding recent
  recent-All window now t [] h k = refl
  recent-All window now t (x ∷ xs) h k =
      let rest = recent-All window now t xs h k.1 in let p = k.0 in ground arith

  pub length-prune :
      (window now : ℕ) (b : List ℕ)
      → IsAscending b
      → length (prune now window b) ≡ recent window now b
  unfolding recent prune
  length-prune window now [] h = refl
  length-prune window now (t ∷ ts) h = elim (Bool-cases (leb t (F.minus now window))) [
    | inl e ↦ let rest = length-prune window now ts h.1 in ground arith
    | inr e ↦ let rest = recent-All window now t ts (ground arith) h.0 in ground arith
  ]

  pub prune-All :
      (P : ℕ → Type 0) (window now : ℕ) (b : List ℕ) → All P b → All P (prune now window b)
  unfolding prune
  prune-All P window now [] h = tt
  prune-All P window now (t ∷ ts) h = elim (Bool-cases (leb t (F.minus now window))) [
    | inl e ↦ rw e (prune-All P window now ts h.1)
    | inr e ↦ rw e h
  ]

  pub prune-IsAscending :
      (window now : ℕ) (b : List ℕ) → IsAscending b → IsAscending (prune now window b)
  unfolding prune
  prune-IsAscending window now [] h = tt
  prune-IsAscending window now (t ∷ ts) h = elim (Bool-cases (leb t (F.minus now window))) [
    | inl e ↦ rw e (prune-IsAscending window now ts h.1)
    | inr e ↦ rw e h
  ]

  pub recent-append :
      (window later now : ℕ) (b : List ℕ)
      → recent window later (append b now)
        ≡ recent window later b + (if is_recent window later now then 1 else 0)
  unfolding recent append
  recent-append window later now [] = omega arith
  recent-append window later now (t ∷ ts) = omega (arith, recent-append window later now ts)

  pub append-All : (P : ℕ → Type 0) (now : ℕ) (b : List ℕ) → All P b → P now → All P (append b now)
  unfolding append
  append-All P now [] h p = (p, tt)
  append-All P now (t ∷ ts) h p = (h.0, append-All P now ts h.1 p)

  pub append-IsAscending :
      (now : ℕ) (b : List ℕ) → IsAscending b → All (IsNoLater now) b → IsAscending (append b now)
  unfolding append
  append-IsAscending now [] h k = (tt, tt)
  append-IsAscending now (t ∷ ts) h k =
      (append-All (λ x. t ≤ x) now ts h.0 k.0, append-IsAscending now ts h.1 k.1)

  pub All-IsNoLater : (a b : ℕ) (xs : List ℕ) → a ≤ b → All (IsNoLater a) xs → All (IsNoLater b) xs
  All-IsNoLater a b [] h k = tt
  All-IsNoLater a b (x ∷ xs) h k = (omega (arith, k.0), All-IsNoLater a b xs h k.1)
