-- ===== src/Newest/Order.antt =====
-- The order of `records.sort(key=..., reverse=True)`.
use mathlib.Core.List.{Perm}
use mathlib.Core.List.Perm
use mama_ai.Prelude.{
  ℕ, zero, suc, ◌≤◌, ◌≡◌, arith, Bool, true, List, [], ◌∷◌, All, select, take, leb, Bool-cases, inl,
  inr, leb→le, not_leb→lt,
}
use mama_ai.Newest.{insert_newest, newest_first}

module _ {A : Type 0} where
  pub All-select : (p : A → Bool) (rs : List A) → All (λ r. p r ≡ true) (select p rs)
  unfolding select
  All-select p [] = tt
  All-select p (r ∷ rs) = elim (Bool-cases (p r)) [
    | inl e ↦ rw e (e, All-select p rs)
    | inr e ↦ rw e (All-select p rs)
  ]

  pub All-select_of : (P : A → Type 0) (p : A → Bool) (rs : List A) → All P rs → All P (select p rs)
  unfolding select
  All-select_of P p [] h = tt
  All-select_of P p (r ∷ rs) h = elim (Bool-cases (p r)) [
    | inl e ↦ rw e (h.0, All-select_of P p rs h.1)
    | inr e ↦ rw e (All-select_of P p rs h.1)
  ]

  pub All-take : (P : A → Type 0) (n : ℕ) (rs : List A) → All P rs → All P (take n rs)
  All-take P zero rs h = tt
  All-take P (suc n) [] h = tt
  All-take P (suc n) (r ∷ rs) h = (h.0, All-take P n rs h.1)

module _ {A : Type 0} (created : A → ℕ) where
  -- Newest first: no record is older than one that follows it.
  abbrev pub IsNewestFirst : List A → Type 0
  IsNewestFirst [] = Unit
  IsNewestFirst (r ∷ rs) = All (λ x. created x ≤ created r) rs × IsNewestFirst rs

  pub All-insert :
      (P : A → Type 0) (r : A) (rs : List A) → P r → All P rs → All P (insert_newest created r rs)
  unfolding insert_newest
  All-insert P r [] p h = (p, tt)
  All-insert P r (x ∷ xs) p h = elim (Bool-cases (leb (created x) (created r))) [
    | inl e ↦ rw e (p, h)
    | inr e ↦ rw e (h.0, All-insert P r xs p h.1)
  ]

  pub All-newest_first : (P : A → Type 0) (rs : List A) → All P rs → All P (newest_first created rs)
  unfolding newest_first
  All-newest_first P [] h = tt
  All-newest_first P (r ∷ rs) h =
      All-insert P r (newest_first created rs) h.0 (All-newest_first P rs h.1)

  All-older :
      (a b : ℕ) (rs : List A) → a ≤ b → All (λ x. created x ≤ a) rs → All (λ x. created x ≤ b) rs
  All-older a b [] h k = tt
  All-older a b (x ∷ xs) h k = (omega arith, All-older a b xs h k.1)

  insert_newest-IsNewestFirst :
      (r : A) (rs : List A) → IsNewestFirst rs → IsNewestFirst (insert_newest created r rs)
  unfolding insert_newest
  insert_newest-IsNewestFirst r [] h = (tt, tt)
  insert_newest-IsNewestFirst r (x ∷ xs) h = elim (Bool-cases (leb (created x) (created r))) [
    | inl e ↦ rw e ((leb→le _ _ e, All-older (created x) (created r) xs (leb→le _ _ e) h.0), h)
    | inr e ↦
        let older : created r ≤ created x =
          (let l = not_leb→lt (created x) (created r) e in omega arith) in
        rw e (
          All-insert (λ y. created y ≤ created x) r xs older h.0,
          insert_newest-IsNewestFirst r xs h.1,
        )
  ]

  pub newest_first-IsNewestFirst : (rs : List A) → IsNewestFirst (newest_first created rs)
  unfolding newest_first
  newest_first-IsNewestFirst [] = tt
  newest_first-IsNewestFirst (r ∷ rs) =
      insert_newest-IsNewestFirst r (newest_first created rs) (newest_first-IsNewestFirst rs)

  insert_newest-perm : (r : A) (rs : List A) → Perm (insert_newest created r rs) (r ∷ rs)
  unfolding insert_newest
  insert_newest-perm r [] = Perm.refl (r ∷ [])
  insert_newest-perm r (x ∷ xs) = elim (Bool-cases (leb (created x) (created r))) [
    | inl e ↦ rw e (Perm.refl (r ∷ x ∷ xs))
    | inr e ↦ rw e (Perm.trans (Perm.cons x (insert_newest-perm r xs)) (Perm.swap r x xs))
  ]

  pub newest_first-perm : (rs : List A) → Perm (newest_first created rs) rs
  unfolding newest_first
  newest_first-perm [] = Perm.refl []
  newest_first-perm (r ∷ rs) =
      Perm.trans (insert_newest-perm r (newest_first created rs))
        (Perm.cons r (newest_first-perm rs))

  pub take-IsNewestFirst : (n : ℕ) (rs : List A) → IsNewestFirst rs → IsNewestFirst (take n rs)
  take-IsNewestFirst zero rs h = tt
  take-IsNewestFirst (suc n) [] h = tt
  take-IsNewestFirst (suc n) (r ∷ rs) h =
      (All-take (λ x. created x ≤ created r) n rs h.0, take-IsNewestFirst n rs h.1)
