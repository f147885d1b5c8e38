-- ===== src/Dict/Laws.antt =====
-- The laws of dictionaries that the components use.
use mama_ai.Prelude.{
  String, ◌≡◌, ◌≢◌, refl, none, some, [], ◌∷◌, arith, ◌==◌, eq_iff, if◌then◌else◌, Bool-cases, inl,
  inr, subst, sym,
}
use mama_ai.Dict.{Dict, get, put, pop}

module _ {ℓ} {V : Type ℓ} where
  pub get-put :
      (k j : String) (v : V) (d : Dict V) → get j (put k v d) ≡ (if k == j then some v else get j d)
  unfolding get put
  get-put k j v [] = refl
  get-put k j v ((i, w) ∷ d) = ground (arith, eq_iff k j, eq_iff i k, eq_iff i j, get-put k j v d)

  pub get-put_self : (k : String) (v : V) (d : Dict V) → get k (put k v d) ≡ some v
  get-put_self k v d = ground (arith, get-put k k v d, eq_iff k k)

  pub get-put_ne : (k j : String) (v : V) (d : Dict V) → k ≢ j → get j (put k v d) ≡ get j d
  get-put_ne k j v d h = ground (arith, get-put k j v d, eq_iff k j)

  -- Writing back the value that a present key had undoes a write to it.
  pub put-put_restore :
      (k : String) (v w : V) (d : Dict V) → get k d ≡ some v → put k v (put k w d) ≡ d
  unfolding get put
  put-put_restore k v w [] h = ground arith
  put-put_restore k v w ((i, u) ∷ d) h = ground (arith, eq_iff i k, put-put_restore k v w d)

  -- Writing the value that is there changes nothing.
  pub put_self : (k : String) (v : V) (d : Dict V) → get k d ≡ some v → put k v d ≡ d
  unfolding get put
  put_self k v [] h = ground arith
  put_self k v ((i, u) ∷ d) h = ground (arith, eq_iff i k, put_self k v d)

  -- Removing a key undoes the write that brought it in.
  pub pop-put_new : (k : String) (v : V) (d : Dict V) → get k d ≡ none → pop k (put k v d) ≡ d
  unfolding get put pop
  pop-put_new k v [] h = ground (arith, eq_iff k k)
  pop-put_new k v ((i, u) ∷ d) h = ground (arith, eq_iff i k, pop-put_new k v d)

  pub put-put : (k : String) (v w : V) (d : Dict V) → put k v (put k w d) ≡ put k v d
  unfolding put
  put-put k v w [] = ground (arith, eq_iff k k)
  put-put k v w ((i, u) ∷ d) = ground (arith, eq_iff i k, put-put k v w d)

module _ {ℓ} {V : Type ℓ} where
  -- No key occurs twice.
  abbrev pub IsDistinct : Dict V → Type ℓ
  IsDistinct [] = Unit
  IsDistinct ((k, v) ∷ d) = (get k d ≡ none) × IsDistinct d

  -- Every entry of the first dictionary is what the second returns for its key.
  abbrev pub IsStored : Dict V → Dict V → Type ℓ
  IsStored [] d = Unit
  IsStored ((k, v) ∷ r) d = (get k d ≡ some v) × IsStored r d

  pub put-IsDistinct : (k : String) (v : V) (d : Dict V) → IsDistinct d → IsDistinct (put k v d)
  unfolding get put
  put-IsDistinct k v [] h = (refl, tt)
  put-IsDistinct k v ((i, w) ∷ d) h = elim (Bool-cases (i == k)) [
    | inl e ↦ rw e h
    | inr e ↦
        rw e (ground (arith, get-put k i v d, eq_iff i k, eq_iff k i), put-IsDistinct k v d h.1)
  ]

  pub IsStored-put :
      (k : String) (w : V) (r d : Dict V) → get k r ≡ none → IsStored r d → IsStored r (put k w d)
  unfolding get
  IsStored-put k w [] d g h = tt
  IsStored-put k w ((i, v) ∷ r) d g h = (
    ground (arith, get-put k i w d, eq_iff k i, eq_iff i k),
    IsStored-put k w r d (ground arith) h.1,
  )

  IsStored-cons :
      (k : String) (w : V) (r d : Dict V) → get k r ≡ none → IsStored r d → IsStored r ((k, w) ∷ d)
  unfolding get
  IsStored-cons k w [] d g h = tt
  IsStored-cons k w ((i, v) ∷ r) d g h =
      (ground (arith, eq_iff k i, eq_iff i k), IsStored-cons k w r d (ground arith) h.1)

  pub IsStored-self : (d : Dict V) → IsDistinct d → IsStored d d
  unfolding get
  IsStored-self [] h = tt
  IsStored-self ((k, v) ∷ d) h =
      (ground (arith, eq_iff k k), IsStored-cons k v d d h.0 (IsStored-self d h.1))

-- What holds of every entry of a dictionary.
module _ {ℓ κ} {V : Type ℓ} (P : String → V → Type κ) where
  unfoldable pub Holds : Dict V → Type κ
  Holds [] = Unit
  Holds ((k, v) ∷ d) = P k v × Holds d

  pub Holds-empty : Holds []
  unfolding Holds
  Holds-empty = tt

  pub Holds-put : (k : String) (v : V) (d : Dict V) → Holds d → P k v → Holds (put k v d)
  unfolding Holds put
  Holds-put k v [] h p = (p, tt)
  Holds-put k v ((i, w) ∷ d) h p = elim (Bool-cases (i == k)) [
    | inl e ↦ rw e (subst (λ x. P x v) (sym ((eq_iff i k).0 e)) p, h.1)
    | inr e ↦ rw e (h.0, Holds-put k v d h.1 p)
  ]

  pub Holds-pop : (k : String) (d : Dict V) → Holds d → Holds (pop k d)
  unfolding Holds pop
  Holds-pop k [] h = tt
  Holds-pop k ((i, w) ∷ d) h = elim (Bool-cases (i == k)) [
    | inl e ↦ rw e h.1
    | inr e ↦ rw e (h.0, Holds-pop k d h.1)
  ]

  pub Holds-get : (k : String) (d : Dict V) {v : V} → Holds d → get k d ≡ some v → P k v
  unfolding Holds get
  Holds-get k [] h e = absurd (ground arith)
  Holds-get k ((i, w) ∷ d) {v} h e = elim (Bool-cases (i == k)) [
    | inl q ↦ subst (λ x. P x v) ((eq_iff i k).0 q) (subst (P i) (ground arith) h.0)
    | inr q ↦ Holds-get k d h.1 (ground arith)
  ]
