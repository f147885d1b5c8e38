-- ===== src/RateLimit/Store.antt =====
-- backend/app/middleware/rate_limiter.py: the buckets of the store, by name and identifier.
use Prim.Native.String.{◌++◌}
use text.Mathlib.TextLemmas.{append_cancel_left}
use mama_ai.Prelude.{
  String, ◌≡◌, refl, subst, arith, Bool, false, not, ◌==◌, ◌||◌, eq_iff, eq_refl, ℕ, List, [], ◌∷◌,
  select, if◌then◌else◌, Bool-cases, inl, inr,
}
use mama_ai.Text.{is_empty}
use mama_ai.Dict.Laws.{get-put}
use mama_ai.RateLimit.{RateStore, bucket_key, bucket_of, set_bucket, record_all, append, unique}

bucket_key-eq : (name i j : String) → (bucket_key name i == bucket_key name j) ≡ (i == j)
bucket_key-eq name i j = elim (Bool-cases (i == j)) [
  | inl e ↦ rw ((eq_iff i j).0 e, eq_refl j, eq_refl (bucket_key name j)) refl
  | inr e ↦ elim (Bool-cases (bucket_key name i == bucket_key name j)) [
    | inr q ↦ rw (q, e) refl
    | inl q ↦
        let keys = (eq_iff (bucket_key name i) (bucket_key name j)).0 q in
        let p : i ≡ j =
          append_cancel_left ":" i j (append_cancel_left name (":" ++ i) (":" ++ j) keys) in
        absurd (ground (arith, eq_refl j))
  ]
]

pub bucket_of-set_bucket :
    (name i j : String) (b : List ℕ) (s : RateStore)
    → bucket_of name j (set_bucket name i b s) ≡ (if i == j then b else bucket_of name j s)
bucket_of-set_bucket name i j b s =
    let k = get-put (bucket_key name i) (bucket_key name j) b s.request_buckets in
    elim (Bool-cases (i == j)) [
      | inl e ↦ rw (k, bucket_key-eq name i j, e) refl
      | inr e ↦ rw (k, bucket_key-eq name i j, e) refl
    ]

abbrev pub is_in : String → List String → Bool
is_in i [] = false
is_in i (x ∷ xs) = (x == i) || is_in i xs

abbrev pub IsUnique : List String → Type 0
IsUnique [] = Unit
IsUnique (x ∷ xs) = (is_in x xs ≡ false) × IsUnique xs

is_in-select :
    (i x : String) (xs : List String)
    → is_in i xs ≡ false
    → is_in i (select (λ y. not (y == x)) xs) ≡ false
unfolding select
is_in-select i x [] h = refl
is_in-select i x (y ∷ ys) h = ground (arith, is_in-select i x ys)

is_in-select_self :
    (x : String) (xs : List String) → is_in x (select (λ y. not (y == x)) xs) ≡ false
unfolding select
is_in-select_self x [] = refl
is_in-select_self x (y ∷ ys) = ground (arith, is_in-select_self x ys)

select-IsUnique :
    (x : String) (xs : List String) → IsUnique xs → IsUnique (select (λ y. not (y == x)) xs)
unfolding select
select-IsUnique x [] h = tt
select-IsUnique x (y ∷ ys) h = elim (Bool-cases (y == x)) [
  | inl e ↦ rw e (select-IsUnique x ys h.1)
  | inr e ↦ rw e (is_in-select y x ys h.0, select-IsUnique x ys h.1)
]

pub unique-IsUnique : (xs : List String) → IsUnique (unique xs)
unfolding unique
unique-IsUnique [] = tt
unique-IsUnique (x ∷ xs) = elim (Bool-cases (is_empty x)) [
  | inl e ↦ rw e (unique-IsUnique xs)
  | inr e ↦
      rw e (is_in-select_self x (unique xs), select-IsUnique x (unique xs) (unique-IsUnique xs))
]

pub bucket_of-record_all :
    (name i : String) (now : ℕ) (ids : List String) (s : RateStore)
    → IsUnique ids
    → bucket_of name i (record_all name now ids s)
      ≡ (if is_in i ids then append (bucket_of name i s) now else bucket_of name i s)
unfolding record_all
bucket_of-record_all name i now [] s u = refl
bucket_of-record_all name i now (x ∷ xs) s u =
    let b = append (bucket_of name x s) now in
    let rest = bucket_of-record_all name i now xs (set_bucket name x b s) u.1 in
    let here = bucket_of-set_bucket name x i b s in
    elim (Bool-cases (x == i)) [
      | inl e ↦
          let p : x ≡ i = (eq_iff x i).0 e in
          let q : is_in i xs ≡ false = subst (λ y. is_in y xs ≡ false) p u.0 in
          rw (rest, q, here, e, p) refl
      | inr e ↦ rw (rest, here, e) refl
    ]
