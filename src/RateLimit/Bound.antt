-- ===== src/RateLimit/Bound.antt =====
-- backend/app/middleware/rate_limiter.py: how many requests `check_request` accepts in a window.
use mama_ai.Prelude.{
  ℕ, String, ◌≡◌, ◌≤◌, refl, arith, List, [], ◌∷◌, All, leb, ltb, Bool-cases, inl, inr, subst,
}
use mama_ai.Int.{pos}
use mama_ai.Dict
use mama_ai.Result.{Result}
use mama_ai.RateLimit.{
  Floats, RateLimitRule, RateLimitResult, RateStore, new_store, unique, scan, admit, check_unique,
  check_request, validate_positive_integer,
}
use mama_ai.RateLimit.Window.{recent}
use mama_ai.RateLimit.Store.{is_in, unique-IsUnique}
use mama_ai.RateLimit.Served.{
  Accepted, served, logged, Serves, starts, checks, Tracks-later, AllTrack, HasRoom, HasRoom-in,
  scan_lem, record_all-Tracks,
}

module _ ⦃F : Floats⦄ where
  pub served-le :
      (window now later : ℕ) (i : String) (log : List Accepted)
      → now ≤ later
      → served window later i log ≤ served window now i log
  unfolding served
  served-le window now later i [] h = omega arith
  served-le window now later i (a ∷ log) h =
      let rest = served-le window now later i log h in
      let k = F.minus_le now later window h in ground arith

  module _ (name : String) (limit window : ℕ) where
    -- The buckets stand for the accepted requests, and no identifier has more than it may.
    pub record IsWithin (now : ℕ) (log : List Accepted) (s : RateStore) : Type 0 where
      pub tracks : AllTrack name limit window now log s
      pub within : (i : String) → served window now i log ≤ limit

    abbrev pub rule_of : RateLimitRule
    rule_of = record { name = name; limit = pos limit; window_seconds = pos window }

    pub IsWithin-later :
        (now later : ℕ) (log : List Accepted) (s : RateStore)
        → now ≤ later
        → IsWithin now log s
        → IsWithin later log s
    IsWithin-later now later log s h w = record {
      tracks = λ i. Tracks-later window now later log i _ h (w.tracks i);
      within = λ i. omega (arith, served-le window now later i log h, w.within i);
    }

    -- What a call makes of the log and the store.
    abbrev After : List String → ℕ → List Accepted → Result RateLimitResult × RateStore → Type 0
    After ids now log m = IsWithin now (logged ids now m.0 log) m.1

    one_more :
        (now : ℕ) (ids : List String) (i : String) (log : List Accepted)
        → All (HasRoom name limit window now log) ids
        → served window now i log ≤ limit
        → served window now i (record { identifiers = ids; time = now } ∷ log) ≤ limit
    unfolding served
    one_more now ids i log room h = elim (Bool-cases (is_in i ids)) [
      | inl e ↦ let r = HasRoom-in name limit window now log i ids room e in ground arith
      | inr e ↦ ground arith
    ]

    admit-After :
        (now : ℕ) (ids : List String) (log : List Accepted) (retry : ℕ) (s : RateStore)
        → IsWithin now log s
        → (retry ≡ 0 → All (HasRoom name limit window now log) (unique ids))
        → After ids now log (admit name limit now (unique ids) (retry, s))
    unfolding admit
    admit-After now ids log retry s w room = elim (Bool-cases (ltb 0 retry)) [
      | inl e ↦ rw e w
      | inr e ↦ rw e (record {
        tracks =
            record_all-Tracks name limit window now log (unique ids) s (unique-IsUnique ids)
              w.tracks;
        within = λ i. one_more now (unique ids) i log (room (ground arith)) (w.within i);
      })
    ]

    check_unique-After :
        (now : ℕ) (ids : List String) (log : List Accepted) (s : RateStore) (xs : List String)
        → IsWithin now log s
        → unique ids ≡ xs
        → After ids now log (check_unique name limit window now xs s)
    unfolding check_unique
    check_unique-After now ids log s [] w e = w
    check_unique-After now ids log s (x ∷ xs) w e =
        let (a, _, r) = scan_lem name limit window now log (x ∷ xs) 0 s w.tracks in
        subst
          (λ ys.
            After ids now log (admit name limit now ys (scan name limit window now (x ∷ xs) 0 s)))
          e
          (admit-After now ids log (scan name limit window now (x ∷ xs) 0 s).0
            (scan name limit window now (x ∷ xs) 0 s).1 (record { tracks = a; within = w.within })
            (rw e r))

    check_request-After :
        (now : ℕ) (ids : List String) (log : List Accepted) (s : RateStore)
        → IsWithin now log s
        → After ids now log (check_request ids rule_of now s)
    unfolding check_request validate_positive_integer
    check_request-After now ids log s w = elim (Bool-cases (leb 1 limit)) [
      | inr e ↦ rw e w
      | inl e ↦ elim (Bool-cases (leb 1 window)) [
        | inr q ↦ rw (e, q) w
        | inl q ↦ rw (e, q) (check_unique-After now ids log s (unique ids) w refl)
      ]
    ]

    start-IsWithin : IsWithin 0 [] new_store
    unfolding served recent Dict.get
    start-IsWithin = record {
      tracks = λ i. record { ascending = tt; past = tt; counts = λ n k. refl };
      within = λ i. omega arith;
    }

    pub Serves-IsWithin :
        {log : List Accepted} {now : ℕ} {s : RateStore}
        → Serves rule_of log now s
        → IsWithin now log s
    Serves-IsWithin starts = start-IsWithin
    Serves-IsWithin (checks {log = log} {last = last} {s = s} ids now r h) =
        check_request-After now ids log s (IsWithin-later last now log s h (Serves-IsWithin r))

  -- For every sequence of `check_request` calls under one rule, at times that never go back, and
  -- every identifier: of the accepted requests with this identifier, at most the limit of the rule
  -- are later than `now - window_seconds`, for a `now` that is not before the last call, whatever
  -- the rounding of this difference, as long as it keeps the order of times.
  pub served-le_limit :
      (name : String) (limit window now later : ℕ) (i : String) (log : List Accepted)
      (s : RateStore)
      → Serves (record { name = name; limit = pos limit; window_seconds = pos window }) log now s
      → now ≤ later
      → served window later i log ≤ limit
  served-le_limit name limit window now later i log s r h =
      let w = (Serves-IsWithin name limit window r).within i in
      omega (arith, w, served-le window now later i log h)
