-- ===== src/RateLimit/Served.antt =====
-- backend/app/middleware/rate_limiter.py: the requests that `check_request` has accepted.
use mama_ai.Prelude.{
  ℕ, String, ◌≡◌, ◌≤◌, ◌<◌, ◌+◌, max, arith, true, false, ◌&&◌, ◌==◌, List, [], ◌∷◌, All, length,
  if◌then◌else◌, Bool-cases, inl, inr, subst, eq_iff,
}
use mama_ai.Result.{Result, ok, err}
use mama_ai.RateLimit.{
  Floats, RateLimitRule, RateLimitResult, RateStore, new_store, bucket_of, set_bucket, prune,
  append, unique, wait_for, scan, record_all, check_request,
}
use mama_ai.RateLimit.Window.{
  is_recent, recent, IsNoLater, IsAscending, recent-prune, length-prune, prune-All,
  prune-IsAscending, recent-append, append-All, append-IsAscending, All-IsNoLater,
}
use mama_ai.RateLimit.Store.{bucket_of-set_bucket, is_in, IsUnique, bucket_of-record_all}

-- An accepted request: its identifiers and its time.
pub record Accepted : Type 0 where
  pub identifiers : List String
  pub time : ℕ

module _ ⦃F : Floats⦄ where
  -- How many of the accepted requests with an identifier are in the window that ends at `now`.
  unfoldable pub served : ℕ → ℕ → String → List Accepted → ℕ
  served window now i [] = 0
  served window now i (a ∷ log) =
      (if is_in i a.identifiers && is_recent window now a.time then 1 else 0)
      + served window now i log

  -- the log after a call
  abbrev pub logged : List String → ℕ → Result RateLimitResult → List Accepted → List Accepted
  logged ids now (ok r) log =
      if r.allowed then record { identifiers = unique ids; time = now } ∷ log else log
  logged ids now (err e) log = log

  -- Calls of `check_request` under one rule, at times that never go back.
  pub data Serves (rule : RateLimitRule) : List Accepted → ℕ → RateStore → Type 0 where
    starts : Serves rule [] 0 new_store
    checks :
        {log : List Accepted} {last : ℕ} {s : RateStore} (ids : List String) (now : ℕ)
        → Serves rule log last s
        → last ≤ now
        → Serves rule
            (logged ids now (check_request ids rule now s).0 log)
            now
            (check_request ids rule now s).1

  -- A bucket stands for the accepted requests of its identifier.
  pub record Tracks (window now : ℕ) (log : List Accepted) (i : String) (b : List ℕ) : Type 0 where
    pub ascending : IsAscending b
    pub past : All (IsNoLater now) b
    pub counts : (later : ℕ) → now ≤ later → recent window later b ≡ served window later i log

  pub Tracks-later :
      (window now later : ℕ) (log : List Accepted) (i : String) (b : List ℕ)
      → now ≤ later
      → Tracks window now log i b
      → Tracks window later log i b
  Tracks-later window now later log i b h t = record {
    ascending = t.ascending;
    past = All-IsNoLater now later b h t.past;
    counts = λ n k. t.counts n (omega (arith, h, k));
  }

  pub prune-Tracks :
      (window now : ℕ) (log : List Accepted) (i : String) (b : List ℕ)
      → Tracks window now log i b
      → Tracks window now log i (prune now window b)
  prune-Tracks window now log i b t = record {
    ascending = prune-IsAscending window now b t.ascending;
    past = prune-All (IsNoLater now) window now b t.past;
    counts = λ n k. rw (recent-prune window now n b k) (t.counts n k);
  }

  module _ (name : String) (limit window now : ℕ) (log : List Accepted) where
    abbrev pub AllTrack : RateStore → Type 0
    AllTrack s = (i : String) → Tracks window now log i (bucket_of name i s)

    pub set_bucket-AllTrack :
        (i : String) (b : List ℕ) (s : RateStore)
        → AllTrack s
        → Tracks window now log i b
        → AllTrack (set_bucket name i b s)
    set_bucket-AllTrack i b s h t j = elim (Bool-cases (i == j)) [
      | inl e ↦
          rw (bucket_of-set_bucket name i j b s, e)
            (subst (λ x. Tracks window now log x b) ((eq_iff i j).0 e) t)
      | inr e ↦ rw (bucket_of-set_bucket name i j b s, e) (h j)
    ]

    -- The identifiers have room.
    abbrev pub HasRoom : String → Type 0
    HasRoom i = served window now i log < limit

    room : (b : List ℕ) → wait_for limit window now b ≡ 0 → length b < limit
    room b h = ground arith

    pub scan_lem :
        (ids : List String) (retry : ℕ) (s : RateStore)
        → AllTrack s
        → AllTrack (scan name limit window now ids retry s).1
          × (retry ≤ (scan name limit window now ids retry s).0)
          × ((scan name limit window now ids retry s).0 ≡ 0 → All HasRoom ids)
    unfolding scan
    scan_lem [] retry s h = (h, omega arith, λ e. tt)
    scan_lem (i ∷ ids) retry s h =
        let b = prune now window (bucket_of name i s) in
        let t = prune-Tracks window now log i (bucket_of name i s) (h i) in
        let (a, c, d) =
          scan_lem ids (max retry (wait_for limit window now b)) (set_bucket name i b s)
            (set_bucket-AllTrack i b s h t) in
        let n = length-prune window now (bucket_of name i s) (h i).ascending in
        let m = (h i).counts now (omega arith) in
        (a, omega (arith, c), λ e. (omega (arith, n, m, room b (omega (arith, c, e))), d e))

    pub HasRoom-in :
        (i : String) (ids : List String) → All HasRoom ids → is_in i ids ≡ true → HasRoom i
    HasRoom-in i [] h k = absurd (ground arith)
    HasRoom-in i (x ∷ xs) h k = elim (Bool-cases (x == i)) [
      | inl e ↦ subst HasRoom ((eq_iff x i).0 e) h.0
      | inr e ↦ HasRoom-in i xs h.1 (ground arith)
    ]

    append-Tracks :
        (ids : List String) (i : String) (b : List ℕ)
        → is_in i ids ≡ true
        → Tracks window now log i b
        → Tracks window now (record { identifiers = ids; time = now } ∷ log) i (append b now)
    unfolding served
    append-Tracks ids i b h t = record {
      ascending = append-IsAscending now b t.ascending t.past;
      past = append-All (IsNoLater now) now b t.past (omega arith);
      counts = λ n k. rw (recent-append window n now b, h, t.counts n k) (omega arith);
    }

    skip-Tracks :
        (ids : List String) (i : String) (b : List ℕ)
        → is_in i ids ≡ false
        → Tracks window now log i b
        → Tracks window now (record { identifiers = ids; time = now } ∷ log) i b
    unfolding served
    skip-Tracks ids i b h t = record {
      ascending = t.ascending;
      past = t.past;
      counts = λ n k. rw h (omega (arith, t.counts n k));
    }

    pub record_all-Tracks :
        (ids : List String) (s : RateStore)
        → IsUnique ids
        → AllTrack s
        → (i : String)
        → Tracks window now
            (record { identifiers = ids; time = now } ∷ log)
            i
            (bucket_of name i (record_all name now ids s))
    record_all-Tracks ids s u h i = elim (Bool-cases (is_in i ids)) [
      | inl e ↦
          rw (bucket_of-record_all name i now ids s u, e)
            (append-Tracks ids i (bucket_of name i s) e (h i))
      | inr e ↦
          rw (bucket_of-record_all name i now ids s u, e)
            (skip-Tracks ids i (bucket_of name i s) e (h i))
    ]
