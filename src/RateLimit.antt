-- ===== src/RateLimit.antt =====
-- backend/app/middleware/rate_limiter.py: `SlidingWindowRateLimitStore`. A time is a `float`; it
-- is known by its place in the order of the floats, and their arithmetic, which rounds, is a parameter.
pub mod Auth
pub mod Window
pub mod Store
pub mod Served
pub mod Bound
use Prim.Native.String.{◌++◌}
use mama_ai.Prelude.{
  ℕ, ◌≤◌, suc, ◌-◌, max, min, String, Bool, true, false, not, ◌==◌, Option, none, some, List, [],
  ◌∷◌, leb, ltb, length, select, if◌then◌else◌,
}
use mama_ai.Int.{ℤ, pos, negsuc}
use mama_ai.Text.{is_empty}
use mama_ai.Approval.{seconds}
use mama_ai.Dict
use mama_ai.Dict.{Dict}
use mama_ai.Result.{value_error, Result, ok, err}
use mama_ai.Exec.{Exec, lift, raise, ◌>>=◌}

-- The arithmetic of times and whole numbers of seconds, with `math.ceil`. Rounding keeps the order.
pub record Floats : Type 0 where
  -- `0.0`
  pub nought : ℕ
  -- `now - window_seconds`
  pub minus : ℕ → ℕ → ℕ
  pub minus_le : (a b n : ℕ) → a ≤ b → minus a n ≤ minus b n
  -- `now + cooldown_seconds`
  pub plus : ℕ → ℕ → ℕ
  -- `math.ceil(first + window_seconds - now)`
  pub ceil_wait : ℕ → ℕ → ℕ → ℤ
  -- `math.ceil(until - now)`
  pub ceil_left : ℕ → ℕ → ℤ

pub record RateLimitRule : Type 0 where
  pub name : String
  pub limit : ℤ
  pub window_seconds : ℤ

pub record RateLimitResult : Type 0 where
  pub allowed : Bool
  pub limit : ℕ
  pub remaining : ℕ
  pub retry_after : ℕ
  pub category : String

-- The state of the store. The times of a bucket have the oldest first.
pub record RateStore : Type 0 where
  pub request_buckets : Dict (List ℕ)
  pub authentication_failures : Dict (List ℕ)
  pub blocked_until : Dict ℕ

abbrev pub new_store : RateStore
new_store = record { request_buckets = []; authentication_failures = []; blocked_until = [] }

-- `_validate_positive_integer`
unfoldable pub validate_positive_integer : ℤ → String → Result ℕ
validate_positive_integer (negsuc n) field_name =
    err (value_error (field_name ∷ " must be at least 1." ∷ []))
validate_positive_integer (pos n) field_name =
    if leb 1 n then ok n else err (value_error (field_name ∷ " must be at least 1." ∷ []))

module _ ⦃F : Floats⦄ where
  -- `_prune`
  unfoldable pub prune : ℕ → ℕ → List ℕ → List ℕ
  prune now window [] = []
  prune now window (t ∷ ts) =
      let rest = prune now window ts in if leb t (F.minus now window) then rest else t ∷ ts

-- a bucket of a `defaultdict(deque)`
abbrev pub or_empty : Option (List ℕ) → List ℕ
or_empty none = []
or_empty (some b) = b

abbrev pub bucket_key : String → String → String
bucket_key name identifier = name ++ ":" ++ identifier

abbrev pub bucket_of : String → String → RateStore → List ℕ
bucket_of name identifier s = or_empty (Dict.get (bucket_key name identifier) s.request_buckets)

abbrev pub set_bucket : String → String → List ℕ → RateStore → RateStore
set_bucket name identifier b s = record s {
  request_buckets = Dict.put (bucket_key name identifier) b s.request_buckets;
}

-- `bucket.append(t)`
unfoldable pub append : List ℕ → ℕ → List ℕ
append [] t = t ∷ []
append (x ∷ xs) t = x ∷ append xs t

-- `dict.fromkeys` of the identifiers that are not empty
unfoldable pub unique : List String → List String
unique [] = []
unique (x ∷ xs) =
    let rest = unique xs in if is_empty x then rest else x ∷ select (λ y. not (y == x)) rest

-- `max(1, seconds)`
abbrev pub at_least_one : ℤ → ℕ
at_least_one (pos n) = max 1 n
at_least_one (negsuc n) = 1

abbrev pub first_or_now : ℕ → List ℕ → ℕ
first_or_now now [] = now
first_or_now now (t ∷ ts) = t

module _ ⦃F : Floats⦄ where
  -- what a full bucket adds to `retry_after`; its first time has not left the window
  abbrev pub wait_for : ℕ → ℕ → ℕ → List ℕ → ℕ
  wait_for limit window now b =
      if leb limit (length b) then at_least_one (F.ceil_wait (first_or_now now b) window now) else 0

  -- the loop that prunes the buckets, with `retry_after`
  unfoldable pub scan : String → ℕ → ℕ → ℕ → List String → ℕ → RateStore → ℕ × RateStore
  scan name limit window now [] retry s = (retry, s)
  scan name limit window now (i ∷ ids) retry s =
      let b = prune now window (bucket_of name i s) in
      scan name limit window now ids (max retry (wait_for limit window now b))
        (set_bucket name i b s)

-- `bucket.append(current_time)` in every bucket
unfoldable pub record_all : String → ℕ → List String → RateStore → RateStore
record_all name now [] s = s
record_all name now (i ∷ ids) s =
    record_all name now ids (set_bucket name i (append (bucket_of name i s) now) s)

-- the least number of requests that a bucket has left, of at least one bucket
unfoldable pub least_remaining : String → ℕ → List String → RateStore → ℕ
least_remaining name limit [] s = limit
least_remaining name limit (i ∷ ids) s =
    min (limit - length (bucket_of name i s)) (least_remaining name limit ids s)

-- the part behind the first loop
unfoldable pub admit :
    String → ℕ → ℕ → List String → ℕ × RateStore → Result RateLimitResult × RateStore
admit name limit now ids (retry, s) =
    if ltb 0 retry
    then (
      ok (record {
        allowed = false;
        limit = limit;
        remaining = 0;
        retry_after = retry;
        category = name;
      }),
      s,
    )
    else (
      ok (record {
        allowed = true;
        limit = limit;
        remaining = least_remaining name limit ids (record_all name now ids s);
        retry_after = 0;
        category = name;
      }),
      record_all name now ids s,
    )

module _ ⦃F : Floats⦄ where
  unfoldable pub check_unique : String → ℕ → ℕ → ℕ → List String → Exec RateStore RateLimitResult
  check_unique name limit window now [] =
      raise (value_error ("At least one rate-limit identifier is required." ∷ []))
  check_unique name limit window now (i ∷ ids) =
      λ s. admit name limit now (i ∷ ids) (scan name limit window now (i ∷ ids) 0 s)

  -- `check_request`
  unfoldable pub check_request : List String → RateLimitRule → ℕ → Exec RateStore RateLimitResult
  check_request identifiers rule now = do
    limit ← lift (validate_positive_integer rule.limit "Rate-limit request count")
    window ← lift (validate_positive_integer rule.window_seconds "Rate-limit window")
    check_unique rule.name limit window now (unique identifiers)

-- `reset`
abbrev pub reset : Exec RateStore (Unit {0})
reset s = (ok tt, new_store)
