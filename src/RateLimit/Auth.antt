-- ===== src/RateLimit/Auth.antt =====
-- backend/app/middleware/rate_limiter.py: the cooldown after failed authentications.
use mama_ai.Prelude.{
  ℕ, String, Bool, true, false, Option, none, some, List, leb, length, if◌then◌else◌,
}
use mama_ai.Int.{ℤ}
use mama_ai.Dict
use mama_ai.Result.{ok}
use mama_ai.Exec.{Exec, lift, ◌>>=◌}
use mama_ai.RateLimit.{
  Floats, RateStore, validate_positive_integer, prune, append, or_empty, at_least_one,
}

pub record AuthenticationAbuseResult : Type 0 where
  pub blocked : Bool
  pub failures : ℕ
  pub retry_after : ℕ

abbrev pub failures_of : String → RateStore → List ℕ
failures_of client s = or_empty (Dict.get client s.authentication_failures)

abbrev pub returning {ℓ} : {A S : Type ℓ} → (S → A × S) → Exec S A
returning f s = (ok (f s).0, (f s).1)

module _ ⦃F : Floats⦄ where
  -- `self._blocked_until.get(client_identifier, 0.0)`
  abbrev pub or_nought : Option ℕ → ℕ
  or_nought none = F.nought
  or_nought (some t) = t

  abbrev pub blocked_until : String → RateStore → ℕ
  blocked_until client s = or_nought (Dict.get client s.blocked_until)

  abbrev pub abuse : Bool → ℕ → String → RateStore → AuthenticationAbuseResult
  abuse blocked retry_after client s = record {
    blocked = blocked;
    failures = length (failures_of client s);
    retry_after = retry_after;
  }

  -- `authentication_cooldown`
  unfoldable pub authentication_cooldown :
      String → ℕ → RateStore → AuthenticationAbuseResult × RateStore
  authentication_cooldown client now s =
      if leb (blocked_until client s) now
      then (abuse false 0 client s, record s { blocked_until = Dict.pop client s.blocked_until })
      else (abuse true (at_least_one (F.ceil_left (blocked_until client s) now)) client s, s)

  abbrev pub append_failure : String → ℕ → ℕ → RateStore → RateStore
  append_failure client window now s = record s {
    authentication_failures =
        Dict.put client (append (prune now window (failures_of client s)) now)
          s.authentication_failures;
  }

  -- the part behind the append
  unfoldable pub count_failure :
      String → ℕ → ℕ → ℕ → RateStore → AuthenticationAbuseResult × RateStore
  count_failure client limit cooldown now s =
      if leb limit (length (failures_of client s))
      then (
        abuse true cooldown client s,
        record s { blocked_until = Dict.put client (F.plus now cooldown) s.blocked_until },
      )
      else (abuse false 0 client s, s)

  unfoldable pub after_cooldown :
      String
      → ℕ
      → ℕ
      → ℕ
      → ℕ
      → AuthenticationAbuseResult × RateStore
      → AuthenticationAbuseResult × RateStore
  after_cooldown client limit window cooldown now (active, s) =
      if active.blocked
      then (active, s)
      else count_failure client limit cooldown now (append_failure client window now s)

  -- `record_authentication_failure`
  unfoldable pub record_authentication_failure :
      String → ℤ → ℤ → ℤ → ℕ → Exec RateStore AuthenticationAbuseResult
  record_authentication_failure client failure_limit failure_window_seconds cooldown_seconds now =
      do
        limit ← lift (validate_positive_integer failure_limit "Authentication failure limit")
        window ←
            lift (validate_positive_integer failure_window_seconds "Authentication failure window")
        cooldown ← lift (validate_positive_integer cooldown_seconds "Authentication cooldown")
        returning (λ s.
            after_cooldown client limit window cooldown now (authentication_cooldown client now s))
