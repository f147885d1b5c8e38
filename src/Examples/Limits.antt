-- ===== src/Examples/Limits.antt =====
-- Requests of one client under a limit of two in a minute.
use mama_ai.Prelude.{◌+◌, ◌-◌, ◌/◌, String, ◌≤◌, arith, List, [], ◌∷◌}
use mama_ai.Int.{pos}
use mama_ai.Approval.{seconds}
use mama_ai.RateLimit.{Floats, RateLimitRule, RateStore, check_request, new_store}
use mama_ai.RateLimit.Served.{Accepted, served, logged, Serves, starts, checks}
use mama_ai.RateLimit.Bound.{served-le_limit}

-- Times that are numbers of microseconds; no rounding is needed.
instance abbrev exact : Floats
exact = record {
  nought = 0;
  minus = λ now window. now - seconds window;
  minus_le = λ a b n h. omega arith;
  plus = λ now window. now + seconds window;
  ceil_wait = λ first window now. pos ((first + seconds window - now + 999999) / 1000000);
  ceil_left = λ until now. pos ((until - now + 999999) / 1000000);
}

abbrev chat_rule : RateLimitRule
chat_rule = record { name = "chat"; limit = pos 2; window_seconds = pos 60 }

abbrev callers : List String
callers = "client:a" ∷ []

abbrev served_once : List Accepted
served_once = logged callers 100000100 (check_request callers chat_rule 100000100 new_store).0 []

abbrev store_once : RateStore
store_once = (check_request callers chat_rule 100000100 new_store).1

abbrev served_twice : List Accepted
served_twice =
    logged callers 100000200 (check_request callers chat_rule 100000200 store_once).0 served_once

abbrev store_twice : RateStore
store_twice = (check_request callers chat_rule 100000200 store_once).1

served_twice-Serves : Serves chat_rule served_twice 100000200 store_twice
served_twice-Serves =
    checks callers 100000200 (checks callers 100000100 starts (omega arith)) (omega arith)

served-le_limit_example : served 60 100000300 "client:a" served_twice ≤ 2
served-le_limit_example =
    served-le_limit "chat" 2 60 100000200 100000300 "client:a" served_twice store_twice
      served_twice-Serves (omega arith)
