-- ===== src/Queue/Budget.antt =====
-- backend/app/database/queue_db.py: the claims that the open jobs have left.
use mama_ai.Prelude.{
  ℕ, String, ◌≡◌, ◌≤◌, ◌+◌, ◌-◌, arith, true, ◌==◌, none, some, [], ◌∷◌, Bool-cases, inl, inr,
  if◌then◌else◌,
}
use mama_ai.Dict
use mama_ai.Dict.{Dict}
use mama_ai.Queue.{QueueRow, claimed}
use mama_ai.Queue.Store.{is_open, fail_row}
use mama_ai.Queue.Claim.{is_available, is_exhausted, exhausted_row, claim_row}
use mama_ai.Queue.Life.{IsSound}

-- how many more times a row can be claimed
abbrev pub spare_claims : QueueRow → ℕ
spare_claims r = if is_open r.status then r.max_attempts - r.attempts else 0

unfoldable pub total_claims : Dict QueueRow → ℕ
total_claims [] = 0
total_claims ((k, r) ∷ d) = spare_claims r + total_claims d

pub total_claims-put :
    (k : String) (v r : QueueRow) (d : Dict QueueRow)
    → Dict.get k d ≡ some v
    → total_claims (Dict.put k r d) + spare_claims v ≡ total_claims d + spare_claims r
unfolding total_claims Dict.get Dict.put
total_claims-put k v r [] h = absurd (ground arith)
total_claims-put k v r ((i, w) ∷ d) h = elim (Bool-cases (i == k)) [
  | inl e ↦ let p : w ≡ v = ground arith in rw (e, p) (omega arith)
  | inr e ↦ let rest = total_claims-put k v r d (ground arith) in rw e (omega (arith, rest))
]

pub total_claims-new :
    (k : String) (r : QueueRow) (d : Dict QueueRow)
    → Dict.get k d ≡ none
    → total_claims (Dict.put k r d) ≡ total_claims d + spare_claims r
unfolding total_claims Dict.get Dict.put
total_claims-new k r [] h = omega arith
total_claims-new k r ((i, w) ∷ d) h = elim (Bool-cases (i == k)) [
  | inl e ↦ absurd (ground arith)
  | inr e ↦ let rest = total_claims-new k r d (ground arith) in rw e (omega (arith, rest))
]

pub spare_claims-exhausted :
    (now : ℕ) (error : String) (r : QueueRow)
    → is_exhausted now r ≡ true
    → (spare_claims r ≡ 0) × (spare_claims (exhausted_row now error r) ≡ 0)
unfolding is_exhausted
spare_claims-exhausted now error r h = (ground arith, ground arith)

pub spare_claims-claim :
    (id worker : String) (expiry now : ℕ) (v : QueueRow)
    → IsSound id v
    → is_available now v ≡ true
    → spare_claims v ≡ spare_claims (claim_row worker expiry now v) + 1
unfolding is_available
spare_claims-claim id worker expiry now v h a = ground arith

pub spare_claims-fail :
    (error : String) (delay now : ℕ) (v : QueueRow)
    → v.status ≡ claimed
    → spare_claims (fail_row error delay now v) ≤ spare_claims v
unfolding fail_row
spare_claims-fail error delay now v h = ground arith
