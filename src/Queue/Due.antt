-- ===== src/Queue/Due.antt =====
-- backend/app/database/queue_db.py: what `claim_next` does, with its queries and its updates written
-- out column by column.
use mama_ai.Prelude.{
  ℕ, String, ◌≡◌, ◌≤◌, ◌<◌, ◌+◌, ◌⊎◌, ◌==◌, eq_iff, arith, refl, true, Option, none, some,
  Bool-cases, inl, inr,
}
use mama_ai.Int.{ℤ}
use mama_ai.Approval.{seconds}
use mama_ai.Dict
use mama_ai.Dict.Laws.{get-put, get-put_self}
use mama_ai.Result.{ok}
use mama_ai.Exec.Ensures.{Ensures, Ensures-weaken}
use mama_ai.Queue.{
  queued, claimed, failed, QueueRow, QueueDb, validate_text, validate_lease, or_text,
}
use mama_ai.Queue.Claim.{
  is_available, is_exhausted, claim_next, exhausted_error, is_over, exhausted_row, claim_row,
}
use mama_ai.Queue.Effect.{Moved}
use mama_ai.Queue.Valid.{IsValid}
use mama_ai.Queue.Expire.{Swept, Sweeps, keeps, expires}
use mama_ai.Queue.Claims.{claim_next_lem, Hands}

-- A lease that has run out.
pub record IsOver (now : ℕ) (w : QueueRow) : Type 0 where
  pub end : ℕ
  pub lease : w.lease_expires_at ≡ some end
  pub over : end ≤ now

-- A row that waits and whose time has come, or one whose worker has lost it with attempts left.
abbrev pub IsDue : ℕ → QueueRow → Type 0
IsDue now w =
    ((w.status ≡ queued) × (w.available_at ≤ now))
    ⊎ ((w.status ≡ claimed) × IsOver now w × (w.attempts < w.max_attempts))

-- A row whose worker has lost it with no attempt left.
abbrev pub IsSpent : ℕ → QueueRow → Type 0
IsSpent now w = (w.status ≡ claimed) × IsOver now w × (w.max_attempts ≤ w.attempts)

is_over-IsOver :
    (now : ℕ) (w : QueueRow) (o : Option ℕ)
    → w.lease_expires_at ≡ o
    → is_over now o ≡ true
    → IsOver now w
is_over-IsOver now w none e h = absurd (ground arith)
is_over-IsOver now w (some t) e h = record { end = t; lease = e; over = ground arith }

lease-IsOver : (now : ℕ) (w : QueueRow) → is_over now w.lease_expires_at ≡ true → IsOver now w
lease-IsOver now w h = is_over-IsOver now w w.lease_expires_at refl h

IsOver-is_over : (now : ℕ) (w : QueueRow) → IsOver now w → is_over now w.lease_expires_at ≡ true
IsOver-is_over now w h = rw h.lease (ground (arith, h.over))

available_cases :
    (now : ℕ) (w : QueueRow)
    → is_available now w ≡ true
    → ((w.status ≡ queued) × (w.available_at ≤ now))
      ⊎ ((w.status ≡ claimed)
          × (is_over now w.lease_expires_at ≡ true)
          × (w.attempts < w.max_attempts))
unfolding is_available
available_cases now w h = ground arith

available-IsDue : (now : ℕ) (w : QueueRow) → is_available now w ≡ true → IsDue now w
available-IsDue now w h = elim (available_cases now w h) [
  | inl p ↦ inl p
  | inr (a, b, c) ↦ inr (a, lease-IsOver now w b, c)
]

IsDue-available : (now : ℕ) (w : QueueRow) → IsDue now w → is_available now w ≡ true
unfolding is_available
IsDue-available now w (inl (a, b)) = ground arith
IsDue-available now w (inr (a, b, c)) = let d = IsOver-is_over now w b in ground arith

exhausted-IsSpent : (now : ℕ) (w : QueueRow) → is_exhausted now w ≡ true → IsSpent now w
unfolding is_exhausted
exhausted-IsSpent now w h = (ground arith, lease-IsOver now w (ground arith), ground arith)

-- The row `x` is the row `w` failed, without its worker, with its last error or that of the lease.
pub record IsFailed (now : ℕ) (w x : QueueRow) : Type 0 where
  pub task_id : x.task_id ≡ w.task_id
  pub owner_id : x.owner_id ≡ w.owner_id
  pub status : x.status ≡ failed
  pub attempts : x.attempts ≡ w.attempts
  pub max_attempts : x.max_attempts ≡ w.max_attempts
  pub available_at : x.available_at ≡ w.available_at
  pub lease_expires_at : x.lease_expires_at ≡ none
  pub worker_id : x.worker_id ≡ none
  pub last_error :
      x.last_error
      ≡ some (or_text w.last_error "Maximum attempts reached after worker lease expiry.")
  pub created_at : x.created_at ≡ w.created_at
  pub updated_at : x.updated_at ≡ now

-- The row `r` is the row `w` in the hands of a worker, with one more attempt.
pub record IsTaken (worker : String) (lease now : ℕ) (w r : QueueRow) : Type 0 where
  pub task_id : r.task_id ≡ w.task_id
  pub owner_id : r.owner_id ≡ w.owner_id
  pub status : r.status ≡ claimed
  pub attempts : r.attempts ≡ w.attempts + 1
  pub max_attempts : r.max_attempts ≡ w.max_attempts
  pub available_at : r.available_at ≡ w.available_at
  pub lease_expires_at : r.lease_expires_at ≡ some (now + seconds lease)
  pub worker_id : r.worker_id ≡ some worker
  pub last_error : r.last_error ≡ w.last_error
  pub created_at : r.created_at ≡ w.created_at
  pub updated_at : r.updated_at ≡ now

-- What becomes of a row that is not handed out: nothing, or it is failed, if it is spent.
pub data IsLeft (now : ℕ) (o : Option QueueRow) : Option QueueRow → Type 0 where
  as_it_was : IsLeft now o o
  failed_now :
      (w x : QueueRow) → o ≡ some w → IsSpent now w → IsFailed now w x → IsLeft now o (some x)

-- The oldest due row of the state `s` is stored and returned in the hands of the worker.
pub record IsHandedOut (worker : String) (lease now : ℕ) (s : QueueDb) (r : QueueRow) (s' : QueueDb)
    : Type 0 where
  pub row : QueueRow
  pub found : Dict.get row.task_id s.rows ≡ some row
  pub due : IsDue now row
  pub oldest :
      (id : String) (w : QueueRow)
      → Dict.get id s.rows ≡ some w
      → IsDue now w
      → row.created_at ≤ w.created_at
  pub taken : IsTaken worker lease now row r
  pub stored : Dict.get row.task_id s'.rows ≡ some r
  pub others :
      (id : String) → (row.task_id ≡ id) ⊎ IsLeft now (Dict.get id s.rows) (Dict.get id s'.rows)

-- No row is due, and all stay, but for those that are spent.
pub record IsIdle (now : ℕ) (s s' : QueueDb) : Type 0 where
  pub none_due : (id : String) (w : QueueRow) → Dict.get id s.rows ≡ some w → ¬ IsDue now w
  pub others : (id : String) → IsLeft now (Dict.get id s.rows) (Dict.get id s'.rows)

abbrev pub IsGiven : String → ℕ → ℕ → QueueDb → Option QueueRow → QueueDb → Type 0
IsGiven worker lease now s none s' = IsIdle now s s'
IsGiven worker lease now s (some r) s' = IsHandedOut worker lease now s r s'

-- The arguments are valid, and the call hands out the oldest due row, or there is none.
abbrev pub ClaimsDue : ℕ → String → ℤ → QueueDb → Option QueueRow → QueueDb → Type 0
ClaimsDue now worker_id lease_seconds s o s' =
    (worker : String) × (lease : ℕ) × (validate_text worker_id "Worker ID" ≡ ok worker)
    × (validate_lease lease_seconds ≡ ok lease)
    × IsGiven worker lease now s o s'

Swept-IsLeft : (now : ℕ) (o o' : Option QueueRow) → Swept now o o' → IsLeft now o o'
Swept-IsLeft now o o' keeps = as_it_was
Swept-IsLeft now o o' (expires w e h) =
    failed_now w (exhausted_row now (exhausted_error w) w) e (exhausted-IsSpent now w h) (record {
      task_id = refl;
      owner_id = refl;
      status = refl;
      attempts = refl;
      max_attempts = refl;
      available_at = refl;
      lease_expires_at = refl;
      worker_id = refl;
      last_error = refl;
      created_at = refl;
      updated_at = refl;
    })

claim_row-IsTaken :
    (worker : String) (lease now : ℕ) (w : QueueRow)
    → IsTaken worker lease now w (claim_row worker (now + seconds lease) now w)
claim_row-IsTaken worker lease now w = record {
  task_id = refl;
  owner_id = refl;
  status = refl;
  attempts = refl;
  max_attempts = refl;
  available_at = refl;
  lease_expires_at = refl;
  worker_id = refl;
  last_error = refl;
  created_at = refl;
  updated_at = refl;
}

module _ (now : ℕ) (s d : QueueDb) (swept : Sweeps now s d) where
  Sweeps-IsLeft : (id : String) → IsLeft now (Dict.get id s.rows) (Dict.get id d.rows)
  Sweeps-IsLeft id = Swept-IsLeft now (Dict.get id s.rows) (Dict.get id d.rows) (swept.rows id)

  Moved-IsLeft :
      (k id : String) {v r : QueueRow} {s' : QueueDb}
      → Moved k v r d s'
      → (k ≡ id) ⊎ IsLeft now (Dict.get id s.rows) (Dict.get id s'.rows)
  Moved-IsLeft k id {v} {r} m = elim (Bool-cases (k == id)) [
    | inl e ↦ inl ((eq_iff k id).0 e)
    | inr e ↦ inr (rw (m.result, get-put k id r d.rows, e) (Sweeps-IsLeft id))
  ]

  Hands-IsGiven :
      (worker : String) (lease : ℕ) (o : Option QueueRow) (s' : QueueDb)
      → Hands worker lease now s d o s'
      → IsGiven worker lease now s o s'
  Hands-IsGiven worker lease none s' h = record {
    none_due = λ id w g due.
        let a = IsDue-available now w due in let b = h.0 id w g in absurd (ground arith);
    others = λ id. rw h.1 (Sweeps-IsLeft id);
  }
  Hands-IsGiven worker lease (some r) s' p = record {
    row = p.row;
    found = p.found;
    due = available-IsDue now p.row p.available;
    oldest = λ id w g due. p.oldest id w g (IsDue-available now w due);
    taken = rw p.claimed (claim_row-IsTaken worker lease now p.row);
    stored = rw p.moved.result (get-put_self p.row.task_id r d.rows);
    others = λ id. Moved-IsLeft p.row.task_id id p.moved;
  }

-- On a valid queue, a `claim_next` that returns was given valid arguments. It returns nothing, and
-- no row is due, or it returns and stores the oldest row that is due: one that is queued and whose
-- time has come, or one that is claimed, with a lease that has run out and an attempt left. The
-- returned row is claimed by the worker, with one more attempt, the end of the lease the given
-- seconds from now and the time of the call, and is otherwise as it was. Every other row stays as
-- it was, or is failed, without worker and lease, if it was claimed, its lease has run out and no
-- attempt was left. One that raises leaves both tables as they were.
pub claim_next-ClaimsDue :
    (fresh : ℕ → String) (now : ℕ) (worker_id : String) (lease_seconds : ℤ) (s : QueueDb)
    → IsValid s
    → Ensures
        (ClaimsDue now worker_id lease_seconds s)
        (λ s'. s' ≡ s)
        (claim_next fresh now worker_id lease_seconds s)
claim_next-ClaimsDue fresh now worker_id lease_seconds s valid =
    Ensures-weaken (claim_next_lem fresh now worker_id lease_seconds s valid)
      (λ o s' (worker, lease, w, l, c).
        (worker, lease, w, l, Hands-IsGiven now s c.between c.swept worker lease o s' c.hands))
      (λ s' p. p)
