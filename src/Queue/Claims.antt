-- ===== src/Queue/Claims.antt =====
-- backend/app/database/queue_db.py: which job `claim_next` hands out, and to whom.
use mama_ai.Prelude.{
  ℕ, String, ◌≡◌, ◌≤◌, ◌+◌, refl, arith, true, false, Option, none, some, Bool-cases, inl, inr,
  subst, select,
}
use mama_ai.Int.{ℤ}
use mama_ai.Approval.{seconds}
use mama_ai.Dict
use mama_ai.Dict.Laws.{get-put_self}
use mama_ai.Result.{ok}
use mama_ai.Exec.Ensures.{Ensures, returned, Ensures-bind, Ensures-weaken, Ensures-check}
use mama_ai.Queue.{QueueRow, QueueDb, validate_text, validate_lease}
use mama_ai.Queue.Table.{append, set_row}
use mama_ai.Queue.Claim.{
  is_available, is_exhausted, claim_row, claim_found, claim_oldest, claim_next, first_row,
  select_rows, expire_jobs, claim_event,
}
use mama_ai.Queue.Life.{claims}
use mama_ai.Queue.Valid.{IsValid, Change-IsValid}
use mama_ai.Queue.Effect.{Moved, append_lem, update_where_lem, Ensures-transact}
use mama_ai.Queue.Order.{All-get, All-none, All-first_row, select_rows-All, first_row-oldest}
use mama_ai.Queue.Expire.{Swept, keeps, expires, Sweeps, IsFound, expire_jobs_lem}

-- The oldest available row of a database, handed to a worker.
pub record Picked (worker : String) (lease now : ℕ) (s d : QueueDb) (r : QueueRow) (s' : QueueDb)
    : Type 0 where
  pub row : QueueRow
  pub found : Dict.get row.task_id s.rows ≡ some row
  pub available : is_available now row ≡ true
  pub oldest :
      (id : String) (w : QueueRow)
      → Dict.get id s.rows ≡ some w
      → is_available now w ≡ true
      → row.created_at ≤ w.created_at
  pub claimed : r ≡ claim_row worker (now + seconds lease) now row
  pub moved : Moved row.task_id row r d s'

-- Nothing is available in a database.
abbrev pub IsIdle : ℕ → QueueDb → Type 0
IsIdle now s =
    (id : String) (w : QueueRow) → Dict.get id s.rows ≡ some w → is_available now w ≡ false

-- What a claim in the state `s` may return; `d` is the state behind the loop over expired rows.
abbrev pub Hands : String → ℕ → ℕ → QueueDb → QueueDb → Option QueueRow → QueueDb → Type 0
Hands worker lease now s d none s' = IsIdle now s × (s' ≡ d)
Hands worker lease now s d (some r) s' = Picked worker lease now s d r s'

available-keeps :
    (now : ℕ) (o : Option QueueRow) (w : QueueRow)
    → Swept now (some w) o
    → is_available now w ≡ true
    → o ≡ some w
unfolding is_available is_exhausted
available-keeps now o w keeps a = refl
available-keeps now o w (expires v q e) a =
    let same_row : v ≡ w = cc in
    let gone : is_exhausted now w ≡ true = subst (λ x. is_exhausted now x ≡ true) same_row e in
    absurd (ground arith)

keeps-available :
    (now : ℕ) (o : Option QueueRow) (w : QueueRow)
    → Swept now o (some w)
    → is_available now w ≡ true
    → o ≡ some w
unfolding is_available
keeps-available now o w keeps a = refl
keeps-available now o w (expires v q e) a = absurd (ground arith)

module _ (now : ℕ) (s d : QueueDb) (sweeps : Sweeps now s d) where
  still :
      (id : String) (w : QueueRow)
      → Dict.get id s.rows ≡ some w
      → is_available now w ≡ true
      → Dict.get id d.rows ≡ some w
  still id w g a =
      available-keeps now (Dict.get id d.rows) w
        (subst (λ o. Swept now o (Dict.get id d.rows)) g (sweeps.rows id)) a

  idle : first_row (select_rows (is_available now) d) ≡ none → IsIdle now s
  unfolding select_rows
  idle h id w g = elim (Bool-cases (is_available now w)) [
    | inr a ↦ a
    | inl a ↦
        let none_there : true ≡ false =
          All-get (λ x. true ≡ false) (is_available now) id d.rows
            (All-none (λ x. true ≡ false) (select (is_available now) (Dict.values d.rows)) h)
            (still id w g a) a in
        absurd (ground arith)
  ]

  oldest_still :
      (v : QueueRow)
      → first_row (select_rows (is_available now) d) ≡ some v
      → (id : String) (w : QueueRow) → Dict.get id s.rows ≡ some w
      → is_available now w ≡ true
      → v.created_at ≤ w.created_at
  unfolding select_rows
  oldest_still v h id w g a =
      All-get (λ x. v.created_at ≤ x.created_at) (is_available now) id d.rows
        (first_row-oldest (select (is_available now) (Dict.values d.rows)) h) (still id w g a) a

  picked :
      (audit_id worker : String) (lease : ℕ) (v : QueueRow) (valid : IsValid d)
      → first_row (select_rows (is_available now) d) ≡ some v
      → Ensures
          (Hands worker lease now s d)
          (λ s'. Unit)
          (claim_found audit_id worker lease now (some v) d)
  unfolding claim_found claim_event
  picked audit_id worker lease v valid h =
      let f =
        All-first_row (IsFound (is_available now) d) (select_rows (is_available now) d)
          (select_rows-All (is_available now) d valid) h in
      let r = claim_row worker (now + seconds lease) now v in
      rw
        (
          update_where_lem v.task_id (λ x. true) (claim_row worker (now + seconds lease) now) v d
              f.0,
          get-put_self v.task_id r d.rows,
        )
        (Ensures-bind (append _ (set_row v.task_id r d)) _
          (Ensures-weaken (append_lem _ (set_row v.task_id r d)) (λ e s' p. p) (λ s' p. tt))
          λ e s' p. returned (some r) s' (record {
            row = v;
            found =
                keeps-available now (Dict.get v.task_id s.rows) v
                  (subst (Swept now (Dict.get v.task_id s.rows)) f.0 (sweeps.rows v.task_id)) f.1;
            available = f.1;
            oldest = oldest_still v h;
            claimed = refl;
            moved = record {
              found = f.0;
              step = claims worker (now + seconds lease) now f.1;
              event = e;
              tells = record {
                raw = _;
                made = p.0;
                its_task = refl;
                its_status = refl;
                its_attempt = refl;
              };
              result = p.1;
            };
          }))

  found_lem :
      (audit_id worker : String) (lease : ℕ) (valid : IsValid d) (o : Option QueueRow)
      → first_row (select_rows (is_available now) d) ≡ o
      → Ensures
          (Hands worker lease now s d)
          (λ s'. Unit)
          (claim_found audit_id worker lease now o d)
  unfolding claim_found
  found_lem audit_id worker lease valid none h = returned none d (idle h, refl)
  found_lem audit_id worker lease valid (some v) h = picked audit_id worker lease v valid h

-- The loop over expired rows, and the claim behind it.
pub record Claims (worker : String) (lease now : ℕ) (s : QueueDb) (o : Option QueueRow)
    (s' : QueueDb) : Type 0 where
  pub between : QueueDb
  pub swept : Sweeps now s between
  pub hands : Hands worker lease now s between o s'

claim_oldest_lem :
    (fresh : ℕ → String) (worker : String) (lease now : ℕ) (s : QueueDb)
    → IsValid s
    → Ensures (Claims worker lease now s) (λ s'. Unit) (claim_oldest fresh worker lease now s)
unfolding claim_oldest
claim_oldest_lem fresh worker lease now s valid =
    Ensures-bind (expire_jobs fresh 1 now (select_rows (is_exhausted now) s) s) _
      (expire_jobs_lem fresh 1 now s valid)
      λ u d p.
        Ensures-weaken
          (found_lem now s d p (fresh 0) worker lease (Change-IsValid p.changed valid)
            (first_row (select_rows (is_available now) d)) refl)
          (λ o s' h. record { between = d; swept = p; hands = h }) (λ s' h. h)

-- The arguments are valid, and the transaction hands out the oldest available job, or none.
abbrev pub ClaimsNext : ℕ → String → ℤ → QueueDb → Option QueueRow → QueueDb → Type 0
ClaimsNext now worker_id lease_seconds s o s' =
    (worker : String) × (lease : ℕ) × (validate_text worker_id "Worker ID" ≡ ok worker)
    × (validate_lease lease_seconds ≡ ok lease)
    × Claims worker lease now s o s'

pub claim_next_lem :
    (fresh : ℕ → String) (now : ℕ) (worker_id : String) (lease_seconds : ℤ) (s : QueueDb)
    → IsValid s
    → Ensures
        (ClaimsNext now worker_id lease_seconds s)
        (λ s'. s' ≡ s)
        (claim_next fresh now worker_id lease_seconds s)
unfolding claim_next
claim_next_lem fresh now worker_id lease_seconds s valid =
    Ensures-check (validate_text worker_id "Worker ID") s _
      (λ worker w.
        Ensures-check (validate_lease lease_seconds) s _
          (λ lease l. Ensures-transact s (
            Ensures-weaken (claim_oldest_lem fresh worker lease now s valid)
              (λ o s' h. (worker, lease, w, l, h)) (λ s' h. h)))
          refl)
      refl
