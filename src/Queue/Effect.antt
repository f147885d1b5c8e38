-- ===== src/Queue/Effect.antt =====
-- backend/app/database/queue_db.py: what a transaction leaves in the database.
use mama_ai.Prelude.{
  String, ◌≡◌, refl, arith, Bool, true, false, Option, some, ◌∷◌, if◌then◌else◌, Bool-cases, inl,
  inr,
}
use mama_ai.Dict
use mama_ai.Dict.Laws.{get-put_self}
use mama_ai.Result.{Exc, Result, ok}
use mama_ai.Exec.{continue, ◌>>=◌, Exec}
use mama_ai.Exec.Ensures.{
  Ensures, returned, raised, Ensures-bind, Ensures-weaken, Ensures-check, Ensures-found,
}
use mama_ai.Queue.{QueueRow, AuditEvent, QueueDb}
use mama_ai.Queue.Audit.{make_event, is_taken}
use mama_ai.Queue.Table.{
  commit_or_rollback, update_where, update_found, insert_event, append, set_row, transact,
  require_task, not_found,
}
use mama_ai.Queue.Store.{change_job, loaded}
use mama_ai.Queue.Life.{◌⇝◌, Tells, Change, moves, unchanged}

-- One written row and its event.
pub record Moved (id : String) (v r : QueueRow) (s s' : QueueDb) : Type 0 where
  pub found : Dict.get id s.rows ≡ some v
  pub step : v ⇝ r
  pub event : AuditEvent
  pub tells : Tells r event
  pub result : s' ≡ record { rows = Dict.put id r s.rows; log = event ∷ s.log }

pub Moved-Change : {id : String} {v r : QueueRow} {s s' : QueueDb} → Moved id v r s s' → Change s s'
Moved-Change {id} {v} {r} {s} m =
    rw m.result (moves id v r m.event unchanged m.found m.step m.tells)

pub Ensures-transact {ℓ} :
    {S A : Type ℓ} {P : A → S → Type ℓ} {E : S → Type ℓ} (s : S) {m : Result A × S}
    → Ensures P E m
    → Ensures P (λ s'. s' ≡ s) (commit_or_rollback s m)
Ensures-transact s (returned a s' p) = returned a s' p
Ensures-transact s (raised e s' p) = raised e s refl

-- The row after a commit is there.
pub Ensures-loaded :
    {P : QueueRow → QueueDb → Type 0} {s : QueueDb} (e : Exc)
    {m : Result (Option QueueRow) × QueueDb}
    → Ensures (λ o s'. (r : QueueRow) × (o ≡ some r) × P r s') (λ s'. s' ≡ s) m
    → Ensures P (λ s'. s' ≡ s) (continue m (loaded e))
Ensures-loaded e (returned o s' (r, q, p)) = rw q (returned r s' p)
Ensures-loaded e (raised x s' p) = raised x s' p

pub append_lem :
    (raw : AuditEvent) (s : QueueDb)
    → Ensures
        (λ e s'. (make_event raw ≡ ok e) × (s' ≡ record s { log = e ∷ s.log }))
        (λ s'. s' ≡ s)
        (append raw s)
unfolding append insert_event
append_lem raw s =
    Ensures-check (make_event raw) s _
      (λ e h. elim (Bool-cases (is_taken e.audit_id s.log)) [
        | inl t ↦ rw t (raised _ s refl)
        | inr t ↦ rw t (returned e _ (h, refl))
      ])
      refl

pub update_where_lem :
    (id : String) (test : QueueRow → Bool) (change : QueueRow → QueueRow) (v : QueueRow)
    (s : QueueDb)
    → Dict.get id s.rows ≡ some v
    → update_where id test change s
      ≡ (if test v then (ok true, set_row id (change v) s) else (ok false, s))
unfolding update_where update_found
update_where_lem id test change v s g = rw g (ground arith)

-- An UPDATE of a row that is there, with its event.
pub change_job_lem :
    (id : String) (test : QueueRow → Bool) (change : QueueRow → QueueRow) (refused : Exc)
    → (raw : AuditEvent) (v : QueueRow) (s : QueueDb) → Dict.get id s.rows ≡ some v
    → Ensures
        (λ o s'.
          (test v ≡ true)
          × (o ≡ some (change v))
          × (e : AuditEvent) × (make_event raw ≡ ok e)
          × (s' ≡ record { rows = Dict.put id (change v) s.rows; log = e ∷ s.log }))
        (λ s'. Unit)
        (change_job id test change refused raw s)
unfolding change_job
change_job_lem id test change refused raw v s g = elim (Bool-cases (test v)) [
  | inr t ↦ rw (update_where_lem id test change v s g, t) (raised refused s tt)
  | inl t ↦
      rw (update_where_lem id test change v s g, t)
        (Ensures-bind (append raw (set_row id (change v) s)) _
          (Ensures-weaken (append_lem raw (set_row id (change v) s)) (λ e s' p. p) (λ s' p. tt))
          λ e s' p. returned _ s' (refl, rw p.1 (get-put_self id (change v) s.rows), e, p.0, p.1))
]

-- A transaction on one task: it raises and is rolled back, or its row is loaded.
pub job_lem :
    (id : String) (m : QueueRow → Exec QueueDb (Option QueueRow)) (e : Exc) (s : QueueDb)
    → {P : QueueRow → QueueDb → Type 0}
    → ((v : QueueRow)
        → Dict.get id s.rows ≡ some v
        → Ensures (λ o s'. (r : QueueRow) × (o ≡ some r) × P r s') (λ s'. Unit) (m v s))
    → Ensures P (λ s'. s' ≡ s) (continue (transact (require_task id >>= m) s) (loaded e))
job_lem id m e s h = Ensures-loaded e (
    Ensures-transact s
      (Ensures-found {E = λ s'. Unit} (Dict.get id s.rows) (not_found id) s m h tt))
