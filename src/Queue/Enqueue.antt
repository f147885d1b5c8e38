-- ===== src/Queue/Enqueue.antt =====
-- backend/app/database/queue_db.py: `enqueue` and `record_reconciliation`.
use mama_ai.Prelude.{
  ℕ, String, ◌≡◌, refl, arith, Bool, ◌&&◌, Option, none, some, ◌∷◌, ◌+◌, Bool-cases, Option-cases,
  inl, inr,
}
use mama_ai.Int.{ℤ}
use mama_ai.Approval.{seconds}
use mama_ai.Dict
use mama_ai.Dict.{Dict}
use mama_ai.Dict.Laws.{get-put_self}
use mama_ai.Result.{Result, ok}
use mama_ai.Exec.Ensures.{
  Ensures, returned, raised, Ensures-bind, Ensures-weaken, Ensures-check, Ensures-found,
}
use mama_ai.Text.Strip.{strip_idem}
use mama_ai.Queue.{
  Value, QueueRow, AuditEvent, QueueDb, validate_text, validate_max_attempts, validate_delay,
}
use mama_ai.Queue.Audit.{make_event}
use mama_ai.Queue.Table.{append, not_found}
use mama_ai.Queue.Store.{Audited, new_row}
use mama_ai.Queue.Insert.{enqueue, insert_job, insert_found, rename_integrity, renamed}
use mama_ai.Queue.Reconcile.{record_reconciliation, observe, same_observation}
use mama_ai.Queue.Life.{Change, unchanged, inserts, logs}
use mama_ai.Queue.Moves.{validate_max_attempts-le}
use mama_ai.Queue.Effect.{Ensures-loaded, Ensures-transact, append_lem}

-- A text that was validated passes its validation unchanged.
pub validate_text_idem :
    (value name name' : String) {t : String}
    → validate_text value name ≡ ok t
    → validate_text t name' ≡ ok t
unfolding validate_text
validate_text_idem value name name' {t} h = ground (arith, strip_idem value)

Ensures-rename :
    {A : Type 0} {S : Type 0} {P : A → S → Type 0} {E : S → Type 0} (task : String)
    {m : Result A × S}
    → Ensures P E m
    → Ensures P E (rename_integrity task m)
unfolding rename_integrity
Ensures-rename task (returned a s p) = returned a s p
Ensures-rename task (raised e s p) = raised (renamed task e) s p

insert_job_lem :
    (r : QueueRow) (raw : AuditEvent) (s : QueueDb)
    → Ensures
        (λ o s'.
          (x : QueueRow) × (o ≡ some x)
          × (x ≡ r)
          × (Dict.get r.task_id s.rows ≡ none)
          × (e : AuditEvent) × (make_event raw ≡ ok e)
          × (s' ≡ record { rows = Dict.put r.task_id r s.rows; log = e ∷ s.log }))
        (λ s'. Unit)
        (insert_job r raw s)
unfolding insert_job insert_found
insert_job_lem r raw s = elim (Option-cases (Dict.get r.task_id s.rows)) [
  | inr (v, g) ↦ rw g (raised _ s tt)
  | inl g ↦ rw g (
      Ensures-bind (append raw (record s { rows = Dict.put r.task_id r s.rows })) _
        (Ensures-weaken (append_lem raw (record s { rows = Dict.put r.task_id r s.rows }))
          (λ e s' p. p) (λ s' p. tt))
        λ e s' p.
          returned _ s' (r, rw p.1 (get-put_self r.task_id r s.rows), refl, refl, e, p.0, p.1))
]

pub enqueue_lem :
    (audit_id : String) (now : ℕ) (task_id owner_id : String) (max_attempts delay_seconds : ℤ)
    (audit : Audited)
    → (s : QueueDb)
    → Ensures
        (λ r s'.
          (task : String) × (owner : String) × (most : ℕ) × (available : ℕ) × (validate_text task_id
              "Task ID"
            ≡ ok task)
          × (Dict.get task s.rows ≡ none)
          × (r ≡ new_row task owner most available now)
          × Change s s'
          × (s'.rows ≡ Dict.put task r s.rows))
        (λ s'. s' ≡ s)
        (enqueue audit_id now task_id owner_id max_attempts delay_seconds audit s)
unfolding enqueue
enqueue_lem audit_id now task_id owner_id max_attempts delay_seconds audit s =
    Ensures-check (validate_text task_id "Task ID") s _
      (λ task t.
        Ensures-check (validate_text owner_id "Owner ID") s _
          (λ owner w.
            Ensures-check (validate_max_attempts max_attempts) s _
              (λ most x.
                Ensures-check (validate_delay delay_seconds) s _
                  (λ delay y.
                    let r = new_row task owner most (now + seconds delay) now in
                    Ensures-loaded _ (
                      Ensures-rename task (
                        Ensures-transact s (
                          Ensures-weaken (insert_job_lem r _ s)
                            (λ o s' (z, q, u, g, e, k, p). (
                              z,
                              q,
                              (
                                task,
                                owner,
                                most,
                                now + seconds delay,
                                t,
                                g,
                                u,
                                rw p (
                                    inserts task owner most (now + seconds delay) now e unchanged g
                                      (validate_text_idem task_id "Task ID" "Task ID" t)
                                      (validate_max_attempts-le max_attempts x).0
                                      (validate_max_attempts-le max_attempts x).1
                                      (record {
                                        raw = _;
                                        made = k;
                                        its_task = refl;
                                        its_status = refl;
                                        its_attempt = refl;
                                      })),
                                rw (p, u) refl,
                              ),
                            ))
                            (λ s' p. p)))))
                  refl)
              refl)
          refl)
      refl

pub append-Change :
    (id : String) (r : QueueRow) (raw : AuditEvent) (s : QueueDb)
    → Dict.get id s.rows ≡ some r
    → raw.task_id ≡ r.task_id
    → raw.queue_status ≡ r.status
    → raw.attempt ≡ r.attempts
    → Ensures (λ e s'. Change s s' × (s'.rows ≡ s.rows)) (λ s'. Unit) (append raw s)
append-Change id r raw s g a b c =
    Ensures-weaken (append_lem raw s)
      (λ e s' (k, p). (
        rw p (
            logs id r e unchanged g
              (record { raw = raw; made = k; its_task = a; its_status = b; its_attempt = c })),
        rw p refl,
      ))
      (λ s' p. tt)

observe-Change :
    (deduplicate : Bool) (action id : String) (r : QueueRow) (raw : AuditEvent)
    (o : Option AuditEvent)
    → (s : QueueDb) → Dict.get id s.rows ≡ some r
    → raw.task_id ≡ r.task_id
    → raw.queue_status ≡ r.status
    → raw.attempt ≡ r.attempts
    → Ensures
        (λ x s'. Change s s' × (s'.rows ≡ s.rows))
        (λ s'. Unit)
        (observe deduplicate action r raw o s)
unfolding observe
observe-Change deduplicate action id r raw none s g a b c =
    Ensures-bind (append raw s) _ (append-Change id r raw s g a b c) λ e s' p. returned _ s' p
observe-Change deduplicate action id r raw (some l) s g a b c =
    elim (Bool-cases (deduplicate && same_observation action r l)) [
      | inl e ↦ rw e (returned _ s (unchanged, refl))
      | inr e ↦ rw e (
          Ensures-bind (append raw s) _ (append-Change id r raw s g a b c)
            λ e s' p. returned _ s' p)
    ]

pub record_reconciliation_lem :
    (audit_id : String) (now : ℕ) (task_id action message : String) (metadata : Option (Dict Value))
    → (deduplicate : Bool) (s : QueueDb)
    → Ensures
        (λ x s'. Change s s' × (s'.rows ≡ s.rows))
        (λ s'. s' ≡ s)
        (record_reconciliation audit_id now task_id action message metadata deduplicate s)
unfolding record_reconciliation
record_reconciliation_lem audit_id now task_id action message metadata deduplicate s =
    Ensures-check (validate_text task_id "Task ID") s _
      (λ task t.
        Ensures-check (validate_text action "Reconciliation action") s _
          (λ act w.
            Ensures-check (validate_text message "Reconciliation message") s _
              (λ note x. Ensures-transact s (
                Ensures-found {E = λ s'. Unit} (Dict.get task s.rows) (not_found task) s _
                  (λ r g. observe-Change deduplicate act task r _ _ s g refl refl refl) tt))
              refl)
          refl)
      refl
