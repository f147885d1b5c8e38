-- ===== src/Queue/Valid.antt =====
-- backend/app/database/queue_db.py: the well-formedness of the database. The audit log alone
-- tells the status and the attempts of every job: its latest event is the abstract state of a job.
use mama_ai.Prelude.{
  ℕ, String, ◌≡◌, refl, arith, false, ◌==◌, eq_iff, Option, none, some, List, [], ◌∷◌,
  if◌then◌else◌, Bool-cases, inl, inr, eq_refl,
}
use mama_ai.Dict
use mama_ai.Dict.{Dict}
use mama_ai.Dict.Laws.{
  IsDistinct, put-IsDistinct, Holds, Holds-put, Holds-get, get-put, get-put_self,
}
use mama_ai.Result.{ok}
use mama_ai.Queue.{QueueStatus, QueueRow, AuditEvent, QueueDb, validate_text}
use mama_ai.Queue.Audit.{make_event}
use mama_ai.Queue.Store.{new_row}
use mama_ai.Queue.Life.{
  Tells, Change, unchanged, logs, inserts, moves, IsSound, ⇝-IsSound, new_row-IsSound,
}

-- What the log says of a job last: its status and its attempts.
unfoldable pub latest : String → List AuditEvent → Option (QueueStatus × ℕ)
latest id [] = none
latest id (e ∷ es) = if e.task_id == id then some (e.queue_status, e.attempt) else latest id es

-- The log and a row say the same; of a missing row the log may say anything.
abbrev pub Agrees : Option QueueRow → Option (QueueStatus × ℕ) → Type 0
Agrees none x = Unit
Agrees (some r) x = x ≡ some (r.status, r.attempts)

pub record IsValid (db : QueueDb) : Type 0 where
  pub distinct : IsDistinct db.rows
  pub sound : Holds IsSound db.rows
  pub told : (id : String) → Agrees (Dict.get id db.rows) (latest id db.log)

make_event-eq :
    (raw : AuditEvent) {e : AuditEvent}
    → make_event raw ≡ ok e
    → (validate_text raw.task_id "Task ID" ≡ ok e.task_id)
      × (e.queue_status ≡ raw.queue_status)
      × (e.attempt ≡ raw.attempt)
unfolding make_event
make_event-eq raw h = ground arith

Tells-eq :
    (id : String) (r : QueueRow) (e : AuditEvent)
    → IsSound id r
    → Tells r e
    → (e.task_id ≡ id) × (e.queue_status ≡ r.status) × (e.attempt ≡ r.attempts)
Tells-eq id r e h t = ground (
  arith,
  make_event-eq t.raw {e = e} t.made,
  t.its_task,
  t.its_status,
  t.its_attempt,
  h.keyed,
  h.named,
)

Agrees-same :
    (id : String) (r : QueueRow) (e : AuditEvent) (d : Dict QueueRow) (log : List AuditEvent)
    → IsSound id r
    → Tells r e
    → Dict.get id d ≡ some r
    → ((k : String) → (id == k) ≡ false → Agrees (Dict.get k d) (latest k log))
    → (k : String) → Agrees (Dict.get k d) (latest k (e ∷ log))
unfolding latest
Agrees-same id r e d log h t g old k =
    let (a, b, c) = Tells-eq id r e h t in
    elim (Bool-cases (id == k)) [
      | inl q ↦ rw (← (eq_iff id k).0 q, g, a, eq_refl id, b, c) refl
      | inr q ↦ rw (a, q) (old k q)
    ]

Agrees-put :
    (id : String) (r : QueueRow) (e : AuditEvent) (d : Dict QueueRow) (log : List AuditEvent)
    → IsSound id r
    → Tells r e
    → ((k : String) → Agrees (Dict.get k d) (latest k log))
    → (k : String) → Agrees (Dict.get k (Dict.put id r d)) (latest k (e ∷ log))
Agrees-put id r e d log h t old k =
    Agrees-same id r e (Dict.put id r d) log h t (get-put_self id r d)
      (λ j q. rw (get-put id j r d, q) (old j)) k

pub Change-IsValid : {s t : QueueDb} → Change s t → IsValid s → IsValid t
Change-IsValid unchanged v = v
Change-IsValid (logs {d = d} id r e c g t) v =
    let w = Change-IsValid c v in
    record {
      distinct = w.distinct;
      sound = w.sound;
      told =
          Agrees-same id r e d.rows d.log (Holds-get IsSound id d.rows w.sound g) t g
            (λ k q. w.told k);
    }
Change-IsValid (inserts {d = d} task owner most available now e c g n l u t) v =
    let w = Change-IsValid c v in
    let r = new_row task owner most available now in
    let h = new_row-IsSound task owner most available now n l u in
    record {
      distinct = put-IsDistinct task r d.rows w.distinct;
      sound = Holds-put IsSound task r d.rows w.sound h;
      told = Agrees-put task r e d.rows d.log h t w.told;
    }
Change-IsValid (moves {d = d} id v r e c g s t) valid =
    let w = Change-IsValid c valid in
    let h = ⇝-IsSound id (Holds-get IsSound id d.rows w.sound g) s in
    record {
      distinct = put-IsDistinct id r d.rows w.distinct;
      sound = Holds-put IsSound id r d.rows w.sound h;
      told = Agrees-put id r e d.rows d.log h t w.told;
    }
