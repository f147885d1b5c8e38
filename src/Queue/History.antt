-- ===== src/Queue/History.antt =====
-- backend/app/database/queue_db.py: calls of the store, one after the other, each with its time and
-- the audit IDs that it draws.
use mama_ai.Prelude.{
  arith, Bool-cases, inl, inr, true, false, refl, ℕ, String, ◌≡◌, Bool, Option, none, some, List,
  [], ◌∷◌, subst, sym,
}
use mama_ai.Int.{ℤ}
use mama_ai.Dict
use mama_ai.Dict.{Dict}
use mama_ai.Dict.Laws.{Holds}
use mama_ai.Exec.Ensures.{Ensures, returned, raised}
use mama_ai.Queue.{Value, QueueRow, QueueDb}
use mama_ai.Queue.Store.{Audited, complete, fail, retry_failed, cancel_queued, cancel, clear}
use mama_ai.Queue.Insert.{enqueue}
use mama_ai.Queue.Claim.{claim_next}
use mama_ai.Queue.Reconcile.{record_reconciliation}
use mama_ai.Queue.Life.{Change, unchanged, Change-trans}
use mama_ai.Queue.Valid.{IsValid, Change-IsValid, latest, Agrees}
use mama_ai.Queue.Effect.{Moved-Change}
use mama_ai.Queue.Moves.{complete_lem, fail_lem, retry_failed_lem, cancel_queued_lem, cancel_lem}
use mama_ai.Queue.Enqueue.{enqueue_lem, record_reconciliation_lem}
use mama_ai.Queue.Claims.{claim_next_lem, Picked, Hands}
use mama_ai.Result.{Result}

-- The calls that write.
pub data Call : Type 0 where
  enqueues :
      (audit_id : String) (now : ℕ) (task owner : String) (most delay : ℤ) (audit : Audited) → Call
  claims_next : (fresh : ℕ → String) (now : ℕ) (worker : String) (lease : ℤ) → Call
  completes : (audit_id : String) (now : ℕ) (task worker : String) → Call
  fails_with :
      (audit_id : String) (now : ℕ) (task worker error : String) (delay : ℤ) (audit : Audited)
      → Call
  retries_failed : (audit_id : String) (now : ℕ) (task : String) (most delay : ℤ) → Call
  cancels_queued : (audit_id : String) (now : ℕ) (task : String) → Call
  cancels_task : (audit_id : String) (now : ℕ) (task : String) (audit : Audited) → Call
  reconciles :
      (audit_id : String) (now : ℕ) (task action message : String) (metadata : Option (Dict Value))
      (deduplicate : Bool)
      → Call
  clears : Call

-- The database after a call, whether it returned or raised.
unfoldable pub perform : Call → QueueDb → QueueDb
perform (enqueues a now task owner most delay audit) s =
    (enqueue a now task owner most delay audit s).1
perform (claims_next fresh now worker lease) s = (claim_next fresh now worker lease s).1
perform (completes a now task worker) s = (complete a now task worker s).1
perform (fails_with a now task worker error delay audit) s =
    (fail a now task worker error delay audit s).1
perform (retries_failed a now task most delay) s = (retry_failed a now task most delay s).1
perform (cancels_queued a now task) s = (cancel_queued a now task s).1
perform (cancels_task a now task audit) s = (cancel a now task audit s).1
perform (reconciles a now task action message metadata deduplicate) s =
    (record_reconciliation a now task action message metadata deduplicate s).1
perform clears s = (clear s).1

-- the call of `clear`
abbrev pub is_clear : Call → Bool
is_clear clears = true
is_clear _ = false

unfoldable pub perform_all : List Call → QueueDb → QueueDb
perform_all [] s = s
perform_all (c ∷ cs) s = perform_all cs (perform c s)

abbrev pub empty_db : QueueDb
empty_db = record { rows = []; log = [] }

-- The states of a database that a process creates and calls.
pub data Reached : QueueDb → Type 0 where
  starts : Reached empty_db
  performs : {s : QueueDb} (c : Call) → Reached s → Reached (perform c s)

-- What holds of the state after a run, from its postconditions.
pub Ensures-final {ℓ} :
    {S A : Type ℓ} {P : A → S → Type ℓ} {E : S → Type ℓ} (Q : S → Type ℓ) {m : Result A × S}
    → Ensures P E m
    → ((a : A) (s : S) → P a s → Q s)
    → ((s : S) → E s → Q s)
    → Q m.1
Ensures-final Q (returned a s p) f g = f a s p
Ensures-final Q (raised e s p) f g = g s p

unmoved : (s s' : QueueDb) → s' ≡ s → Change s s'
unmoved s s' h = rw h unchanged

pub Picked-Change :
    {worker : String} {lease now : ℕ} {s d : QueueDb} {r : QueueRow} {s' : QueueDb}
    → Change s d
    → Picked worker lease now s d r s'
    → Change s s'
Picked-Change c p = Change-trans c (Moved-Change p.moved)

Hands-Change :
    (worker : String) (lease now : ℕ) {s d : QueueDb} (o : Option QueueRow) {s' : QueueDb}
    → Change s d
    → Hands worker lease now s d o s'
    → Change s s'
Hands-Change worker lease now {s = s} {d = d} none c h = subst (Change s) (sym h.1) c
Hands-Change worker lease now (some r) c h = Picked-Change c h

pub perform-Change :
    (c : Call) (s : QueueDb) → is_clear c ≡ false → IsValid s → Change s (perform c s)
unfolding perform
perform-Change (enqueues a now task owner most delay audit) s h v =
    Ensures-final (Change s) (enqueue_lem a now task owner most delay audit s)
      (λ r s' (_, _, _, _, _, _, _, c, _). c) (unmoved s)
perform-Change (claims_next fresh now worker lease) s h v =
    Ensures-final (Change s) (claim_next_lem fresh now worker lease s v)
      (λ o s' (w, l, _, _, c). Hands-Change w l now o c.swept.changed c.hands) (unmoved s)
perform-Change (completes a now task worker) s h v =
    Ensures-final (Change s) (complete_lem a now task worker s)
      (λ r s' (_, _, _, _, _, _, _, m). Moved-Change m) (unmoved s)
perform-Change (fails_with a now task worker error delay audit) s h v =
    Ensures-final (Change s) (fail_lem a now task worker error delay audit s)
      (λ r s' (_, _, _, _, _, _, _, _, _, _, _, m). Moved-Change m) (unmoved s)
perform-Change (retries_failed a now task most delay) s h v =
    Ensures-final (Change s) (retry_failed_lem a now task most delay s)
      (λ r s' (_, _, _, _, _, _, _, m). Moved-Change m) (unmoved s)
perform-Change (cancels_queued a now task) s h v =
    Ensures-final (Change s) (cancel_queued_lem a now task s)
      (λ r s' (_, _, _, _, _, m). Moved-Change m) (unmoved s)
perform-Change (cancels_task a now task audit) s h v =
    Ensures-final (Change s) (cancel_lem a now task audit s)
      (λ r s' (_, _, _, _, _, m). Moved-Change m) (unmoved s)
perform-Change (reconciles a now task action message metadata deduplicate) s h v =
    Ensures-final (Change s)
      (record_reconciliation_lem a now task action message metadata deduplicate s)
      (λ r s' (c, _). c) (unmoved s)
perform-Change clears s h v = absurd (ground arith)

clear-IsValid : (s : QueueDb) → IsValid s → IsValid (clear s).1
unfolding clear Holds Dict.get
clear-IsValid s v = record { distinct = tt; sound = tt; told = λ id. tt }

pub is_clear-perform : (c : Call) (s : QueueDb) → is_clear c ≡ true → perform c s ≡ (clear s).1
unfolding perform
is_clear-perform clears s h = refl
is_clear-perform (enqueues a now task owner most delay audit) s h = absurd (ground arith)
is_clear-perform (claims_next fresh now worker lease) s h = absurd (ground arith)
is_clear-perform (completes a now task worker) s h = absurd (ground arith)
is_clear-perform (fails_with a now task worker error delay audit) s h = absurd (ground arith)
is_clear-perform (retries_failed a now task most delay) s h = absurd (ground arith)
is_clear-perform (cancels_queued a now task) s h = absurd (ground arith)
is_clear-perform (cancels_task a now task audit) s h = absurd (ground arith)
is_clear-perform (reconciles a now task action message metadata deduplicate) s h =
    absurd (ground arith)

pub perform-IsValid : (c : Call) (s : QueueDb) → IsValid s → IsValid (perform c s)
perform-IsValid c s v = elim (Bool-cases (is_clear c)) [
  | inl e ↦ rw (is_clear-perform c s e) (clear-IsValid s v)
  | inr e ↦ Change-IsValid (perform-Change c s e v) v
]

empty-IsValid : IsValid empty_db
unfolding Holds Dict.get
empty-IsValid = record { distinct = tt; sound = tt; told = λ id. tt }

-- In every state of the queue that its calls can reach, the keys are distinct, each row stands
-- under its own valid task ID, it has between 1 and 10 attempts of which it has used no more, a
-- queued row has one left, a worker and a lease are stored exactly while the row is claimed, and
-- the latest event of a job in the audit log has its status and its attempts.
pub Reached-IsValid : {s : QueueDb} → Reached s → IsValid s
Reached-IsValid starts = empty-IsValid
Reached-IsValid (performs {s = s} c r) = perform-IsValid c s (Reached-IsValid r)

pub Reached-told :
    {s : QueueDb} (id : String) (r : QueueRow)
    → Reached s
    → Dict.get id s.rows ≡ some r
    → latest id s.log ≡ some (r.status, r.attempts)
Reached-told {s} id r h g = subst (λ o. Agrees o (latest id s.log)) g ((Reached-IsValid h).told id)

pub perform_all-IsValid : (cs : List Call) (s : QueueDb) → IsValid s → IsValid (perform_all cs s)
unfolding perform_all
perform_all-IsValid [] s v = v
perform_all-IsValid (c ∷ cs) s v = perform_all-IsValid cs (perform c s) (perform-IsValid c s v)
