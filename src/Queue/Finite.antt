-- ===== src/Queue/Finite.antt =====
-- backend/app/database/queue_db.py: how often `claim_next` hands out jobs at most.
use mama_ai.Prelude.{ℕ, String, ◌≡◌, ◌≤◌, ◌+◌, ◌*◌, arith, Option, none, some, List, [], ◌∷◌, ap}
use mama_ai.Int.{ℤ}
use mama_ai.Approval.{seconds}
use mama_ai.Dict
use mama_ai.Dict.Laws.{Holds-get, get-put_self}
use mama_ai.Result.{Result, ok}
use mama_ai.Exec.Ensures.{Ensures-end}
use mama_ai.Queue.{QueueRow, QueueDb}
use mama_ai.Queue.Store.{clear}
use mama_ai.Queue.Claim.{claim_next}
use mama_ai.Queue.Life.{IsSound}
use mama_ai.Queue.Valid.{IsValid, Change-IsValid}
use mama_ai.Queue.Budget.{
  spare_claims, total_claims, total_claims-put, total_claims-new, spare_claims-claim,
  spare_claims-fail,
}
use mama_ai.Queue.Effect.{Moved}
use mama_ai.Queue.Claims.{claim_next_lem, Hands}
use mama_ai.Queue.Moves.{
  complete_lem, fail_lem, retry_failed_lem, cancel_queued_lem, cancel_lem, held-claimed,
}
use mama_ai.Queue.Enqueue.{enqueue_lem, record_reconciliation_lem}
use mama_ai.Queue.History.{
  Call, enqueues, claims_next, completes, fails_with, retries_failed, cancels_queued, cancels_task,
  reconciles, clears, perform, perform_all, perform-IsValid, Ensures-final, Reached,
  Reached-IsValid, performs,
}

-- 1 for a claim that returned a job
abbrev pub handed_out : Result (Option QueueRow) → ℕ
handed_out (ok (some r)) = 1
handed_out _ = 0

abbrev pub claims_of : Call → QueueDb → ℕ
claims_of (claims_next fresh now worker lease) s =
    handed_out (claim_next fresh now worker lease s).0
claims_of c s = 0

-- the jobs that a sequence of calls was given
unfoldable pub claims_made : List Call → QueueDb → ℕ
claims_made [] s = 0
claims_made (c ∷ cs) s = claims_of c s + claims_made cs (perform c s)

-- 1 for a call that may start a cycle of attempts
abbrev pub cycles_of : Call → ℕ
cycles_of (enqueues a now task owner most delay audit) = 1
cycles_of (retries_failed a now task most delay) = 1
cycles_of c = 0

unfoldable pub cycles : List Call → ℕ
cycles [] = 0
cycles (c ∷ cs) = cycles_of c + cycles cs

Moved-total :
    {k : String} {v r : QueueRow} {s s' : QueueDb}
    → Moved k v r s s'
    → total_claims s'.rows + spare_claims v ≡ total_claims s.rows + spare_claims r
Moved-total {k} {v} {r} {s} m = rw m.result (total_claims-put k v r s.rows m.found)

Moved-fewer :
    {k : String} {v r : QueueRow} {s s' : QueueDb}
    → Moved k v r s s'
    → spare_claims r ≤ spare_claims v
    → total_claims s'.rows ≤ total_claims s.rows
Moved-fewer m h = omega (arith, Moved-total m, h)

few :
    (id : String) (r : QueueRow) (s : QueueDb)
    → IsValid s
    → Dict.get id s.rows ≡ some r
    → spare_claims r ≤ 10
few id r s v g = let h = Holds-get IsSound id s.rows v.sound g in ground (arith, h.few_attempts)

same_total : (s s' : QueueDb) → s' ≡ s → total_claims s'.rows ≤ total_claims s.rows
same_total s s' h = rw h (omega arith)

Hands-total :
    (worker : String) (lease now : ℕ) (s d : QueueDb) (o : Option QueueRow) (s' : QueueDb)
    → IsValid d
    → Hands worker lease now s d o s'
    → handed_out (ok o) + total_claims s'.rows ≤ total_claims d.rows
Hands-total worker lease now s d none s' v h = rw h.1 (omega arith)
Hands-total worker lease now s d (some r) s' v p =
    let sound = Holds-get IsSound p.row.task_id d.rows v.sound p.moved.found in
    let one =
      spare_claims-claim p.row.task_id worker (now + seconds lease) now p.row sound p.available in
    let all = Moved-total p.moved in omega (arith, one, all, ap spare_claims p.claimed)

claim_total :
    (fresh : ℕ → String) (now : ℕ) (worker : String) (lease : ℤ) (s : QueueDb)
    → IsValid s
    → handed_out (claim_next fresh now worker lease s).0
        + total_claims (claim_next fresh now worker lease s).1.rows
      ≤ total_claims s.rows
claim_total fresh now worker lease s v =
    Ensures-end (λ m. handed_out m.0 + total_claims m.1.rows ≤ total_claims s.rows)
      (claim_next_lem fresh now worker lease s v)
      (λ o s' (w, n, _, _, c). omega (
        arith,
        Hands-total w n now s c.between o s' (Change-IsValid c.swept.changed v) c.hands,
        c.swept.total,
      ))
      (λ e s' p. rw p (omega arith))

cleared_total : (s : QueueDb) → 0 + total_claims (clear s).1.rows ≤ total_claims s.rows + 0
unfolding clear total_claims
cleared_total s = omega arith

-- What a call does to the claims that are left.
perform-total :
    (c : Call) (s : QueueDb)
    → IsValid s
    → claims_of c s + total_claims (perform c s).rows ≤ total_claims s.rows + 10 * cycles_of c
unfolding perform
perform-total (enqueues a now task owner most delay audit) s v =
    Ensures-final (λ z. IsValid z → 0 + total_claims z.rows ≤ total_claims s.rows + 10)
      (enqueue_lem a now task owner most delay audit s)
      (λ r s' (k, _, _, _, _, n, _, _, p) w.
        let row = few k r s' w (rw p (get-put_self k r s.rows)) in
        rw p (omega (arith, row, total_claims-new k r s.rows n)))
      (λ s' p w. rw p (omega arith))
      (perform-IsValid (enqueues a now task owner most delay audit) s v)
perform-total (claims_next fresh now worker lease) s v =
    let few_left = claim_total fresh now worker lease s v in omega (arith, few_left)
perform-total (completes a now task worker) s v =
    Ensures-final (λ z. 0 + total_claims z.rows ≤ total_claims s.rows + 0)
      (complete_lem a now task worker s)
      (λ r s' (_, _, v, _, _, _, e, m). omega (arith, Moved-total m, ap spare_claims e))
      (λ s' p. rw p (omega arith))
perform-total (fails_with a now task worker error delay audit) s v =
    Ensures-final (λ z. 0 + total_claims z.rows ≤ total_claims s.rows + 0)
      (fail_lem a now task worker error delay audit s)
      (λ r s' (_, w, x, n, v, _, _, _, _, h, e, m).
        let fewer = spare_claims-fail x n now v (held-claimed w v h) in
        omega (arith, Moved-total m, ap spare_claims e, fewer))
      (λ s' p. rw p (omega arith))
perform-total (retries_failed a now task most delay) s v =
    Ensures-final (λ z. IsValid z → 0 + total_claims z.rows ≤ total_claims s.rows + 10)
      (retry_failed_lem a now task most delay s)
      (λ r s' (k, _, _, y, _, _, _, m) w.
        let row = few k r s' w (rw m.result (get-put_self k r s.rows)) in
        omega (arith, row, Moved-total m))
      (λ s' p w. rw p (omega arith)) (perform-IsValid (retries_failed a now task most delay) s v)
perform-total (cancels_queued a now task) s v =
    Ensures-final (λ z. 0 + total_claims z.rows ≤ total_claims s.rows + 0)
      (cancel_queued_lem a now task s)
      (λ r s' (_, _, _, _, e, m). omega (arith, Moved-total m, ap spare_claims e))
      (λ s' p. rw p (omega arith))
perform-total (cancels_task a now task audit) s v =
    Ensures-final (λ z. 0 + total_claims z.rows ≤ total_claims s.rows + 0)
      (cancel_lem a now task audit s)
      (λ r s' (_, _, _, _, e, m). omega (arith, Moved-total m, ap spare_claims e))
      (λ s' p. rw p (omega arith))
perform-total (reconciles a now task action message metadata deduplicate) s v =
    Ensures-final (λ z. 0 + total_claims z.rows ≤ total_claims s.rows + 0)
      (record_reconciliation_lem a now task action message metadata deduplicate s)
      (λ r s' (_, p). rw p (omega arith)) (λ s' p. rw p (omega arith))
perform-total clears s v = cleared_total s

-- From every state of the queue that its calls can reach, and for every list of calls, returning or
-- raising: the number of jobs that the claims return, and the number of claims that the open jobs
-- have left afterwards, are together at most the number that they had left before, and 10 for each
-- `enqueue` and `retry_failed`.
pub claims_made-total_claims :
    (cs : List Call) (s : QueueDb)
    → Reached s
    → claims_made cs s + total_claims (perform_all cs s).rows ≤ total_claims s.rows + 10 * cycles cs
unfolding claims_made cycles perform_all
claims_made-total_claims [] s r = omega arith
claims_made-total_claims (c ∷ cs) s r =
    let here = perform-total c s (Reached-IsValid r) in
    let rest = claims_made-total_claims cs (perform c s) (performs c r) in omega (arith, here, rest)
