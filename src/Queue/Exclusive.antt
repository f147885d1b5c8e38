-- ===== src/Queue/Exclusive.antt =====
-- backend/app/database/queue_db.py: a job that `claim_next` has handed out.
use mama_ai.Prelude.{ℕ, String, ◌≡◌, ◌≢◌, true, some, List, ltb, subst, arith, ◌+◌, ap, ◌<◌, sym}
use mama_ai.Int.{ℤ}
use mama_ai.Approval.{seconds}
use mama_ai.Text.{strip}
use mama_ai.Dict
use mama_ai.Dict.Laws.{get-put_self}
use mama_ai.Result.{ok}
use mama_ai.Exec.Ensures.{Ensures-ok}
use mama_ai.Queue.{QueueRow, QueueDb}
use mama_ai.Queue.Claim.{claim_next, is_available}
use mama_ai.Queue.Valid.{IsValid}
use mama_ai.Queue.Claims.{claim_next_lem, Picked}
use mama_ai.Queue.Lease.{IsLeased, all_spare, perform_all-lease, unavailable, validate_text-eq}
use mama_ai.Queue.History.{
  Call, perform_all, Reached, Reached-IsValid, perform_all-IsValid, perform, claims_next,
  perform-IsValid,
}

Picked-lease :
    (worker : String) (lease now : ℕ) (s d : QueueDb) (r : QueueRow) (s' : QueueDb) (expiry : ℕ)
    → Picked worker lease now s d r s'
    → r.lease_expires_at ≡ some expiry
    → IsLeased worker expiry r × (Dict.get r.task_id s'.rows ≡ some r)
Picked-lease worker lease now s d r s' expiry p e =
    let l : r.lease_expires_at ≡ some (now + seconds lease) =
      ap (λ (x : QueueRow). x.lease_expires_at) p.claimed in
    let k : r.task_id ≡ p.row.task_id = ap (λ (x : QueueRow). x.task_id) p.claimed in
    (
      record {
        status = ap (λ (x : QueueRow). x.status) p.claimed;
        worker_id = ap (λ (x : QueueRow). x.worker_id) p.claimed;
        lease_expires_at = e;
      },
      subst (λ x. Dict.get x s'.rows ≡ some r) (sym k)
          (rw p.moved.result (get-put_self p.row.task_id r d.rows)),
    )

-- A row under a lease is not what a claim returns.
Picked-other :
    (worker : String) (expiry : ℕ) (r : QueueRow) (w : String) (lease now : ℕ) (s d : QueueDb)
    (x : QueueRow)
    → (s' : QueueDb) → IsLeased worker expiry r
    → ltb now expiry ≡ true
    → Dict.get r.task_id s.rows ≡ some r
    → Picked w lease now s d x s'
    → x.task_id ≢ r.task_id
Picked-other worker expiry r w lease now s d x s' l h g p q =
    let k : x.task_id ≡ p.row.task_id = ap (λ (y : QueueRow). y.task_id) p.claimed in
    let found : Dict.get r.task_id s.rows ≡ some p.row = rw (← q, k) p.found in
    let same_row : p.row ≡ r = ground (arith) in
    let taken : is_available now r ≡ true =
      subst (λ y. is_available now y ≡ true) same_row p.available in
    absurd (ground (arith, unavailable r.task_id worker expiry r l now h))

module _ (fresh : ℕ → String) (now : ℕ) (worker_id : String) (lease_seconds : ℤ) (s : QueueDb)
    (r : QueueRow) (expiry : ℕ) (valid : IsValid s)
    (claim : (claim_next fresh now worker_id lease_seconds s).0 ≡ ok (some r))
    (expires : r.lease_expires_at ≡ some expiry) where
  claim-IsLeased :
      IsLeased (strip worker_id) expiry r
      × (Dict.get r.task_id (claim_next fresh now worker_id lease_seconds s).1.rows ≡ some r)
  claim-IsLeased =
      let (w, n, a, _, c) =
        Ensures-ok (claim_next_lem fresh now worker_id lease_seconds s valid) claim in
      let b : w ≡ strip worker_id = validate_text-eq worker_id "Worker ID" a in
      subst
        (λ y.
          IsLeased y expiry r
          × (Dict.get r.task_id (claim_next fresh now worker_id lease_seconds s).1.rows ≡ some r))
        b
        (Picked-lease w n now s c.between r (claim_next fresh now worker_id lease_seconds s).1
          expiry c.hands expires)

-- In every state of the queue that its calls can reach, after a `claim_next` that returned a job
-- with a lease, the row of the job stays exactly as it was returned, whatever is called that
-- neither claims at or after the end of the lease, nor cancels this job with `cancel`, nor
-- completes or fails it as the same worker, nor clears the queue.
pub claim_next-kept :
    (fresh : ℕ → String) (now : ℕ) (worker_id : String) (lease_seconds : ℤ) (s : QueueDb)
    (r : QueueRow)
    → (expiry : ℕ) (cs : List Call) → Reached s
    → (claim_next fresh now worker_id lease_seconds s).0 ≡ ok (some r)
    → r.lease_expires_at ≡ some expiry
    → all_spare r.task_id (strip worker_id) expiry cs ≡ true
    → Dict.get r.task_id
        (perform_all cs (perform (claims_next fresh now worker_id lease_seconds) s)).rows
      ≡ some r
unfolding perform
claim_next-kept fresh now worker_id lease_seconds s r expiry cs reach claim e sp =
    let v = Reached-IsValid reach in
    let (l, g) = claim-IsLeased fresh now worker_id lease_seconds s r expiry v claim e in
    perform_all-lease r.task_id (strip worker_id) expiry r l cs _
      (perform-IsValid (claims_next fresh now worker_id lease_seconds) s v) sp g

-- In every state of the queue that its calls can reach, after a `claim_next` that returned a job
-- with a lease and any further calls that neither claims at or after the end of the lease, nor
-- cancels this job with `cancel`, nor completes or fails it as the same worker, nor clears the
-- queue: a `claim_next` before the end of the lease, by any worker, that returns a job returns
-- another one.
pub claim_next-exclusive :
    (fresh : ℕ → String) (now : ℕ) (worker_id : String) (lease_seconds : ℤ) (s : QueueDb)
    (r : QueueRow)
    → (expiry : ℕ) (cs : List Call) (fresh' : ℕ → String) (later : ℕ) (other : String) (lease' : ℤ)
      (x : QueueRow)
    → Reached s
    → (claim_next fresh now worker_id lease_seconds s).0 ≡ ok (some r)
    → r.lease_expires_at ≡ some expiry
    → all_spare r.task_id (strip worker_id) expiry cs ≡ true
    → later < expiry
    → (claim_next fresh' later other lease'
        (perform_all cs (perform (claims_next fresh now worker_id lease_seconds) s))).0
      ≡ ok (some x)
    → x.task_id ≢ r.task_id
unfolding perform
claim_next-exclusive fresh now worker_id lease_seconds s r expiry cs fresh' later other lease' x
      reach claim e sp h c =
    let kept = claim_next-kept fresh now worker_id lease_seconds s r expiry cs reach claim e sp in
    let v = Reached-IsValid reach in
    let (l, _) = claim-IsLeased fresh now worker_id lease_seconds s r expiry v claim e in
    let v' = perform-IsValid (claims_next fresh now worker_id lease_seconds) s v in
    let (w, n, _, _, p) =
      Ensures-ok (claim_next_lem fresh' later other lease' _ (perform_all-IsValid cs _ v')) c in
    Picked-other (strip worker_id) expiry r w n later _ p.between x _ l (ground arith) kept p.hands
