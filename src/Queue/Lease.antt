-- ===== src/Queue/Lease.antt =====
-- backend/app/database/queue_db.py: the lease of a worker. Until it runs out, nobody else gets the
-- job.
use mama_ai.Prelude.{
  ℕ, String, ◌≡◌, ◌≢◌, refl, arith, Bool, true, false, not, ◌&&◌, ◌==◌, eq_iff, Option, none, some,
  List, [], ◌∷◌, ltb, Bool-cases, inl, inr, subst, sym, eq_refl,
}
use mama_ai.Text.{strip}
use mama_ai.Dict
use mama_ai.Dict.{Dict}
use mama_ai.Dict.Laws.{get-put}
use mama_ai.Result.{ok}
use mama_ai.Queue.{QueueRow, QueueDb, queued, claimed, failed, validate_text, QueueStatus}
use mama_ai.Queue.Store.{is_held_by}
use mama_ai.Queue.Claim.{is_available, is_exhausted}
use mama_ai.Queue.Valid.{IsValid}
use mama_ai.Queue.Effect.{Moved}
use mama_ai.Queue.Moves.{
  complete_lem, fail_lem, retry_failed_lem, cancel_queued_lem, cancel_lem, held-worker,
}
use mama_ai.Queue.Enqueue.{enqueue_lem, record_reconciliation_lem}
use mama_ai.Queue.Claims.{claim_next_lem, Hands}
use mama_ai.Queue.Expire.{Swept, Sweeps, keeps, expires}
use mama_ai.Queue.History.{
  Call, enqueues, claims_next, completes, fails_with, retries_failed, cancels_queued, cancels_task,
  reconciles, clears, perform, perform_all, perform-IsValid, Ensures-final,
}

-- A row that a worker holds until a time.
pub record IsLeased (worker : String) (expiry : ℕ) (r : QueueRow) : Type 0 where
  pub status : r.status ≡ claimed
  pub worker_id : r.worker_id ≡ some worker
  pub lease_expires_at : r.lease_expires_at ≡ some expiry

-- The calls that leave a lease alone: claims before its end, deliveries of other jobs or by other
-- workers, and all that neither cancels the job outright nor clears the queue.
abbrev pub spares : String → String → ℕ → Call → Bool
spares id worker expiry (claims_next fresh now w lease) = ltb now expiry
spares id worker expiry (completes a now task w) = not ((strip task == id) && (strip w == worker))
spares id worker expiry (fails_with a now task w error delay audit) =
    not ((strip task == id) && (strip w == worker))
spares id worker expiry (cancels_task a now task audit) = not (strip task == id)
spares id worker expiry clears = false
spares id worker expiry _ = true

abbrev pub all_spare : String → String → ℕ → List Call → Bool
all_spare id worker expiry [] = true
all_spare id worker expiry (c ∷ cs) = spares id worker expiry c && all_spare id worker expiry cs

pub validate_text-eq :
    (value name : String) {t : String} → validate_text value name ≡ ok t → t ≡ strip value
unfolding validate_text
validate_text-eq value name h = ground arith

-- A row that is moved is another one, or the moved row.
Moved-get :
    (k id : String) {v r : QueueRow} {s s' : QueueDb} {w : QueueRow}
    → Moved k v r s s'
    → Dict.get id s.rows ≡ some w
    → ((k == id) ≡ true → v ≢ w)
    → Dict.get id s'.rows ≡ some w
Moved-get k id {v} {r} {s} {s'} {w} m g h = elim (Bool-cases (k == id)) [
  | inl e ↦
      let p : k ≡ id = (eq_iff k id).0 e in
      let q : v ≡ w = ground (arith, m.found) in absurd (h e q)
  | inr e ↦ rw (m.result, get-put k id r s.rows, e) g
]

module _ (id worker : String) (expiry : ℕ) (r : QueueRow) (l : IsLeased worker expiry r) where
  pub unavailable : (now : ℕ) → ltb now expiry ≡ true → is_available now r ≡ false
  unfolding is_available
  unavailable now h = ground (arith, l.status, l.lease_expires_at)

  not_exhausted : (now : ℕ) → ltb now expiry ≡ true → is_exhausted now r ≡ false
  unfolding is_exhausted
  not_exhausted now h = ground (arith, l.status, l.lease_expires_at)

  not_in_status : (x : QueueStatus) {v : QueueRow} → v.status ≡ x → v ≡ r → x ≡ claimed
  not_in_status x {v} h q =
      let p : v.status ≡ claimed = subst (λ y. y.status ≡ claimed) (sym q) l.status in ground arith

  Swept-same :
      (now : ℕ) → ltb now expiry ≡ true → (o : Option QueueRow) → Swept now (some r) o → o ≡ some r
  Swept-same now h o keeps = refl
  Swept-same now h o (expires w q e) =
      let same_row : w ≡ r = cc in
      let gone : is_exhausted now r ≡ true = subst (λ x. is_exhausted now x ≡ true) same_row e in
      absurd (ground (arith, not_exhausted now h))

  Sweeps-get :
      (now : ℕ)
      → ltb now expiry ≡ true
      → (s d : QueueDb) → Sweeps now s d
      → Dict.get id s.rows ≡ some r
      → Dict.get id d.rows ≡ some r
  Sweeps-get now h s d w g =
      Swept-same now h (Dict.get id d.rows)
        (subst (λ o. Swept now o (Dict.get id d.rows)) g (w.rows id))

  Hands-get :
      (w : String) (lease now : ℕ) (s d : QueueDb) (o : Option QueueRow) (s' : QueueDb)
      → ltb now expiry ≡ true
      → Hands w lease now s d o s'
      → Dict.get id d.rows ≡ some r
      → Dict.get id s'.rows ≡ some r
  Hands-get w lease now s d none s' h k g = rw k.1 g
  Hands-get w lease now s d (some x) s' h p g = Moved-get p.row.task_id id p.moved g (λ e q.
      let taken : is_available now r ≡ true =
        subst (λ y. is_available now y ≡ true) q p.available in
      absurd (ground (arith, unavailable now h)))

  not_held :
      (task_id worker_id : String) {task w : String} {v : QueueRow}
      → validate_text task_id "Task ID" ≡ ok task
      → validate_text worker_id "Worker ID" ≡ ok w
      → is_held_by w v ≡ true
      → not ((strip task_id == id) && (strip worker_id == worker)) ≡ true
      → (task == id) ≡ true
      → v ≢ r
  not_held task_id worker_id {task} {w} {v} t k h sp e q =
      let a : task ≡ strip task_id = validate_text-eq task_id "Task ID" t in
      let b : w ≡ strip worker_id = validate_text-eq worker_id "Worker ID" k in
      let c : v.worker_id ≡ some w = held-worker w v h in
      let d : r.worker_id ≡ some w = subst (λ y. y.worker_id ≡ some w) q c in
      let f : w ≡ worker = ground (arith, l.worker_id) in
      absurd (ground (arith, eq_refl worker, a, b, e, f, sp))

  perform-lease :
      (c : Call) (s : QueueDb)
      → IsValid s
      → spares id worker expiry c ≡ true
      → Dict.get id s.rows ≡ some r
      → Dict.get id (perform c s).rows ≡ some r
  unfolding perform
  perform-lease (enqueues a now task owner most delay audit) s v h g =
      Ensures-final (λ z. Dict.get id z.rows ≡ some r)
        (enqueue_lem a now task owner most delay audit s)
        (λ x s' (k, _, _, _, _, n, _, _, p).
          rw (p, get-put k id x s.rows)
            (elim (Bool-cases (k == id)) [
              | inl e ↦ let same_key : k ≡ id = (eq_iff k id).0 e in absurd (ground arith)
              | inr e ↦ rw e g
            ]))
        (λ s' p. rw p g)
  perform-lease (claims_next fresh now w lease) s v h g =
      Ensures-final (λ z. Dict.get id z.rows ≡ some r) (claim_next_lem fresh now w lease s v)
        (λ o s' (k, n, _, _, c).
          Hands-get k n now s c.between o s' h c.hands (Sweeps-get now h s c.between c.swept g))
        (λ s' p. rw p g)
  perform-lease (completes a now task w) s v h g =
      Ensures-final (λ z. Dict.get id z.rows ≡ some r) (complete_lem a now task w s)
        (λ x s' (k, _, _, t, u, held, _, m). Moved-get k id m g (not_held task w t u held h))
        (λ s' p. rw p g)
  perform-lease (fails_with a now task w error delay audit) s v h g =
      Ensures-final (λ z. Dict.get id z.rows ≡ some r) (fail_lem a now task w error delay audit s)
        (λ x s' (k, _, _, _, _, t, u, _, _, held, _, m).
          Moved-get k id m g (not_held task w t u held h))
        (λ s' p. rw p g)
  perform-lease (retries_failed a now task most delay) s v h g =
      Ensures-final (λ z. Dict.get id z.rows ≡ some r) (retry_failed_lem a now task most delay s)
        (λ x s' (k, _, _, y, _, f, _, m).
          Moved-get k id m g (λ e q. absurd (let p = not_in_status failed f q in ground arith)))
        (λ s' p. rw p g)
  perform-lease (cancels_queued a now task) s v h g =
      Ensures-final (λ z. Dict.get id z.rows ≡ some r) (cancel_queued_lem a now task s)
        (λ x s' (k, y, _, f, _, m).
          Moved-get k id m g (λ e q. absurd (let p = not_in_status queued f q in ground arith)))
        (λ s' p. rw p g)
  perform-lease (cancels_task a now task audit) s v h g =
      Ensures-final (λ z. Dict.get id z.rows ≡ some r) (cancel_lem a now task audit s)
        (λ x s' (k, y, t, _, _, m).
          Moved-get k id m g
            (λ e q. let b = validate_text-eq task "Task ID" t in absurd (ground (arith, b, e, h))))
        (λ s' p. rw p g)
  perform-lease (reconciles a now task action message metadata deduplicate) s v h g =
      Ensures-final (λ z. Dict.get id z.rows ≡ some r)
        (record_reconciliation_lem a now task action message metadata deduplicate s)
        (λ x s' (_, p). rw p g) (λ s' p. rw p g)
  perform-lease clears s v h g = absurd (ground arith)

  -- The row of a lease through any calls that leave it alone.
  pub perform_all-lease :
      (cs : List Call) (s : QueueDb)
      → IsValid s
      → all_spare id worker expiry cs ≡ true
      → Dict.get id s.rows ≡ some r
      → Dict.get id (perform_all cs s).rows ≡ some r
  unfolding perform_all
  perform_all-lease [] s v h g = g
  perform_all-lease (c ∷ cs) s v h g =
      perform_all-lease cs (perform c s) (perform-IsValid c s v) (ground arith)
        (perform-lease c s v (ground arith) g)
