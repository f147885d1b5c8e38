-- ===== src/Queue/Expire.antt =====
-- backend/app/database/queue_db.py: the loop of `claim_next` over the rows whose last lease has run
-- out.
use mama_ai.Prelude.{
  ℕ, suc, String, ◌≡◌, refl, arith, Bool, true, ◌==◌, eq_iff, Option, some, List, [], ◌∷◌, All,
  Bool-cases, inl, inr, subst,
}
use mama_ai.Dict
use mama_ai.Dict.{Dict}
use mama_ai.Dict.Laws.{get-put}
use mama_ai.Exec.Ensures.{Ensures, returned, Ensures-bind, Ensures-weaken}
use mama_ai.Queue.{QueueRow, QueueDb, claimed, same}
use mama_ai.Queue.Table.{append, set_row}
use mama_ai.Queue.Claim.{is_exhausted, exhausted_row, exhausted_error, expire_job, expire_jobs}
use mama_ai.Queue.Budget.{total_claims, total_claims-put, spare_claims-exhausted}
use mama_ai.Queue.Life.{Change, unchanged, moves, exhausts, Change-trans}
use mama_ai.Queue.Effect.{append_lem, update_where_lem}
use mama_ai.Queue.Enqueue.{append-Change}
use mama_ai.Queue.Claim.{select_rows}
use mama_ai.Queue.Order.{select_rows-All}
use mama_ai.Queue.Valid.{IsValid}

-- A row before and after the loop.
pub data Swept (now : ℕ) (o : Option QueueRow) : Option QueueRow → Type 0 where
  keeps : Swept now o o
  expires :
      (w : QueueRow)
      → o ≡ some w
      → is_exhausted now w ≡ true
      → Swept now o (some (exhausted_row now (exhausted_error w) w))

pub record Sweeps (now : ℕ) (s d : QueueDb) : Type 0 where
  pub changed : Change s d
  pub rows : (id : String) → Swept now (Dict.get id s.rows) (Dict.get id d.rows)
  pub total : total_claims d.rows ≡ total_claims s.rows

-- A row that the query found.
abbrev pub IsFound : (QueueRow → Bool) → QueueDb → QueueRow → Type 0
IsFound test s r = (Dict.get r.task_id s.rows ≡ some r) × (test r ≡ true)

is_exhausted-claimed :
    (now : ℕ) (r : QueueRow) → is_exhausted now r ≡ true → same r.status claimed ≡ true
unfolding is_exhausted
is_exhausted-claimed now r h = ground arith

Swept-put :
    (now : ℕ) (r : QueueRow) (s d : QueueDb) (id : String)
    → IsFound (is_exhausted now) s r
    → Swept now (Dict.get id s.rows) (Dict.get id d.rows)
    → Swept now
        (Dict.get id s.rows)
        (Dict.get id (Dict.put r.task_id (exhausted_row now (exhausted_error r) r) d.rows))
Swept-put now r s d id f h = elim (Bool-cases (r.task_id == id)) [
  | inl e ↦
      rw (get-put r.task_id id (exhausted_row now (exhausted_error r) r) d.rows, e)
        (expires r (subst (λ k. Dict.get k s.rows ≡ some r) ((eq_iff r.task_id id).0 e) f.0) f.1)
  | inr e ↦ rw (get-put r.task_id id (exhausted_row now (exhausted_error r) r) d.rows, e) h
]

expired_total :
    (now : ℕ) (r : QueueRow) (d : QueueDb) {n : ℕ}
    → is_exhausted now r ≡ true
    → Dict.get r.task_id d.rows ≡ some r
    → total_claims d.rows ≡ n
    → total_claims (Dict.put r.task_id (exhausted_row now (exhausted_error r) r) d.rows) ≡ n
expired_total now r d h g t =
    let (a, b) = spare_claims-exhausted now (exhausted_error r) r h in
    omega (
      arith,
      a,
      b,
      t,
      total_claims-put r.task_id r (exhausted_row now (exhausted_error r) r) d.rows g,
    )

expire_job_lem :
    (audit_id : String) (now : ℕ) (r : QueueRow) (s d : QueueDb)
    → IsFound (is_exhausted now) s r
    → Sweeps now s d
    → (o : Option QueueRow) → Dict.get r.task_id d.rows ≡ o
    → Swept now (some r) o
    → Ensures (λ u s'. Sweeps now s s') (λ s'. Unit) (expire_job audit_id now r d)
unfolding expire_job
expire_job_lem audit_id now r s d f h o g keeps =
    rw
      (
        update_where_lem r.task_id (λ v. same v.status claimed)
            (exhausted_row now (exhausted_error r)) r d g,
        is_exhausted-claimed now r f.1,
      )
      (Ensures-bind (append _ (set_row r.task_id (exhausted_row now (exhausted_error r) r) d)) _
        (Ensures-weaken
          (append_lem _ (set_row r.task_id (exhausted_row now (exhausted_error r) r) d))
          (λ e s' p. p) (λ s' p. tt))
        λ e s' p. returned tt s' (
          rw p.1 (record {
            changed =
                moves r.task_id r (exhausted_row now (exhausted_error r) r) e h.changed g
                  (exhausts (exhausted_error r) now f.1)
                  (record {
                    raw = _;
                    made = p.0;
                    its_task = refl;
                    its_status = refl;
                    its_attempt = refl;
                  });
            rows = λ id. Swept-put now r s d id f (h.rows id);
            total = expired_total now r d f.1 g h.total;
          })))
expire_job_lem audit_id now r s d f h o g (expires w q e) =
    let same_row : w ≡ r = cc in
    let there : Dict.get r.task_id d.rows ≡ some (exhausted_row now (exhausted_error r) r) =
      subst (λ x. Dict.get r.task_id d.rows ≡ some (exhausted_row now (exhausted_error x) x))
        same_row g in
    rw
      (update_where_lem r.task_id (λ v. same v.status claimed)
        (exhausted_row now (exhausted_error r)) _ d there)
      (Ensures-bind (append _ d) _
        (append-Change r.task_id (exhausted_row now (exhausted_error r) r) _ d there refl refl refl)
        λ x s' p. returned tt s' (record {
          changed = Change-trans h.changed p.0;
          rows = λ id. rw p.1 (h.rows id);
          total = rw p.1 h.total;
        }))

sweep :
    (fresh : ℕ → String) (i now : ℕ) (xs : List QueueRow) (s d : QueueDb)
    → All (IsFound (is_exhausted now) s) xs
    → Sweeps now s d
    → Ensures (λ u s'. Sweeps now s s') (λ s'. Unit) (expire_jobs fresh i now xs d)
unfolding expire_jobs
sweep fresh i now [] s d f h = returned tt d h
sweep fresh i now (r ∷ rs) s d f h =
    Ensures-bind (expire_job (fresh i) now r d) _
      (expire_job_lem (fresh i) now r s d f.0 h (Dict.get r.task_id d.rows) refl
        (subst (λ o. Swept now o (Dict.get r.task_id d.rows)) f.0.0 (h.rows r.task_id)))
      λ u s' p. sweep fresh (suc i) now rs s s' f.1 p

-- The whole loop writes only the rows whose last lease has run out.
pub expire_jobs_lem :
    (fresh : ℕ → String) (i now : ℕ) (s : QueueDb)
    → IsValid s
    → Ensures
        (λ u s'. Sweeps now s s')
        (λ s'. Unit)
        (expire_jobs fresh i now (select_rows (is_exhausted now) s) s)
expire_jobs_lem fresh i now s v =
    sweep fresh i now (select_rows (is_exhausted now) s) s s
      (select_rows-All (is_exhausted now) s v)
      (record { changed = unchanged; rows = λ id. keeps; total = refl })
