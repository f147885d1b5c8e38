-- ===== src/Approval/Restored.antt =====
-- backend/app/core/approval_registry.py: the records after `restore`.
use mama_ai.Prelude.{
  ℕ, suc, String, ◌≡◌, ◌≤◌, refl, arith, false, List, [], ◌∷◌, Bool-cases, inl, inr, length, some,
}
use mama_ai.Dict
use mama_ai.Dict.{Dict}
use mama_ai.Dict.Laws.{Holds, Holds-empty, Holds-put, IsDistinct, put-IsDistinct}
use mama_ai.Exec.Ensures.{Ensures, returned, raised, Ensures-lift, Ensures-bind}
use mama_ai.Exec.{Exec, lift}
use mama_ai.Result.{Result, ok, err}
use mama_ai.Approval.{ApprovalRecord, is_due, expire}
use mama_ai.Approval.Registry.{ApprovalRegistry, require_store, save_to}
use mama_ai.Approval.Restore.{
  ApprovalRow, from_row, expire_restored, restore_rows, list_from, restore,
}

-- A restored record: filed under its approval ID, and not overdue at the given time.
pub record IsCurrent (now : ℕ) (id : String) (r : ApprovalRecord) : Type 0 where
  pub keyed : r.approval_id ≡ id
  pub current : is_due now r ≡ false

-- An expired record is never overdue, and a later reading is stricter.
expire-current : (now : ℕ) (r : ApprovalRecord) → is_due now (expire r) ≡ false
unfolding expire is_due
expire-current now r = refl

is_due-le :
    (now later : ℕ) (r : ApprovalRecord)
    → now ≤ later
    → is_due later r ≡ false
    → is_due now r ≡ false
unfolding is_due
is_due-le now later r l h = ground arith

module _ {Db : Type 0} (save_approval : ApprovalRecord → Exec Db (Unit {0}))
    (list_approvals : ℕ → Exec Db (List ApprovalRow)) (now : ℕ) (clock : ℕ → ℕ)
    (later : (i : ℕ) → now ≤ clock i) where
  abbrev Kept : Dict ApprovalRecord → ApprovalRegistry Db → Type 0
  Kept d s = s.records ≡ d

  save_to-Kept :
      (db : Result Db) (r : ApprovalRecord) (s : ApprovalRegistry Db)
      → Ensures (λ u s'. Kept s.records s') (Kept s.records) (save_to save_approval db r s)
  unfolding save_to
  save_to-Kept (err e) r s = raised e s refl
  save_to-Kept (ok db) r s =
      Ensures-lift (save_approval r db).0 (record s { store = some (save_approval r db).1 })
        (λ u h. refl) refl

  list_from-Kept :
      (db : Result Db) (s : ApprovalRegistry Db)
      → Ensures
          (λ u s'. Kept s.records s')
          (Kept s.records)
          (list_from save_approval list_approvals db s)
  unfolding list_from
  list_from-Kept (err e) s = raised e s refl
  list_from-Kept (ok db) s =
      Ensures-lift (list_approvals 1000 db).0 (record s { store = some (list_approvals 1000 db).1 })
        (λ u h. refl) refl

  expire_restored-current :
      (i : ℕ) (r : ApprovalRecord) (s : ApprovalRegistry Db)
      → Ensures
          (λ r' s'. (is_due now r' ≡ false) × Kept s.records s')
          (Kept s.records)
          (expire_restored save_approval list_approvals (clock i) r s)
  unfolding expire_restored
  expire_restored-current i r s = elim (Bool-cases (is_due (clock i) r)) [
    | inr e ↦ rw e (returned r s (is_due-le now (clock i) r (later i) e, refl))
    | inl e ↦ rw e (
        Ensures-bind
          (save_to save_approval (require_store s.persistence_enabled s.store) (expire r) s) _
          (save_to-Kept (require_store s.persistence_enabled s.store) (expire r) s)
          λ u s1 k. returned (expire r) s1 (expire-current now r, k))
  ]

  restore_rows-IsCurrent :
      (i : ℕ) (d : Dict ApprovalRecord) (rows : List ApprovalRow) (s : ApprovalRegistry Db)
      → Holds (IsCurrent now) d × IsDistinct d
      → Ensures
          (λ d' s'. Holds (IsCurrent now) d' × IsDistinct d')
          (Kept s.records)
          (restore_rows save_approval list_approvals clock i d rows s)
  unfolding restore_rows
  restore_rows-IsCurrent i d [] s h = returned d s h
  restore_rows-IsCurrent i d (row ∷ rows) s h =
      Ensures-bind {P = λ r s'. s' ≡ s} (lift (from_row row) s) _
        (Ensures-lift (from_row row) s (λ r e. refl) refl)
        λ r s1 p. rw p (
          Ensures-bind (expire_restored save_approval list_approvals (clock i) r s) _
            (expire_restored-current i r s)
            λ r' s2 q. rw (← q.1) (
              restore_rows-IsCurrent (suc i) (Dict.put r'.approval_id r' d) rows s2 (
                Holds-put (IsCurrent now) r'.approval_id r' d h.0
                    (record { keyed = refl; current = q.0 }),
                put-IsDistinct r'.approval_id r' d h.1,
              )))

  -- Whatever rows the store returns, a `restore` that returns leaves every record under its own
  -- approval ID, the keys distinct, and no active record overdue at any time that is not later than
  -- the readings of the clock, and returns the number of records; one that raises leaves the
  -- records as they were.
  pub restore-IsCurrent :
      (s : ApprovalRegistry Db)
      → Ensures
          (λ n s'.
            Holds (IsCurrent now) s'.records × IsDistinct s'.records × (n ≡ length s'.records))
          (Kept s.records)
          (restore save_approval list_approvals clock s)
  unfolding restore
  restore-IsCurrent s =
      Ensures-bind
        (list_from save_approval list_approvals (require_store s.persistence_enabled s.store) s) _
        (list_from-Kept (require_store s.persistence_enabled s.store) s)
        λ rows s2 k. rw (← k) (
          Ensures-bind (restore_rows save_approval list_approvals clock 0 [] rows s2) _
            (restore_rows-IsCurrent 0 [] rows s2 (Holds-empty (IsCurrent now), tt))
            λ d s3 h. returned _ _ (h.0, h.1, refl))
