-- ===== src/Approval/Life.antt =====
-- backend/app/core/approval_registry.py: the life of one `ApprovalRecord`, and of all records.
use mama_ai.Prelude.{
  ℕ, String, ◌≡◌, ◌≢◌, refl, arith, Bool, true, false, none, some, eq_iff, ◌==◌, ◌⊎◌, Bool-cases,
  inl, inr, subst, ap,
}
use mama_ai.Dict
use mama_ai.Dict.{Dict}
use mama_ai.Dict.Laws.{IsDistinct, put-IsDistinct, Holds, Holds-put, Holds-get, get-put}
use mama_ai.Approval.{
  ApprovalStatus, pending, approved, rejected, expired, consumed, ApprovalRecord, is_active, expire,
}

-- One step of one record: it expires, or its owner decides, or its token is spent.
infix 40 ◌⟹◌
pub data ◌⟹◌ (r : ApprovalRecord) : ApprovalRecord → Type 0 where
  expires : is_active r.status ≡ true → r ⟹ expire r
  grants :
      (at : ℕ) (hash : String)
      → r.status ≡ pending
      → r ⟹ record r { status = approved; decided_at = some at; token_hash = some hash }
  refuses :
      (at : ℕ)
      → r.status ≡ pending
      → r ⟹ record r { status = rejected; decided_at = some at; token_hash = none }
  spends :
      (at : ℕ)
      → r.status ≡ approved
      → r ⟹ record r { status = consumed; consumed_at = some at; token_hash = none }

-- Steps of all records: none, a new pending record under a fresh ID, or a step of one record.
pub data Changes (d : Dict ApprovalRecord) : Dict ApprovalRecord → Type 0 where
  unchanged : Changes d d
  adds :
      {d' : Dict ApprovalRecord} (id : String) (r : ApprovalRecord)
      → Changes d d'
      → Dict.get id d' ≡ none
      → r.approval_id ≡ id
      → r.status ≡ pending
      → r.token_hash ≡ none
      → Changes d (Dict.put id r d')
  steps :
      {d' : Dict ApprovalRecord} (id : String) (v r : ApprovalRecord)
      → Changes d d'
      → Dict.get id d' ≡ some v
      → v ⟹ r
      → Changes d (Dict.put id r d')

pub Changes-trans : {d e f : Dict ApprovalRecord} → Changes d e → Changes e f → Changes d f
Changes-trans p unchanged = p
Changes-trans p (adds id r q g i s t) = adds id r (Changes-trans p q) g i s t
Changes-trans p (steps id v r q g e) = steps id v r (Changes-trans p q) g e

-- A record that no step can leave.
abbrev pub is_final : ApprovalStatus → Bool
is_final rejected = true
is_final expired = true
is_final consumed = true
is_final _ = false

-- A record under its own ID, with a token hash exactly if it is approved.
pub record IsSound (id : String) (r : ApprovalRecord) : Type 0 where
  pub keyed : r.approval_id ≡ id
  pub hashed :
      ((r.status ≡ approved) × (r.token_hash ≢ none))
      ⊎ ((r.status ≢ approved) × (r.token_hash ≡ none))

pub ⟹-IsSound : (id : String) {v r : ApprovalRecord} → v ⟹ r → IsSound id v → IsSound id r
unfolding expire
⟹-IsSound id (expires a) h = record {
  keyed = h.keyed;
  hashed = inr ((λ e. absurd (ground arith)), refl);
}
⟹-IsSound id (grants at hash p) h = record {
  keyed = h.keyed;
  hashed = inl (refl, λ q. absurd (ground arith));
}
⟹-IsSound id (refuses at p) h = record {
  keyed = h.keyed;
  hashed = inr ((λ e. absurd (ground arith)), refl);
}
⟹-IsSound id (spends at p) h = record {
  keyed = h.keyed;
  hashed = inr ((λ e. absurd (ground arith)), refl);
}

pub Changes-IsSound :
    {d d' : Dict ApprovalRecord} → Changes d d' → Holds IsSound d → Holds IsSound d'
Changes-IsSound unchanged h = h
Changes-IsSound (adds id r c g i s t) h =
    Holds-put IsSound id r _ (Changes-IsSound c h)
      (record { keyed = i; hashed = inr ((λ e. absurd (ground arith)), t) })
Changes-IsSound (steps {d' = m} id v r c g e) h =
    let k = Changes-IsSound c h in
    Holds-put IsSound id r _ k (⟹-IsSound id e (Holds-get IsSound id m k g))

-- The parts of a record that no step changes.
pub record IsSameRequest (v r : ApprovalRecord) : Type 0 where
  pub same_id : r.approval_id ≡ v.approval_id
  pub same_task : r.task_id ≡ v.task_id
  pub same_owner : r.owner_id ≡ v.owner_id
  pub same_command : r.command ≡ v.command
  pub same_risk : r.risk_level ≡ v.risk_level
  pub same_expiry : r.expires_at ≡ v.expires_at
  pub final : (is_final v.status ≡ false) ⊎ (r ≡ v)

-- A record that was final is the same still.
pub final_eq : {v r : ApprovalRecord} → IsSameRequest v r → is_final v.status ≡ true → r ≡ v
final_eq p e = elim p.final [ inl n ↦ cc | inr q ↦ q ]

IsSameRequest-refl : (v : ApprovalRecord) → IsSameRequest v v
IsSameRequest-refl v = record {
  same_id = refl;
  same_task = refl;
  same_owner = refl;
  same_command = refl;
  same_risk = refl;
  same_expiry = refl;
  final = inr refl;
}

-- A record that can still move was not final before.
live :
    (u v : ApprovalRecord)
    → IsSameRequest u v
    → is_final v.status ≡ false
    → is_final u.status ≡ true
    → ⊥
live u v p f e = cc (ap (λ (x : ApprovalRecord). is_final x.status) (final_eq p e))

IsSameRequest-step : {u v r : ApprovalRecord} → IsSameRequest u v → v ⟹ r → IsSameRequest u r
unfolding expire
IsSameRequest-step {u} {v} p (expires a) = ground (arith, live u v p)
IsSameRequest-step {u} {v} p (grants at hash q) = ground (arith, live u v p)
IsSameRequest-step {u} {v} p (refuses at q) = ground (arith, live u v p)
IsSameRequest-step {u} {v} p (spends at q) = ground (arith, live u v p)

module _ (m : Dict ApprovalRecord) (k id : String) {v w : ApprovalRecord} where
  same_record : (k == id) ≡ true → Dict.get id m ≡ some w → Dict.get k m ≡ some v → w ≡ v
  same_record b q g = ground (arith, eq_iff k id)

-- A request never disappears, its terms never change, and once rejected, expired or consumed it
-- stays as it is.
pub Changes-same :
    {d d' : Dict ApprovalRecord} (id : String) (u : ApprovalRecord)
    → Changes d d'
    → Dict.get id d ≡ some u
    → (r : ApprovalRecord) × (Dict.get id d' ≡ some r) × IsSameRequest u r
Changes-same id u unchanged h = (u, h, IsSameRequest-refl u)
Changes-same id u (adds {d' = m} k r c g i s t) h =
    let (w, e, p) = Changes-same id u c h in (w, ground (arith, get-put k id r m, eq_iff k id), p)
Changes-same id u (steps {d' = m} k v r c g e) h =
    let (w, q, p) = Changes-same id u c h in
    elim (Bool-cases (k == id)) [
      | inl b ↦ (
        r,
        ground (arith, get-put k id r m),
        IsSameRequest-step (subst (IsSameRequest u) (same_record m k id b q g) p) e,
      )
      | inr b ↦ (w, ground (arith, get-put k id r m), p)
    ]

pub Changes-IsDistinct : {d d' : Dict ApprovalRecord} → Changes d d' → IsDistinct d → IsDistinct d'
Changes-IsDistinct unchanged h = h
Changes-IsDistinct (adds {d' = m} id r c g i s t) h = put-IsDistinct id r m (Changes-IsDistinct c h)
Changes-IsDistinct (steps {d' = m} id v r c g e) h = put-IsDistinct id r m (Changes-IsDistinct c h)
