-- ===== src/Approval/History.antt =====
-- backend/app/core/approval_registry.py: histories of calls of `ApprovalRegistry`.
use mama_ai.Prelude.{ℕ, String, ◌≡◌, refl, arith, true, Option, none, some, List, inl, inr}
use mama_ai.Int.{ℤ}
use mama_ai.Dict
use mama_ai.Dict.{Dict}
use mama_ai.Dict.Laws.{Holds, IsDistinct}
use mama_ai.Result.{Exc, Result, ok, err, Result-cases}
use mama_ai.Exec.{Exec}
use mama_ai.Exec.Ensures.{Ensures, returned, raised, Ensures-ok, Ensures-weaken}
use mama_ai.Task.{RiskLevel}
use mama_ai.Approval.{ApprovalStatus, approved, ApprovalRecord, validate_text}
use mama_ai.Approval.Registry.{ApprovalRegistry, create, approve, reject, consume, get}
use mama_ai.Approval.Listing.{list}
use mama_ai.Approval.Life.{
  Changes, unchanged, Changes-trans, Changes-IsSound, Changes-same, IsSound, IsSameRequest,
  final_eq, is_final, Changes-IsDistinct,
}
use mama_ai.Approval.Effect.{reject-Changes}
use mama_ai.Approval.Grant.{approve_lem, consume_lem}
use mama_ai.Approval.Moves.{create-Moves, get-Moves, list-Moves}

-- A registry with distinct keys, each record sound and under its own ID.
pub record IsValid {Db : Type 0} (s : ApprovalRegistry Db) : Type 0 where
  pub distinct : IsDistinct s.records
  pub sound : Holds IsSound s.records

run_of :
    {A Db : Type 0} (d : Dict ApprovalRecord) {m : Result A × ApprovalRegistry Db}
    → Ensures (λ a s'. Changes d s'.records) (λ s'. Changes d s'.records) m
    → Changes d m.1.records
run_of d (returned a s c) = c
run_of d (raised e s c) = c

module _ {Db : Type 0} (save_approval : ApprovalRecord → Exec Db (Unit {0}))
    (hash_token : String → String) where
  -- One of the calls `create`, `approve`, `reject`, `consume`, `get` and `list`, whatever it returns
  -- or raises. The ID of a new request is fresh.
  pub data Step (s : ApprovalRegistry Db) : ApprovalRegistry Db → Type 0 where
    creates :
        (id : String) (now : ℕ) (task owner command : String) (risk : RiskLevel)
        → (reasons : List String) (ttl : ℤ) → Dict.get id s.records ≡ none
        → Step s (create save_approval id now task owner command risk reasons ttl s).1
    approves :
        (token id owner : String) (now later : ℕ)
        → Step s (approve save_approval hash_token token id owner now later s).1
    rejects :
        (id owner : String) (now later : ℕ) → Step s (reject save_approval id owner now later s).1
    consumes :
        (id task owner token : String) (now later : ℕ)
        → Step s (consume save_approval hash_token id task owner token now later s).1
    gets : (id : String) (now : ℕ) → Step s (get save_approval id now s).1
    lists :
        (status : Option ApprovalStatus) (owner : Option String) (clock : ℕ → ℕ)
        → Step s (list save_approval status owner clock s).1

  pub data Reach (s : ApprovalRegistry Db) : ApprovalRegistry Db → Type 0 where
    here : Reach s s
    next : {t u : ApprovalRegistry Db} → Reach s t → Step t u → Reach s u

  Step-Changes :
      {s t : ApprovalRegistry Db} → IsDistinct s.records → Step s t → Changes s.records t.records
  Step-Changes {s} d (creates id now task owner command risk reasons ttl g) =
      run_of s.records (create-Moves save_approval id now task owner command risk reasons ttl s g)
  Step-Changes {s} d (approves token id owner now later) = run_of s.records (
      Ensures-weaken (approve_lem save_approval hash_token token id owner now later s)
        (λ g s' h. h.4.changes) (λ s' c. c))
  Step-Changes {s} d (rejects id owner now later) =
      run_of s.records (reject-Changes save_approval id owner now later s)
  Step-Changes {s} d (consumes id task owner token now later) = run_of s.records (
      Ensures-weaken (consume_lem save_approval hash_token id task owner token now later s)
        (λ g s' h. h.8.changes) (λ s' c. c))
  Step-Changes {s} d (gets id now) = run_of s.records (get-Moves save_approval id now s)
  Step-Changes {s} d (lists status owner clock) =
      run_of s.records (list-Moves save_approval status owner clock s d)

  pub Step-IsValid : {s t : ApprovalRegistry Db} → Step s t → IsValid s → IsValid t
  Step-IsValid st v =
      let c = Step-Changes v.distinct st in
      record { distinct = Changes-IsDistinct c v.distinct; sound = Changes-IsSound c v.sound }

  -- Over any history of the calls `create` with a fresh ID, `approve`, `reject`, `consume`, `get`
  -- and `list`, with no `clear`, `restore` or `enable_persistence` in between, a valid registry
  -- stays valid: the keys are distinct, each record stands under its own ID, and a token hash is
  -- stored exactly while its request is approved.
  pub Reach-IsValid : {s t : ApprovalRegistry Db} → Reach s t → IsValid s → IsValid t
  Reach-IsValid here v = v
  Reach-IsValid (next r st) v = Step-IsValid st (Reach-IsValid r v)

  Reach-Changes : {s t : ApprovalRegistry Db} → IsValid s → Reach s t → Changes s.records t.records
  Reach-Changes v here = unchanged
  Reach-Changes v (next r st) =
      Changes-trans (Reach-Changes v r) (Step-Changes (Reach-IsValid r v).distinct st)

  -- Over any history of the calls `create` with a fresh ID, `approve`, `reject`, `consume`, `get`
  -- and `list` on a valid registry, with no `clear`, `restore` or `enable_persistence` in between,
  -- a request stays present, keeps its ID, task, owner, command, risk level and expiry, and, if it
  -- was rejected, expired or consumed, stays exactly as it was.
  pub Reach-IsSameRequest :
      {s t : ApprovalRegistry Db} (id : String) (u : ApprovalRecord)
      → IsValid s
      → Reach s t
      → Dict.get id s.records ≡ some u
      → (r : ApprovalRecord) × (Dict.get id t.records ≡ some r) × IsSameRequest u r
  Reach-IsSameRequest id u v r h = Changes-same id u (Reach-Changes v r) h

  -- Spending a token needs an approved request.
  consume-approved :
      (a k o c : String) (now later : ℕ) (t : ApprovalRegistry Db) (id : String)
      (w : ApprovalRecord)
      → {x : ApprovalRecord} → validate_text a "Approval ID" ≡ ok id
      → Dict.get id t.records ≡ some w
      → (consume save_approval hash_token a k o c now later t).0 ≡ ok x
      → w.status ≡ approved
  consume-approved a k o c now later t id w i g q =
      let (id', _, _, _, i', _, _, _, p) =
        Ensures-ok (consume_lem save_approval hash_token a k o c now later t) q in
      ground (arith, p.found, p.was_approved, i, i', g)

  -- A request that is rejected, expired or consumed cannot be consumed after any of these
  -- calls.
  pub consume_final :
      (a k o c : String) (now later : ℕ) (s t : ApprovalRegistry Db) (id : String)
      → (u : ApprovalRecord) → IsValid s
      → Reach s t
      → validate_text a "Approval ID" ≡ ok id
      → Dict.get id s.records ≡ some u
      → is_final u.status ≡ true
      → (e : Exc) × ((consume save_approval hash_token a k o c now later t).0 ≡ err e)
  consume_final a k o c now later s t id u v reach i g f =
      let (w, h, p) = Reach-IsSameRequest id u v reach g in
      elim (Result-cases (consume save_approval hash_token a k o c now later t).0) [
        | inl (e, q) ↦ (e, q)
        | inr (x, q) ↦
            absurd
              (ground (arith, consume-approved a k o c now later t id w i h q, final_eq p f, f))
      ]

  -- After a `consume` that returned on a valid registry and any number of the calls `create` with a
  -- fresh ID, `approve`, `reject`, `consume`, `get` and `list`, with no `clear`, `restore` or
  -- `enable_persistence` in between, every further `consume` of the same approval ID raises, for
  -- any task, owner and token.
  pub consume_once :
      (approval_id task owner token : String) (now later : ℕ) (s t : ApprovalRegistry Db)
      → {r : ApprovalRecord} → (task' owner' token' : String) (now' later' : ℕ) → IsValid s
      → (consume save_approval hash_token approval_id task owner token now later s).0 ≡ ok r
      → Reach (consume save_approval hash_token approval_id task owner token now later s).1 t
      → (e : Exc) × ((consume save_approval hash_token approval_id task' owner' token' now' later'
            t).0
          ≡ err e)
  consume_once a k o c now later s t {r} k' o' c' now' later' v h reach =
      let (id, _, _, _, i, _, _, _, p) =
        Ensures-ok (consume_lem save_approval hash_token a k o c now later s) h in
      let s' = (consume save_approval hash_token a k o c now later s).1 in
      consume_final a k' o' c' now' later' s' t id r (Step-IsValid (consumes a k o c now later) v)
        reach i p.here (rw p.result refl)
