-- ===== src/Approval/Moves.antt =====
-- backend/app/core/approval_registry.py: the records after `create`, `get` and `list`.
use mama_ai.Prelude.{
  ℕ, String, ◌≡◌, refl, Option, none, some, List, [], ◌∷◌, inl, inr, Option-cases, suc,
}
use mama_ai.Int.{ℤ}
use mama_ai.Dict
use mama_ai.Dict.{Dict}
use mama_ai.Dict.Laws.{IsDistinct, IsStored, IsStored-self}
use mama_ai.Result.{Result}
use mama_ai.Exec.{Exec}
use mama_ai.Exec.Ensures.{Ensures, returned, Ensures-bind, Ensures-weaken, Ensures-check}
use mama_ai.Task.{RiskLevel}
use mama_ai.Approval.{ApprovalStatus, ApprovalRecord, validate_text}
use mama_ai.Approval.Registry.{ApprovalRegistry, create, get, refresh, refresh_found, check_ttl}
use mama_ai.Approval.Listing.{list, refresh_all, check_owner}
use mama_ai.Approval.Life.{Changes, unchanged, adds, Changes-trans}
use mama_ai.Approval.Effect.{write_new, refresh_lem}

-- A call moves records along the steps of the diagram, also if it raises.
abbrev pub Moves : {A Db : Type 0} → ApprovalRegistry Db → Result A × ApprovalRegistry Db → Type 0
Moves s m = Ensures (λ a s'. Changes s.records s'.records) (λ s'. Changes s.records s'.records) m

module _ {Db : Type 0} (save_approval : ApprovalRecord → Exec Db (Unit {0})) where
  pub create-Moves :
      (id : String) (now : ℕ) (task owner command : String) (risk : RiskLevel)
      → (reasons : List String) (ttl : ℤ) (s : ApprovalRegistry Db) → Dict.get id s.records ≡ none
      → Moves s (create save_approval id now task owner command risk reasons ttl s)
  unfolding create
  create-Moves id now task owner command risk reasons ttl s g =
      Ensures-check (validate_text task "Task ID") s _
        (λ t _.
          Ensures-check (validate_text owner "Owner ID") s _
            (λ o _.
              Ensures-check (validate_text command "Command") s _
                (λ c _.
                  Ensures-check (check_ttl ttl) s _
                    (λ n _.
                      Ensures-weaken (write_new save_approval id _ s g)
                        (λ r s' p. rw p.1 (adds id _ unchanged g refl refl refl))
                        (λ s' p. rw p unchanged))
                    unchanged)
                unchanged)
            unchanged)
        unchanged

  refresh-Moves :
      (id : String) (v : ApprovalRecord) (now : ℕ) (s : ApprovalRegistry Db)
      → Dict.get id s.records ≡ some v
      → Moves s (refresh save_approval id v now s)
  refresh-Moves id v now s g =
      Ensures-weaken (refresh_lem save_approval id v now s g) (λ r s' h. h.changes) (λ s' h. h)

  pub get-Moves :
      (approval_id : String) (now : ℕ) (s : ApprovalRegistry Db)
      → Moves s (get save_approval approval_id now s)
  unfolding get refresh_found
  get-Moves approval_id now s =
      Ensures-check (validate_text approval_id "Approval ID") s _
        (λ id _. elim (Option-cases (Dict.get id s.records)) [
          | inl e ↦ rw (e, refresh_found) (returned none s unchanged)
          | inr (v, e) ↦
              rw (e, refresh_found)
                (Ensures-bind (refresh save_approval id v now s) _ (refresh-Moves id v now s e)
                  λ r s' c. returned (some r) s' c)
        ])
        unchanged

  refresh_all-Moves :
      (clock : ℕ → ℕ) (i : ℕ) (d : Dict ApprovalRecord) (s : ApprovalRegistry Db)
      → IsDistinct d
      → IsStored d s.records
      → Moves s (refresh_all save_approval clock i d s)
  unfolding refresh_all
  refresh_all-Moves clock i [] s h k = returned tt s unchanged
  refresh_all-Moves clock i ((id, r) ∷ d) s h k =
      Ensures-bind (refresh save_approval id r (clock i) s) _
        (refresh_lem save_approval id r (clock i) s k.0)
        λ r' s1 m.
          Ensures-weaken (refresh_all-Moves clock (suc i) d s1 h.1 (m.apart d h.0 k.1))
            (λ u s2 c. Changes-trans m.changes c) (λ s2 c. Changes-trans m.changes c)

  pub list-Moves :
      (status : Option ApprovalStatus) (owner : Option String) (clock : ℕ → ℕ)
      → (s : ApprovalRegistry Db) → IsDistinct s.records
      → Moves s (list save_approval status owner clock s)
  unfolding list
  list-Moves status owner clock s h =
      Ensures-check (check_owner owner) s _
        (λ o _.
          Ensures-bind (refresh_all save_approval clock 0 s.records s) _
            (refresh_all-Moves clock 0 s.records s h (IsStored-self s.records h))
            λ u s1 c. returned _ s1 c)
        unchanged
