-- ===== src/Approval/Listing.antt =====
-- backend/app/core/approval_registry.py: `ApprovalRegistry.list`. It refreshes every record first,
-- and a record whose write is refused ends the call.
use mama_ai.Prelude.{ℕ, suc, String, Bool, true, Option, none, some, List, [], ◌∷◌, ◌==◌, select}
use mama_ai.Dict
use mama_ai.Dict.{Dict}
use mama_ai.Newest.{newest_first}
use mama_ai.Result.{Result, ok, err}
use mama_ai.Exec.{Exec, pure, lift, gets, ◌>>=◌, ◌>>◌}
use mama_ai.Approval.{ApprovalStatus, ApprovalRecord, same, validate_text}
use mama_ai.Approval.Registry.{ApprovalRegistry, refresh}

abbrev pub by_status : Option ApprovalStatus → ApprovalRecord → Bool
by_status none r = true
by_status (some status) r = same r.status status

abbrev pub by_owner : Option String → ApprovalRecord → Bool
by_owner none r = true
by_owner (some owner) r = r.owner_id == owner

unfoldable pub check_owner : Option String → Result (Option String)
check_owner none = ok none
check_owner (some owner) =
    let r = validate_text owner "Owner ID" in elim r [ ok o ↦ ok (some o) | err e ↦ err e ]

-- the two filters and the sort
unfoldable pub listing :
    Option ApprovalStatus → Option String → List ApprovalRecord → List ApprovalRecord
listing status owner rs =
    newest_first (λ r. r.created_at) (select (by_owner owner) (select (by_status status) rs))

module _ {Db : Type 0} (save_approval : ApprovalRecord → Exec Db (Unit {0})) where
  -- the loop `for record in self._records.values()`; record number `i` reads `clock i`
  unfoldable pub refresh_all :
      (ℕ → ℕ) → ℕ → Dict ApprovalRecord → Exec (ApprovalRegistry Db) (Unit {0})
  refresh_all clock i [] = pure tt
  refresh_all clock i ((id, r) ∷ d) =
      refresh save_approval id r (clock i) >> refresh_all clock (suc i) d

  -- `list`
  unfoldable pub list :
      Option ApprovalStatus
      → Option String
      → (ℕ → ℕ)
      → Exec (ApprovalRegistry Db) (List ApprovalRecord)
  list status owner_id clock = do
    owner ← lift (check_owner owner_id)
    before ← gets (λ s. s.records)
    refresh_all clock 0 before
    gets (λ s. listing status owner (Dict.values s.records))
