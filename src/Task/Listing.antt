-- ===== src/Task/Listing.antt =====
-- backend/app/core/task_registry.py: what `TaskRegistry.list` computes from the records.
pub mod Order
use mama_ai.Prelude.{
  ℕ, String, Bool, true, false, Option, none, some, List, [], ◌∷◌, ◌==◌, if◌then◌else◌, select,
  take, leb,
}
use mama_ai.Int.{ℤ, pos, negsuc}
use mama_ai.Result.{value_error, Result, ok, err}
use mama_ai.Newest.{newest_first}
use mama_ai.Task.{TaskStatus, text, same}
use mama_ai.Task.Record.{TaskRecord, validate_owner_id}

module _ {J : Type 0} where
  -- the two filters of `list`
  abbrev pub by_status : Option TaskStatus → TaskRecord J → Bool
  by_status none r = true
  by_status (some status) r = same r.status status

  abbrev pub by_owner : Option String → TaskRecord J → Bool
  by_owner none r = true
  by_owner (some owner) r = r.owner_id == owner

  abbrev pub cut : Option ℕ → List (TaskRecord J) → List (TaskRecord J)
  cut none rs = rs
  cut (some n) rs = take n rs

  unfoldable pub listing :
      Option TaskStatus → Option String → Option ℕ → List (TaskRecord J) → List (TaskRecord J)
  unfolding newest_first select
  listing status owner limit rs =
      cut limit
        (newest_first (λ r. r.created_at) (select (by_owner owner) (select (by_status status) rs)))

-- the check of `limit`
unfoldable pub check_limit : Option ℤ → Result (Option ℕ)
check_limit none = ok none
check_limit (some (pos n)) =
    if leb 1 n then ok (some n) else err (value_error ("Limit must be greater than zero." ∷ []))
check_limit (some (negsuc n)) = err (value_error ("Limit must be greater than zero." ∷ []))

unfoldable pub check_owner : Option String → Result (Option String)
unfolding validate_owner_id
check_owner none = ok none
check_owner (some owner) =
    let r = validate_owner_id (text owner) in elim r [ ok o ↦ ok (some o) | err e ↦ err e ]
