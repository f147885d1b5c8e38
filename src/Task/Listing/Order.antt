-- ===== src/Task/Listing/Order.antt =====
-- backend/app/core/task_registry.py: the order, the filters and the limit of `TaskRegistry.list`.
use mathlib.Core.List.{Mem, mem-cons, mem-cons_of_mem, Mem-prop}
use mathlib.Core.List.Perm
use mathlib.Core.Logic.Or
use mama_ai.Prelude.{
  ℕ, String, ◌≡◌, eq_iff, arith, refl, Bool, true, Option, none, some, List, [], ◌∷◌, All, select,
  Bool-cases, inl, inr,
}
use mama_ai.Newest.{newest_first}
use mama_ai.Newest.Order.{
  IsNewestFirst, All-newest_first, All-select, All-select_of, All-take, take-IsNewestFirst,
  newest_first-IsNewestFirst, newest_first-perm,
}
use mama_ai.Task.{TaskStatus}
use mama_ai.Task.Lifecycle.{same_iff}
use mama_ai.Task.Record.{TaskRecord}
use mama_ai.Task.Listing.{by_status, by_owner, cut, listing}

All-weaken :
    {A : Type 0} (P Q : A → Type 0) → ((r : A) → P r → Q r) → (rs : List A) → All P rs → All Q rs
All-weaken P Q f [] h = tt
All-weaken P Q f (r ∷ rs) h = (f r h.0, All-weaken P Q f rs h.1)

mem-select :
    {A : Type 0} (p : A → Bool) {a : A} (rs : List A) → p a ≡ true → Mem a rs → Mem a (select p rs)
unfolding select
mem-select p {a} [] h m = m
mem-select p {a} (r ∷ rs) h m =
    Or.elim (Mem-prop {a = a} {l = select p (r ∷ rs)}) (mem-cons.0 m)
      (λ e. rw (← e, h) (mem-cons.1 (Or.inl refl)))
      (λ k. elim (Bool-cases (p r)) [
        | inl q ↦ rw q (mem-cons_of_mem r (mem-select p rs h k))
        | inr q ↦ rw q (mem-select p rs h k)
      ])

module _ {J : Type 0} where
  -- The owner of a record is the given one, if one is given.
  abbrev pub IsOwned : Option String → TaskRecord J → Type 0
  IsOwned none r = Unit
  IsOwned (some owner) r = r.owner_id ≡ owner

  -- The status of a record is the given one, if one is given.
  abbrev pub IsInStatus : Option TaskStatus → TaskRecord J → Type 0
  IsInStatus none r = Unit
  IsInStatus (some status) r = r.status ≡ status

  by_owner-IsOwned :
      (owner : Option String) (r : TaskRecord J) → by_owner owner r ≡ true → IsOwned owner r
  by_owner-IsOwned none r h = tt
  by_owner-IsOwned (some o) r h = (eq_iff r.owner_id o).0 h

  IsOwned-by_owner :
      (owner : Option String) (r : TaskRecord J) → IsOwned owner r → by_owner owner r ≡ true
  IsOwned-by_owner none r h = refl
  IsOwned-by_owner (some o) r h = (eq_iff r.owner_id o).1 h

  by_status-IsInStatus :
      (status : Option TaskStatus) (r : TaskRecord J)
      → by_status status r ≡ true
      → IsInStatus status r
  by_status-IsInStatus none r h = tt
  by_status-IsInStatus (some x) r h = same_iff r.status x h

  IsInStatus-by_status :
      (status : Option TaskStatus) (r : TaskRecord J)
      → IsInStatus status r
      → by_status status r ≡ true
  IsInStatus-by_status none r h = refl
  IsInStatus-by_status (some x) r h = rw h (ground arith)

  -- Newest first, with records of the required owner and status only.
  pub record IsListing (status : Option TaskStatus) (owner : Option String)
      (rs : List (TaskRecord J)) : Type 0 where
    pub ordered : IsNewestFirst (λ r. r.created_at) rs
    pub owned : All (IsOwned owner) rs
    pub in_status : All (IsInStatus status) rs

  matching-IsListing :
      (status : Option TaskStatus) (owner : Option String) (rs : List (TaskRecord J))
      → IsListing status owner (
          newest_first (λ r. r.created_at) (select (by_owner owner) (select (by_status status) rs)))
  matching-IsListing status owner rs = record {
    ordered = newest_first-IsNewestFirst (λ r. r.created_at) kept;
    owned =
        All-newest_first (λ r. r.created_at) (IsOwned owner) kept
          (All-weaken (λ r. by_owner owner r ≡ true) (IsOwned owner) (by_owner-IsOwned owner) kept
            (All-select (by_owner owner) _));
    in_status =
        All-newest_first (λ r. r.created_at) (IsInStatus status) kept
          (All-select_of (IsInStatus status) (by_owner owner) _ (
            All-weaken (λ r. by_status status r ≡ true) (IsInStatus status)
              (by_status-IsInStatus status) (select (by_status status) rs)
              (All-select (by_status status) rs)));
  }
    where
      kept : List (TaskRecord J)
      kept = select (by_owner owner) (select (by_status status) rs)

  cut-IsListing :
      (status : Option TaskStatus) (owner : Option String) (limit : Option ℕ)
      → (rs : List (TaskRecord J)) → IsListing status owner rs
      → IsListing status owner (cut limit rs)
  cut-IsListing status owner none rs v = v
  cut-IsListing status owner (some n) rs v = record {
    ordered = take-IsNewestFirst (λ r. r.created_at) n rs v.ordered;
    owned = All-take (IsOwned owner) n rs v.owned;
    in_status = All-take (IsInStatus status) n rs v.in_status;
  }

  -- A listing of task records is sorted by creation time, newest first, and every record in it has
  -- the given owner, if one is given, and the given status, if one is given.
  pub listing-IsListing :
      (status : Option TaskStatus) (owner : Option String) (limit : Option ℕ)
      → (rs : List (TaskRecord J)) → IsListing status owner (listing status owner limit rs)
  unfolding listing
  listing-IsListing status owner limit rs =
      cut-IsListing status owner limit _ (matching-IsListing status owner rs)

  -- A listing without a limit contains every given record that has the given owner, if one is
  -- given, and the given status, if one is given.
  pub Mem-listing :
      (status : Option TaskStatus) (owner : Option String) (rs : List (TaskRecord J))
      (r : TaskRecord J)
      → Mem r rs
      → IsOwned owner r
      → IsInStatus status r
      → Mem r (listing status owner none rs)
  unfolding listing
  Mem-listing status owner rs r m o i =
      (Perm.mem_iff (newest_first-perm (λ (x : TaskRecord J). x.created_at) _)).1 (
        mem-select (by_owner owner) _ (IsOwned-by_owner owner r o)
          (mem-select (by_status status) rs (IsInStatus-by_status status r i) m))
