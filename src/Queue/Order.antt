-- ===== src/Queue/Order.antt =====
-- `ORDER BY created_at ASC`: the first row of the sorted rows.
use mama_ai.Prelude.{
  String, ◌≡◌, ◌≤◌, inl, inr, refl, arith, Bool, true, ◌==◌, none, some, List, [], ◌∷◌, leb, leb→le,
  not_leb→lt, All, select, if◌then◌else◌, Bool-cases, Option-cases, subst, sym,
}
use mama_ai.Dict
use mama_ai.Dict.{Dict}
use mama_ai.Dict.Laws.{IsStored, IsStored-self, Holds}
use mama_ai.Newest.Order.{All-select, All-select_of}
use mama_ai.Queue.{QueueRow, QueueDb}
use mama_ai.Queue.Table.{insert_oldest, oldest_first}
use mama_ai.Queue.Claim.{first_row, select_rows}
use mama_ai.Queue.Life.{IsSound}
use mama_ai.Queue.Valid.{IsValid}

module _ (P : QueueRow → Type 0) where
  All-insert_oldest :
      (r : QueueRow) (xs : List QueueRow) → P r → All P xs → All P (insert_oldest r xs)
  unfolding insert_oldest
  All-insert_oldest r [] p h = (p, tt)
  All-insert_oldest r (x ∷ xs) p h = elim (Bool-cases (leb r.created_at x.created_at)) [
    | inl e ↦ rw e (p, h)
    | inr e ↦ rw e (h.0, All-insert_oldest r xs p h.1)
  ]

  All-oldest_first : (xs : List QueueRow) → All P xs → All P (oldest_first xs)
  unfolding oldest_first
  All-oldest_first [] h = tt
  All-oldest_first (x ∷ xs) h = All-insert_oldest x (oldest_first xs) h.0 (All-oldest_first xs h.1)

  pub All-first_row : (xs : List QueueRow) {v : QueueRow} → All P xs → first_row xs ≡ some v → P v
  All-first_row [] h e = absurd (ground arith)
  All-first_row (x ∷ xs) {v} h e = let p : x ≡ v = ground arith in subst P p h.0

  -- A property of all selected rows of a table, at one of them.
  pub All-get :
      (test : QueueRow → Bool) (id : String) (d : Dict QueueRow) {w : QueueRow}
      → All P (select test (Dict.values d))
      → Dict.get id d ≡ some w
      → test w ≡ true
      → P w
  unfolding Dict.get Dict.values select
  All-get test id [] h g t = absurd (ground arith)
  All-get test id ((k, v) ∷ d) {w} h g t = elim (Bool-cases (k == id)) [
    | inl e ↦
        let p : v ≡ w = ground arith in
        subst P p ((rw (subst (λ x. test x ≡ true) (sym p) t) at h).0)
    | inr e ↦ elim (Bool-cases (test v)) [
      | inl q ↦ All-get test id d ((rw q at h).1) (ground arith) t
      | inr q ↦ All-get test id d (rw q at h) (ground arith) t
    ]
  ]

All-and :
    (P Q : QueueRow → Type 0) (xs : List QueueRow) → All P xs → All Q xs → All (λ r. P r × Q r) xs
All-and P Q [] h k = tt
All-and P Q (x ∷ xs) h k = ((h.0, k.0), All-and P Q xs h.1 k.1)

values-All :
    (d e : Dict QueueRow)
    → IsStored d e
    → Holds IsSound d
    → All (λ r. Dict.get r.task_id e ≡ some r) (Dict.values d)
unfolding Dict.values Holds
values-All [] e h k = tt
values-All ((i, v) ∷ d) e h k =
    (subst (λ x. Dict.get x e ≡ some v) (sym k.0.keyed) h.0, values-All d e h.1 k.1)

first_row-insert_oldest :
    (r : QueueRow) (xs : List QueueRow)
    → first_row (insert_oldest r xs) ≡ elim (first_row xs) [
      | none ↦ some r
      | some x ↦ if leb r.created_at x.created_at then some r else some x
    ]
unfolding insert_oldest
first_row-insert_oldest r [] = refl
first_row-insert_oldest r (x ∷ xs) = ground arith

first_row-oldest_first-none : (xs : List QueueRow) → first_row (oldest_first xs) ≡ none → xs ≡ []
unfolding oldest_first
first_row-oldest_first-none [] h = refl
first_row-oldest_first-none (x ∷ xs) h =
    absurd (ground (arith, first_row-insert_oldest x (oldest_first xs)))

-- If nothing was found, all that was found has any property.
pub All-none :
    (P : QueueRow → Type 0) (xs : List QueueRow) → first_row (oldest_first xs) ≡ none → All P xs
All-none P xs h = subst (All P) (sym (first_row-oldest_first-none xs h)) tt

abbrev NoOlder : QueueRow → QueueRow → Type 0
NoOlder v w = v.created_at ≤ w.created_at

NoOlder-All :
    (a b : QueueRow) (xs : List QueueRow)
    → a.created_at ≤ b.created_at
    → All (NoOlder b) xs
    → All (NoOlder a) xs
NoOlder-All a b [] h k = tt
NoOlder-All a b (x ∷ xs) h k = (omega (arith, k.0), NoOlder-All a b xs h k.1)

pub first_row-oldest :
    (xs : List QueueRow) {v : QueueRow}
    → first_row (oldest_first xs) ≡ some v
    → All (λ w. v.created_at ≤ w.created_at) xs
unfolding oldest_first
first_row-oldest [] h = tt
first_row-oldest (r ∷ rs) {v} h =
    let k = first_row-insert_oldest r (oldest_first rs) in
    elim (Option-cases (first_row (oldest_first rs))) [
      | inl e ↦
          let p : r ≡ v = ground (arith, k) in
          rw (first_row-oldest_first-none rs e)
            (subst (λ x. x.created_at ≤ r.created_at) p (omega arith), tt)
      | inr (x, e) ↦
          let old = first_row-oldest rs e in
          elim (Bool-cases (leb r.created_at x.created_at)) [
            | inl l ↦
                let p : r ≡ v = ground (arith, k) in
                subst (λ y. All (NoOlder y) (r ∷ rs)) p
                  (omega arith, NoOlder-All r x rs (leb→le r.created_at x.created_at l) old)
            | inr l ↦
                let p : x ≡ v = ground (arith, k) in
                subst (λ y. All (NoOlder y) (r ∷ rs)) p
                  (omega (arith, not_leb→lt r.created_at x.created_at l), old)
          ]
    ]

-- The rows that a query returns are in the table, and pass its test.
pub select_rows-All :
    (test : QueueRow → Bool) (db : QueueDb)
    → IsValid db
    → All (λ r. (Dict.get r.task_id db.rows ≡ some r) × (test r ≡ true)) (select_rows test db)
unfolding select_rows
select_rows-All test db v =
    let stored = values-All db.rows db.rows (IsStored-self db.rows v.distinct) v.sound in
    All-oldest_first _ (select test (Dict.values db.rows)) (
      All-and _ (λ r. test r ≡ true) _
        (All-select_of (λ (r : QueueRow). Dict.get r.task_id db.rows ≡ some r) test _ stored)
        (All-select test (Dict.values db.rows)))
