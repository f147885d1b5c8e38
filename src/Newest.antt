-- ===== src/Newest.antt =====
-- `records.sort(key=lambda record: record.created_at, reverse=True)` of the task registry and of
-- the approval registry: the stable sort, newest first.
pub mod Order
use mama_ai.Prelude.{ℕ, List, [], ◌∷◌, leb, if◌then◌else◌}

module _ {A : Type 0} (created : A → ℕ) where
  -- the stable sort by the key `created` with `reverse=True`
  unfoldable pub insert_newest : A → List A → List A
  insert_newest r [] = r ∷ []
  insert_newest r (x ∷ xs) =
      if leb (created x) (created r) then r ∷ x ∷ xs else x ∷ insert_newest r xs

  unfoldable pub newest_first : List A → List A
  unfolding insert_newest
  newest_first [] = []
  newest_first (r ∷ rs) = insert_newest r (newest_first rs)
