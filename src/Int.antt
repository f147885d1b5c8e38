-- ===== src/Int.antt =====
-- Python's `int` where an argument may be negative. `negsuc n` is -(n + 1).
use mama_ai.Prelude.{ℕ, Bool, false, ◌&&◌, leb}

pub data ℤ : Type 0 where
  pos : ℕ → ℤ
  negsuc : ℕ → ℤ

-- `lo <= n <= hi` for bounds that are not negative
abbrev pub is_between : ℕ → ℕ → ℤ → Bool
is_between lo hi (pos n) = leb lo n && leb n hi
is_between lo hi (negsuc n) = false
