-- ===== src/Text/Strip.antt =====
-- `str.strip` applied twice.
use Prim.Native.Char.{Char, code}
use mama_ai.Prelude.{String, false, ◌&&◌, ◌≡◌, refl, ap, ◌∙◌, Bool-cases, inl, inr}
use mama_ai.Text.{is_space, is_empty, lstrip, rstrip, strip}

-- What `lstrip` leaves: nothing, or a text that starts with no white space.
data IsTrimmed : String → Type 0 where
  nothing : IsTrimmed String.[]
  something : (c : Char) (s : String) → is_space (code c) ≡ false → IsTrimmed (String.◌∷◌ c s)

lstrip-IsTrimmed : (s : String) → IsTrimmed (lstrip s)
unfolding lstrip
lstrip-IsTrimmed String.[] = nothing
lstrip-IsTrimmed (String.◌∷◌ c s) = elim (Bool-cases (is_space (code c))) [
  | inl e ↦ rw e (lstrip-IsTrimmed s)
  | inr e ↦ rw e (something c s e)
]

lstrip_trimmed : {s : String} → IsTrimmed s → lstrip s ≡ s
unfolding lstrip
lstrip_trimmed nothing = refl
lstrip_trimmed (something c s e) = rw e

rstrip-IsTrimmed : {s : String} → IsTrimmed s → IsTrimmed (rstrip s)
unfolding rstrip
rstrip-IsTrimmed nothing = nothing
rstrip-IsTrimmed (something c s e) = rw e (something c (rstrip s) e)

rstrip_idem : (s : String) → rstrip (rstrip s) ≡ rstrip s
unfolding rstrip
rstrip_idem String.[] = refl
rstrip_idem (String.◌∷◌ c s) = elim (Bool-cases (is_space (code c) && is_empty (rstrip s))) [
  | inl e ↦ rw e
  | inr e ↦ rw e (rw (rstrip_idem s, e))
]

pub strip_idem : (s : String) → strip (strip s) ≡ strip s
unfolding strip
strip_idem s =
    ap rstrip (lstrip_trimmed (rstrip-IsTrimmed (lstrip-IsTrimmed s))) ∙ rstrip_idem (lstrip s)
