-- ===== src/Text/Words.antt =====
-- `" ".join(text.split())`: the words of a text, with one space between them.
use Prim.Native.Char.{code}
use Prim.Native.String.{◌++◌ as join_text}
use mama_ai.Prelude.{String, List, [], ◌∷◌, if◌then◌else◌}
use mama_ai.Text.{is_space, is_empty}

-- a word is kept unless it is empty
unfoldable pub keep_word : String → List String → List String
keep_word w ws = if is_empty w then ws else w ∷ ws

-- the first word, if the text starts with one, and the words behind it
unfoldable pub split_first : String → String × List String
unfolding is_space keep_word is_empty
split_first String.[] = ("", [])
split_first (String.◌∷◌ c s) =
    let (w, ws) = split_first s in
    if is_space (code c) then ("", keep_word w ws) else (String.◌∷◌ c w, ws)

-- `text.split()`
unfoldable pub words : String → List String
unfolding split_first
words s = let (w, ws) = split_first s in keep_word w ws

-- `" ".join(words)`
unfoldable pub join_words : List String → String
join_words [] = ""
join_words (w ∷ []) = w
join_words (w ∷ v ∷ ws) = join_text w (join_text " " (join_words (v ∷ ws)))
