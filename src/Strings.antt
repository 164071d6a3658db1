-- ===== src/Strings.antt =====
-- Package `strings` of Go, as far as app/httpinterface_v1.go uses it: `Split` at commas, and
-- `Fields`. A text is its characters.
pub mod Words
use dynamiq.Prelude.{
  ℕ, List, [], ◌∷◌, String, Bool, true, false, ltb, leb, ◌==◌, ◌&&◌, ◌||◌, if◌then◌else◌,
}
use Prim.Native.Char.{Char, code}
use Prim.Native.String.{[] as empty, ◌∷◌ as char_then}

-- A character in front of the first piece.
unfoldable pub prepend : Char → List String → List String
prepend c [] = char_then c empty ∷ []
prepend c (piece ∷ rest) = char_then c piece ∷ rest

-- The pieces between the separators, which are tested by their codes.
unfoldable pub split_where : (ℕ → Bool) → String → List String
unfolding prepend
split_where separates empty = empty ∷ []
split_where separates (char_then c s) =
    let rest = split_where separates s in
    if separates (code c) then empty ∷ rest else prepend c rest

-- `strings.Split(s, ",")`
unfoldable pub split_commas : String → List String
unfolding split_where
split_commas s = split_where (λ c. c == 44) s

-- `unicode.IsSpace`
unfoldable pub is_space : ℕ → Bool
is_space c =
    (leb 9 c && leb c 13)
    || c == 32
    || c == 133
    || c == 160
    || c == 5760
    || (leb 8192 c && leb c 8202)
    || c == 8232
    || c == 8233
    || c == 8239
    || c == 8287
    || c == 12288

unfoldable pub words : List String → List String
words [] = []
words (empty ∷ rest) = words rest
words (char_then c s ∷ rest) = char_then c s ∷ words rest

-- `strings.Fields(s)`
unfoldable pub fields : String → List String
unfolding split_where is_space words
fields s = words (split_where is_space s)
