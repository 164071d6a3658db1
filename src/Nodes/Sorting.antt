-- ===== src/Nodes/Sorting.antt =====
-- Package `sort` of Go, as far as app/partitions.go and app/members.go use it.
use dynamiq.Prelude.{
  ℕ, suc, ◌+◌, ◌≡◌, refl, ap, ◌∙◌, false, List, [], ◌∷◌, Perm, String, length, if◌then◌else◌, arith,
  All, inl, inr, Bool-cases,
}
use dynamiq.Prelude.Text.{str_ltb, str_ltb-not_trans, str_ltb-asym}
use mathlib.Core.List.Perm

unfoldable pub insert_string : String → List String → List String
insert_string s [] = s ∷ []
insert_string s (t ∷ ts) = if str_ltb t s then t ∷ insert_string s ts else s ∷ t ∷ ts

-- `sort.Strings`
unfoldable pub sort_strings : List String → List String
unfolding insert_string
sort_strings [] = []
sort_strings (s ∷ ss) = insert_string s (sort_strings ss)

-- `sort.SearchStrings`: the first index whose entry is not below the given string.
unfoldable pub search_strings : List String → String → ℕ
search_strings [] x = 0
search_strings (s ∷ ss) x = if str_ltb s x then suc (search_strings ss x) else 0

-- How many of the strings are below a given one.
unfoldable pub count_below : String → List String → ℕ
count_below x [] = 0
count_below x (s ∷ ss) = (if str_ltb s x then 1 else 0) + count_below x ss

pub insert_string-perm : (s : String) (ss : List String) → Perm (insert_string s ss) (s ∷ ss)
unfolding insert_string
insert_string-perm s [] = Perm.refl _
insert_string-perm s (t ∷ ts) = elim (Bool-cases (str_ltb t s)) [
  | inl e ↦ rw e (Perm.trans (Perm.cons t (insert_string-perm s ts)) (Perm.swap _ _ _))
  | inr e ↦ rw e (Perm.refl _)
]

pub sort_strings-perm : (ss : List String) → Perm (sort_strings ss) ss
unfolding sort_strings
sort_strings-perm [] = Perm.refl _
sort_strings-perm (s ∷ ss) =
    Perm.trans (insert_string-perm s (sort_strings ss)) (Perm.cons s (sort_strings-perm ss))

-- No later entry is below an earlier one.
abbrev pub IsSorted : List String → Type 0
IsSorted [] = Unit
IsSorted (s ∷ ss) = All (λ t. str_ltb t s ≡ false) ss × IsSorted ss

length-insert_string :
    (s : String) (ss : List String) → length (insert_string s ss) ≡ suc (length ss)
unfolding insert_string
length-insert_string s [] = refl
length-insert_string s (t ∷ ts) = ground (arith, length-insert_string s ts)

pub length-sort_strings : (ss : List String) → length (sort_strings ss) ≡ length ss
unfolding sort_strings
length-sort_strings [] = refl
length-sort_strings (s ∷ ss) =
    length-insert_string s (sort_strings ss) ∙ ap suc (length-sort_strings ss)

-- What follows an entry that is not below `x` is not below `x` either.
pub All-not_below :
    (x s : String) (ss : List String)
    → str_ltb s x ≡ false
    → All (λ t. str_ltb t s ≡ false) ss
    → All (λ t. str_ltb t x ≡ false) ss
All-not_below x s [] h a = tt
All-not_below x s (t ∷ ts) h a = (str_ltb-not_trans t s x a.0 h, All-not_below x s ts h a.1)

All-insert_string :
    (P : String → Type 0) (s : String) (ss : List String)
    → P s
    → All P ss
    → All P (insert_string s ss)
unfolding insert_string
All-insert_string P s [] h a = (h, tt)
All-insert_string P s (t ∷ ts) h a = elim (Bool-cases (str_ltb t s)) [
  | inl e ↦ rw e (a.0, All-insert_string P s ts h a.1)
  | inr e ↦ rw e (h, a)
]

insert_string-IsSorted :
    (s : String) (ss : List String) → IsSorted ss → IsSorted (insert_string s ss)
unfolding insert_string
insert_string-IsSorted s [] h = (tt, tt)
insert_string-IsSorted s (t ∷ ts) h = elim (Bool-cases (str_ltb t s)) [
  | inl e ↦ rw e (
    All-insert_string (λ u. str_ltb u t ≡ false) s ts (str_ltb-asym t s e) h.0,
    insert_string-IsSorted s ts h.1,
  )
  | inr e ↦ rw e ((e, All-not_below s t ts e h.0), h)
]

pub sort_strings-IsSorted : (ss : List String) → IsSorted (sort_strings ss)
unfolding sort_strings
sort_strings-IsSorted [] = tt
sort_strings-IsSorted (s ∷ ss) =
    insert_string-IsSorted s (sort_strings ss) (sort_strings-IsSorted ss)
