-- ===== src/Prelude/Text.antt =====
-- The order of Go's strings. Bytes of UTF-8 are ordered as the code points that they stand for.
use dynamiq.Prelude.Tests.{ltb, if◌then◌else◌, Bool-cases}
use mathlib.Core.Logic.{inl, inr}
use Prim.Native.Char.{code}
use Prim.Native.String.{String, [], ◌∷◌, ◌++◌, len}
use Prim.Native.Nat.{◌+◌, ◌<◌}
use text.Mathlib.Text.{◌==◌ as str_eq}
use text.Mathlib.TextEquality.{eq_iff}
use text.Mathlib.TextPositions.{len-append}
use mathlib.Core.Path.{◌≡◌, refl, ap, ap₂, ◌∙◌}
use mathlib.Core.Bool.{Bool, true, false}
use native.Mathlib.Omega.{arith}
use text.Mathlib.TextEquality.{Char-path}

unfoldable pub str_ltb : String → String → Bool
str_ltb [] [] = false
str_ltb [] (d ∷ t) = true
str_ltb (c ∷ s) [] = false
str_ltb (c ∷ s) (d ∷ t) =
    if ltb (code c) (code d) then true else if ltb (code d) (code c) then false else str_ltb s t

pub str_ltb_irrefl : (s : String) → str_ltb s s ≡ false
unfolding str_ltb
str_ltb_irrefl [] = refl
str_ltb_irrefl (c ∷ s) = ground (arith, str_ltb_irrefl s)

pub str_ltb_trans : (s t u : String) → str_ltb s t ≡ true → str_ltb t u ≡ true → str_ltb s u ≡ true
unfolding str_ltb
str_ltb_trans [] [] u h k = ground arith
str_ltb_trans [] (d ∷ t) [] h k = ground arith
str_ltb_trans [] (d ∷ t) (e ∷ u) h k = refl
str_ltb_trans (c ∷ s) [] u h k = ground arith
str_ltb_trans (c ∷ s) (d ∷ t) [] h k = ground arith
str_ltb_trans (c ∷ s) (d ∷ t) (e ∷ u) h k = ground (arith, str_ltb_trans s t u)

-- Of two strings neither of which is the smaller, both are the same.
pub str_ltb_antisym : (s t : String) → str_ltb s t ≡ false → str_ltb t s ≡ false → s ≡ t
unfolding str_ltb
str_ltb_antisym [] [] h k = refl
str_ltb_antisym [] (d ∷ t) h k = ground arith
str_ltb_antisym (c ∷ s) [] h k = ground arith
str_ltb_antisym (c ∷ s) (d ∷ t) h k =
    ap₂ ◌∷◌ (Char-path c d (ground arith)) (str_ltb_antisym s t (ground arith) (ground arith))

-- Where neither s < x nor t < s, neither is t < x.
pub str_ltb-not_trans :
    (t s x : String) → str_ltb t s ≡ false → str_ltb s x ≡ false → str_ltb t x ≡ false
str_ltb-not_trans t s x h k = elim (Bool-cases (str_ltb t x)) [
  | inr e ↦ e
  | inl below ↦ elim (Bool-cases (str_ltb x s)) [
    | inl e ↦ let through = str_ltb_trans t x s below e in cc (h, through)
    | inr e ↦ let same = str_ltb_antisym s x k e in cc (h, same)
  ]
]

pub str_ltb-asym : (s t : String) → str_ltb s t ≡ true → str_ltb t s ≡ false
str_ltb-asym s t h = elim (Bool-cases (str_ltb t s)) [
  | inr e ↦ e
  | inl back ↦
      let around = str_ltb_trans s t s h back in let never = str_ltb_irrefl s in cc (around, never)
]

-- A name between two texts is not a text that is shorter than both.
pub wrapped-differs :
    (before name after key : String)
    → len key < len before + len after
    → str_eq (before ++ (name ++ after)) key ≡ false
wrapped-differs before name after key short =
    elim (Bool-cases (str_eq (before ++ (name ++ after)) key)) [
      | inr e ↦ e
      | inl e ↦
          let same : len (before ++ (name ++ after)) ≡ len key =
            ap len ((eq_iff (before ++ (name ++ after)) key).0 e) in
          let long : len (before ++ (name ++ after)) ≡ len before + (len name + len after) =
            len-append before (name ++ after) ∙ ap (λ n. len before + n) (len-append name after) in
          absurd (omega (arith, same, long, short))
    ]
