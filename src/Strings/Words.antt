-- ===== src/Strings/Words.antt =====
-- What `Fields` (package `strings` of Go) makes of a number that `Itoa` has written.
use dynamiq.Prelude.{
  ℕ, zero, suc, ◌%◌, ◌/◌, ◌<◌, ◌≡◌, refl, [], ◌∷◌, String, false, arith, ltb, Bool-cases, inl, inr,
}
use dynamiq.Prelude.Int.{pos}
use dynamiq.Strconv.{digit, code-digit, format_digits, format_digits-Begins, itoa}
use dynamiq.Strings.{fields, split_where, prepend, is_space, words}
use Prim.Native.Char.{code}
use Prim.Native.String.{[] as empty, ◌∷◌ as char_then}

-- A text without white space.
abbrev Unbroken : String → Type 0
Unbroken empty = Unit {0}
Unbroken (char_then c s) = (is_space (code c) ≡ false) × Unbroken s

split_where-Unbroken : (s : String) → Unbroken s → split_where is_space s ≡ s ∷ []
unfolding split_where prepend
split_where-Unbroken empty h = refl
split_where-Unbroken (char_then c s) h = rw (h.0, split_where-Unbroken s h.1) refl

is_space-digit : (d : ℕ) → d < 10 → is_space (code (digit d)) ≡ false
is_space-digit d h = rw (code-digit d h) (unfold is_space in ground arith)

Unbroken-format_digits : (fuel n : ℕ) (s : String) → Unbroken s → Unbroken (format_digits fuel n s)
unfolding format_digits
Unbroken-format_digits zero n s h = h
Unbroken-format_digits (suc fuel) n s h = elim (Bool-cases (ltb n 10)) [
  | inl small ↦ rw small (is_space-digit n (ground arith), h)
  | inr large ↦
      rw large (Unbroken-format_digits fuel (n / 10) _ (is_space-digit (n % 10) (omega arith), h))
]

pub fields-itoa : (n : ℕ) → fields (itoa (pos n)) ≡ itoa (pos n) ∷ []
unfolding fields itoa words
fields-itoa n =
    let (d, t, _, begins) = format_digits-Begins 19 n empty in
    rw (split_where-Unbroken _ (Unbroken-format_digits 20 n empty tt), begins) refl
