-- ===== src/Strconv/Bounds.antt =====
-- What `Atoi` (package `strconv` of Go) returns fits an `int`.
use dynamiq.Prelude.{
  ℕ, zero, suc, ◌≤◌, Option, none, some, String, leb, ◌==◌, arith, Bool-cases, inl, inr,
}
use dynamiq.Prelude.Int.{ℤ, pos, negsuc, ◌≤ℤ◌}
use dynamiq.Prelude.Int64.{half64, max_int64}
use dynamiq.Strconv.{atoi, positive, negative, parse_unsigned, opposite}
use Prim.Native.Char.{code}
use Prim.Native.String.{[], ◌∷◌}

-- What holds of the integers from -2^63 to 2^63 - 1 holds of what `Atoi` returns.
module _ (P : ℤ → Type 0) (from_zero : (n : ℕ) → n ≤ max_int64 → P (pos n))
    (below_zero : (n : ℕ) → n ≤ max_int64 → P (negsuc n)) where
  positive-fits : (o : Option ℕ) → P (positive o).0
  unfolding positive
  positive-fits none = from_zero 0 (omega arith)
  positive-fits (some n) = elim (Bool-cases (leb n max_int64)) [
    | inl e ↦ rw e (from_zero n (ground (arith, e)))
    | inr e ↦ rw e (from_zero max_int64 (omega arith))
  ]

  opposite-fits : (n : ℕ) → n ≤ half64 → P (opposite n)
  opposite-fits zero h = from_zero 0 (omega arith)
  opposite-fits (suc n) h = below_zero n (omega arith)

  negative-fits : (o : Option ℕ) → P (negative o).0
  unfolding negative
  negative-fits none = from_zero 0 (omega arith)
  negative-fits (some n) = elim (Bool-cases (leb n half64)) [
    | inl e ↦ rw e (opposite-fits n (ground (arith, e)))
    | inr e ↦ rw e (below_zero max_int64 (omega arith))
  ]

  atoi-fits : (s : String) → P (atoi s).0
  unfolding atoi
  atoi-fits [] = from_zero 0 (omega arith)
  atoi-fits (c ∷ s) = elim (Bool-cases (code c == 45)) [
    | inl minus ↦ rw minus (negative-fits (parse_unsigned s))
    | inr no_minus ↦ elim (Bool-cases (code c == 43)) [
      | inl plus ↦ rw (no_minus, plus) (positive-fits (parse_unsigned s))
      | inr no_plus ↦ rw (no_minus, no_plus) (positive-fits (parse_unsigned (c ∷ s)))
    ]
  ]

pub atoi-le : (s : String) → (atoi s).0 ≤ℤ pos max_int64
atoi-le s = atoi-fits (λ z. z ≤ℤ pos max_int64) (λ n h. omega arith) (λ n h. omega arith) s

pub atoi-ge : (s : String) → negsuc max_int64 ≤ℤ (atoi s).0
atoi-ge s = atoi-fits (λ z. negsuc max_int64 ≤ℤ z) (λ n h. omega arith) (λ n h. omega arith) s
