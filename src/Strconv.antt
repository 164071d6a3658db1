-- ===== src/Strconv.antt =====
-- Package `strconv` of Go, as far as app/config.go, app/queue.go and
-- app/httpinterface_v1.go use it: `Itoa`, `Atoi`, `FormatBool` and `ParseBool`.
pub mod Bounds
use dynamiq.Prelude.{
  ℕ, zero, suc, ◌+◌, ◌-◌, ◌*◌, ◌/◌, ◌%◌, ◌^◌, ◌<◌, ◌≡◌, refl, ap, ◌∙◌, Option, none, some, String,
  Bool, true, false, arith, ltb, leb, ◌==◌, ◌&&◌, ◌||◌, str_eq, if◌then◌else◌, Bool-cases, inl, inr,
}
use dynamiq.Prelude.Int.{ℤ, pos, negsuc, ◌≤ℤ◌}
use dynamiq.Prelude.Int64.{half64, mod64, max_int64}
use Prim.Native.Char.{Char, code}
use Prim.Native.String.{[], ◌∷◌}
use native.Mathlib.Nat.{pow-suc}

pub data NumError : Type 0 where
  syntax range : NumError

unfoldable pub digit : ℕ → Char
digit d =
    if d == 0
    then "0"
    else if d == 1
    then "1"
    else if d == 2
    then "2"
    else if d == 3
    then "3"
    else if d == 4
    then "4"
    else if d == 5
    then "5"
    else if d == 6
    then "6"
    else if d == 7
    then "7"
    else if d == 8
    then "8"
    else "9"

-- The decimal digits of a number below 10^fuel, in front of a text.
unfoldable pub format_digits : ℕ → ℕ → String → String
unfolding digit
format_digits zero n rest = rest
format_digits (suc fuel) n rest =
    let longer = format_digits fuel (n / 10) (digit (n % 10) ∷ rest) in
    if ltb n 10 then digit n ∷ rest else longer

-- Twenty digits are enough for 64 bits.
unfoldable pub itoa : ℤ → String
unfolding format_digits
itoa (pos n) = format_digits 20 n []
itoa (negsuc n) = "-" ∷ format_digits 20 (suc n) []

-- Digits beyond 64 bits end the conversion with the largest number of 64 bits.
unfoldable pub parse_digits : ℕ → String → Option ℕ
parse_digits acc [] = some acc
parse_digits acc (c ∷ s) =
    let n = acc * 10 + (code c - 48) in
    let rest = parse_digits n s in
    if leb 48 (code c) && leb (code c) 57
    then (if ltb n mod64 then rest else some (mod64 - 1))
    else none

unfoldable pub positive : Option ℕ → ℤ × Option NumError
positive none = (pos 0, some syntax)
positive (some n) = if leb n max_int64 then (pos n, none) else (pos max_int64, some range)

abbrev opposite : ℕ → ℤ
opposite zero = pos 0
opposite (suc n) = negsuc n

unfoldable pub negative : Option ℕ → ℤ × Option NumError
negative none = (pos 0, some syntax)
negative (some n) = if leb n half64 then (opposite n, none) else (negsuc max_int64, some range)

-- No digits are a syntax error.
unfoldable pub parse_unsigned : String → Option ℕ
unfolding parse_digits
parse_unsigned [] = none
parse_unsigned (c ∷ s) = parse_digits 0 (c ∷ s)

unfoldable pub atoi : String → ℤ × Option NumError
unfolding parse_unsigned positive negative
atoi [] = (pos 0, some syntax)
atoi (c ∷ s) =
    if code c == 45
    then negative (parse_unsigned s)
    else if code c == 43
    then positive (parse_unsigned s)
    else positive (parse_unsigned (c ∷ s))

unfoldable pub format_bool : Bool → String
format_bool true = "true"
format_bool false = "false"

-- `ParseBool`: the value, and whether the text was accepted.
unfoldable pub parse_bool : String → Bool × Option NumError
parse_bool s =
    if str_eq s "1"
      || str_eq s "t"
      || str_eq s "T"
      || str_eq s "TRUE"
      || str_eq s "true"
      || str_eq s "True"
    then (true, none)
    else if str_eq s "0"
        || str_eq s "f"
        || str_eq s "F"
        || str_eq s "FALSE"
        || str_eq s "false"
        || str_eq s "False"
    then (false, none)
    else (false, some syntax)

pub code-digit : (d : ℕ) → d < 10 → code (digit d) ≡ 48 + d
unfolding digit
code-digit zero h = refl
code-digit (suc zero) h = refl
code-digit (suc (suc zero)) h = refl
code-digit (suc (suc (suc zero))) h = refl
code-digit (suc (suc (suc (suc zero)))) h = refl
code-digit (suc (suc (suc (suc (suc zero))))) h = refl
code-digit (suc (suc (suc (suc (suc (suc zero)))))) h = refl
code-digit (suc (suc (suc (suc (suc (suc (suc zero))))))) h = refl
code-digit (suc (suc (suc (suc (suc (suc (suc (suc zero)))))))) h = refl
code-digit (suc (suc (suc (suc (suc (suc (suc (suc (suc zero))))))))) h = refl
code-digit (suc (suc (suc (suc (suc (suc (suc (suc (suc (suc n)))))))))) h = absurd (omega arith)

parse_digits-digit :
    (acc d : ℕ) (s : String)
    → d < 10
    → acc * 10 + d < mod64
    → parse_digits acc (digit d ∷ s) ≡ parse_digits (acc * 10 + d) s
unfolding parse_digits
parse_digits-digit acc d s h small =
    let known = code-digit d h in
    let value : acc * 10 + (code (digit d) - 48) ≡ acc * 10 + d = omega (arith, known) in
    let test : (leb 48 (code (digit d)) && leb (code (digit d)) 57) ≡ true =
      ground (arith, known) in
    let fits : ltb (acc * 10 + d) mod64 ≡ true = ground (arith, small) in rw (test, value, fits)

parse_digits-format_digits :
    (fuel n : ℕ) (s : String)
    → n < 10 ^ fuel
    → n < mod64
    → parse_digits 0 (format_digits fuel n s) ≡ parse_digits n s
unfolding format_digits
parse_digits-format_digits zero n s h fits = ap (λ m. parse_digits m s) (omega arith)
parse_digits-format_digits (suc fuel) n s h fits = elim (Bool-cases (ltb n 10)) [
  | inl small ↦ rw small (
      parse_digits-digit 0 n s (ground arith) (omega (arith, fits))
      ∙ ap (λ m. parse_digits m s) (omega arith))
  | inr large ↦ rw large (
      parse_digits-format_digits fuel (n / 10) (digit (n % 10) ∷ s) (omega (arith, pow-suc 10 fuel))
        (omega (arith, fits))
      ∙ parse_digits-digit (n / 10) (n % 10) s (omega arith) (omega (arith, fits))
      ∙ ap (λ m. parse_digits m s) (omega arith))
]

-- A text that begins with a digit.
abbrev pub Begins : String → Type 0
Begins s = (d : ℕ) × (t : String) × (d < 10) × (s ≡ digit d ∷ t)

format_digits-digit :
    (fuel n d : ℕ) (s : String) → d < 10 → Begins (format_digits fuel n (digit d ∷ s))
unfolding format_digits
format_digits-digit zero n d s h = (d, s, h, refl)
format_digits-digit (suc fuel) n d s h = elim (Bool-cases (ltb n 10)) [
  | inl small ↦ (n, digit d ∷ s, ground arith, rw small)
  | inr large ↦ rw large (format_digits-digit fuel (n / 10) (n % 10) (digit d ∷ s) (omega arith))
]

pub format_digits-Begins : (fuel n : ℕ) (s : String) → Begins (format_digits (suc fuel) n s)
unfolding format_digits
format_digits-Begins fuel n s = elim (Bool-cases (ltb n 10)) [
  | inl small ↦ (n, s, ground arith, rw small)
  | inr large ↦ rw large (format_digits-digit fuel (n / 10) (n % 10) s (omega arith))
]

parse_unsigned-Begins : (s : String) → Begins s → parse_unsigned s ≡ parse_digits 0 s
unfolding parse_unsigned
parse_unsigned-Begins s (d, t, h, e) = rw e

atoi-Begins : (s : String) → Begins s → atoi s ≡ positive (parse_unsigned s)
unfolding atoi
atoi-Begins s (d, t, h, e) =
    let known = code-digit d h in
    let minus : (code (digit d) == 45) ≡ false = ground (arith, known) in
    let plus : (code (digit d) == 43) ≡ false = ground (arith, known) in rw (e, minus, plus)

-- A number that is written is read back.
parse_unsigned-format_digits : (n : ℕ) → n < mod64 → parse_unsigned (format_digits 20 n []) ≡ some n
parse_unsigned-format_digits n h =
    parse_unsigned-Begins _ (format_digits-Begins 19 n [])
    ∙ parse_digits-format_digits 20 n [] (omega (arith, h)) h
    ∙ unfold parse_digits in refl

-- `Atoi` reads back what `Itoa` has written, for every `int`.
pub atoi-itoa : (z : ℤ) → negsuc max_int64 ≤ℤ z → z ≤ℤ pos max_int64 → atoi (itoa z) ≡ (z, none)
unfolding itoa
atoi-itoa (pos n) low high =
    let bounded : leb n max_int64 ≡ true = ground arith in
    atoi-Begins _ (format_digits-Begins 19 n [])
    ∙ ap positive (parse_unsigned-format_digits n (omega arith))
    ∙ unfold positive in rw bounded
atoi-itoa (negsuc n) low high =
    let bounded : leb (suc n) half64 ≡ true = ground arith in
    let minus : atoi (itoa (negsuc n)) ≡ negative (parse_unsigned (format_digits 20 (suc n) [])) =
      unfold atoi in refl in
    minus
    ∙ ap negative (parse_unsigned-format_digits (suc n) (omega arith))
    ∙ unfold negative in rw bounded
