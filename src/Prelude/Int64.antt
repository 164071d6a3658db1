-- ===== src/Prelude/Int64.antt =====
-- Go's `int` and `int64`: integers that wrap around at 2^63.
use dynamiq.Prelude.Tests.{ltb, if◌then◌else◌}
use dynamiq.Prelude.Int.{ℤ, pos, negsuc, ◌+ℤ◌, ◌-ℤ◌, ◌*ℤ◌, quot, +ℤ-pos, -ℤ-pos, *ℤ-pos}
use Prim.Native.Nat.{ℕ, ◌+◌, ◌-◌, ◌*◌, ◌/◌, ◌%◌, ◌≤◌, ◌<◌}
use mathlib.Core.Path.{◌≡◌, ap, ◌∙◌}
use native.Mathlib.Omega.{arith}

-- 2^63 and 2^64
abbrev pub half64 : ℕ
half64 = 9223372036854775808

abbrev pub mod64 : ℕ
mod64 = 18446744073709551616

-- math.MaxInt64
abbrev pub max_int64 : ℕ
max_int64 = 9223372036854775807

-- The integer that a 64-bit pattern stands for.
abbrev pub signed64 : ℕ → ℤ
signed64 r = if ltb r half64 then pos r else negsuc (mod64 - 1 - r)

unfoldable pub int64 : ℤ → ℤ
int64 (pos n) = signed64 (n % mod64)
int64 (negsuc n) = signed64 (mod64 - 1 - n % mod64)

abbrev pub add64 : ℤ → ℤ → ℤ
add64 a b = int64 (a +ℤ b)

abbrev pub sub64 : ℤ → ℤ → ℤ
sub64 a b = int64 (a -ℤ b)

abbrev pub mul64 : ℤ → ℤ → ℤ
mul64 a b = int64 (a *ℤ b)

-- MinInt64 / -1 wraps too.
abbrev pub div64 : ℤ → ℤ → ℤ
div64 a b = int64 (quot a b)

-- A difference of times that is out of range stays at the nearest bound.
unfoldable pub saturate64 : ℤ → ℤ
saturate64 (pos n) = if ltb n half64 then pos n else pos max_int64
saturate64 (negsuc n) = if ltb n half64 then negsuc n else negsuc max_int64

pub int64-pos : (n : ℕ) → n < half64 → int64 (pos n) ≡ pos n
unfolding int64
int64-pos n h = ground arith

pub int64-negsuc : (n : ℕ) → n < half64 → int64 (negsuc n) ≡ negsuc n
unfolding int64
int64-negsuc n h = ground arith

-- Where nothing overflows the operations are those of the numbers.
pub add64-pos : (a b : ℕ) → a + b < half64 → add64 (pos a) (pos b) ≡ pos (a + b)
add64-pos a b h = ap int64 (+ℤ-pos a b) ∙ int64-pos (a + b) h

pub sub64-pos : (a b : ℕ) → b ≤ a → a < half64 → sub64 (pos a) (pos b) ≡ pos (a - b)
sub64-pos a b h k = ap int64 (-ℤ-pos a b h) ∙ int64-pos (a - b) (omega arith)

pub mul64-pos : (a b : ℕ) → a * b < half64 → mul64 (pos a) (pos b) ≡ pos (a * b)
mul64-pos a b h = ap int64 (*ℤ-pos a b) ∙ int64-pos (a * b) h

pub div64-pos : (a b : ℕ) → a < half64 → div64 (pos a) (pos b) ≡ pos (a / b)
unfolding quot
div64-pos a b h = int64-pos (a / b) (grind arith)
