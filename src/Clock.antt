-- ===== src/Clock.antt =====
-- Package `time` and the floating-point numbers of the source (app/partitions.go, app/config.go).
-- A `time.Time` is its nanoseconds since 1970, a `time.Duration` its nanoseconds. A `float64` is
-- an interface: the operations that the source uses, with what the proofs need of them.
use dynamiq.Prelude.{◌≡◌, Bool, true, String}
use dynamiq.Prelude.Int.{ℤ, pos, negsuc, ◌-ℤ◌, ◌≤ℤ◌}
use dynamiq.Prelude.Int64.{int64, saturate64}

abbrev pub Time : Type 0
Time = ℤ

abbrev pub Duration : Type 0
Duration = ℤ

-- The zero value of `time.Time`: the first of January of the year 1.
abbrev pub zero_time : Time
zero_time = negsuc 62135596799999999999

-- time.Second
abbrev pub second : Duration
second = pos 1000000000

-- `time.Since(t)` where the clock shows `now`
unfoldable pub since : Time → Time → Duration
since now t = saturate64 (now -ℤ t)

-- `t.UnixNano()`, which wraps around for a time far from 1970
unfoldable pub unix_nano : Time → ℤ
unix_nano t = int64 t

pub record Floats : Type 1 where
  pub Float : Type 0
  pub zero : Float
  -- a > b
  pub gt : Float → Float → Bool
  -- `d.Seconds()`
  pub seconds : Duration → Float
  -- `int(f)`
  pub to_int : Float → ℤ
  -- `float64(n)`, and arithmetic
  pub of_int : ℤ → Float
  pub div : Float → Float → Float
  pub mul : Float → Float → Float
  pub floor : Float → Float
  -- `strconv.ParseFloat(s, 32)` and `strconv.FormatFloat(f, 'f', -1, 64)`
  pub parse_float : String → Float × Bool
  pub format_float : Float → String
  -- A longer duration has no fewer seconds.
  pub gt-seconds_mono :
      (d e : Duration) (x : Float) → d ≤ℤ e → gt (seconds d) x ≡ true → gt (seconds e) x ≡ true
