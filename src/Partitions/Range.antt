-- ===== src/Partitions/Range.antt =====
-- The key ranges that `GetPartition` computes for the partitions of a node (app/partitions.go).
use dynamiq.Prelude.{
  ℕ, zero, suc, ◌+◌, ◌-◌, ◌*◌, ◌/◌, ◌%◌, ◌≤◌, ◌<◌, ◌≡◌, arith, Option, String, none,
}
use dynamiq.Prelude.Int.{pos}
use dynamiq.Prelude.Int64.{half64, add64-pos, sub64-pos, mul64-pos, div64-pos}
use dynamiq.Prelude.Effects.{Outcome, ok}
use dynamiq.Lane.{PQueue}
use dynamiq.Clock.{Floats}
use dynamiq.Partitions.{Partition, Settings, Handout, range_of}
use native.Mathlib.Nat.{div-add-mod, mod-lt}

-- The first key of partition `i` of `total`, of the keys from `low` to `high`.
abbrev pub partition_key : ℕ → ℕ → ℕ → ℕ → ℕ
partition_key low high total i = (high - low) / total * i + low

step-le : (d k i : ℕ) → i ≤ k → d / k * i ≤ d
step-le d k i h = grind arith

pub partition_key-le :
    (low high total i : ℕ) → low ≤ high → i ≤ total → partition_key low high total i ≤ high
partition_key-le low high k i h l = omega (arith, step-le (high - low) k i l)

pub partition_key_mono :
    (low high total i j : ℕ)
    → i ≤ j
    → partition_key low high total i ≤ partition_key low high total j
partition_key_mono low high k i j h = grind arith

div-bounds : (y k s : ℕ) → y < k * s → (y / s < k) × (s * (y / s) ≤ y) × (y < s * (y / s + 1))
div-bounds y k zero h = absurd (omega arith)
div-bounds y k (suc s) h = (
  grind arith,
  omega (arith, div-add-mod y (suc s)),
  omega (arith, div-add-mod y (suc s), mod-lt y {m = suc s} (omega arith)),
)

-- The division of a range of keys leaves fewer keys than there are partitions.
steps-add-mod : (d k : ℕ) → k * (d / k) + d % k ≡ d
steps-add-mod d k = div-add-mod d k

module _ (lane : PQueue Partition) (fl : Floats) (settings : Settings fl) where
  -- For a partition below the total the arithmetic is that of the natural numbers: the range starts
  -- at the partition's first key and ends at the first key of the next one.
  pub range_of_lem :
      (low high total i : ℕ) (w : Option Partition) (e : Option String)
      → low ≤ high
      → high < half64
      → i < total
      → total < half64
      → range_of lane fl settings
          (pos low)
          (pos high)
          (record { my_partition = pos i; working = w; total_partitions = pos total; err = e })
        ≡ ok (record {
          bottom = pos (partition_key low high total i);
          top = pos (partition_key low high total (i + 1));
          partition = w;
          err = e;
        })
  unfolding range_of
  range_of_lem low high zero i w e h fits less total_fits = absurd (omega arith)
  range_of_lem low high (suc k) i w e h fits less total_fits =
      let s = (high - low) / suc k in
      let lo = step-le (high - low) (suc k) i (omega arith) in
      let hi = step-le (high - low) (suc k) (i + 1) (omega arith) in
      rw (
        sub64-pos high low h fits,
        div64-pos (high - low) (suc k) (omega arith),
        mul64-pos s i (omega arith),
        add64-pos (s * i) low (omega arith),
        add64-pos i 1 (omega arith),
        mul64-pos s (i + 1) (omega arith),
        add64-pos (s * (i + 1)) low (omega arith),
      )

  -- The call for partition `i` of `total`, of a node with the keys from `low` to `high`.
  abbrev pub range_call : ℕ → ℕ → ℕ → ℕ → Outcome Handout
  range_call low high total i =
      range_of lane fl settings (pos low) (pos high)
        (record { my_partition = pos i; working = none; total_partitions = pos total; err = none })

  -- The range that a call computes, from the first key up to the first key of the next partition.
  abbrev pub Serves : Outcome Handout → ℕ → ℕ → Type 0
  Serves r b t = r ≡ ok (record { bottom = pos b; top = pos t; partition = none; err = none })

  module _ (low high total : ℕ) (proper : low ≤ high) (fits : high < half64)
      (total_fits : total < half64) where
    -- For a node's range with ends in order and below 2^63, and fewer than 2^63 partitions, two
    -- different ones of these have ranges within the node's range, with at most an end in common,
    -- and nothing overflows.
    pub partition_ranges_apart :
        (i j : ℕ)
        → i < j
        → j < total
        → (b t b' t' : ℕ) × Serves (range_call low high total i) b t
          × Serves (range_call low high total j) b' t'
          × (low ≤ b)
          × (b ≤ t)
          × (t ≤ b')
          × (b' ≤ t')
          × (t' ≤ high)
    partition_ranges_apart i j less below = (
      partition_key low high total i,
      partition_key low high total (i + 1),
      partition_key low high total j,
      partition_key low high total (j + 1),
      range_of_lem low high total i none none proper fits (omega arith) total_fits,
      range_of_lem low high total j none none proper fits below total_fits,
      omega arith,
      partition_key_mono low high total i (i + 1) (omega arith),
      partition_key_mono low high total (i + 1) j (omega arith),
      partition_key_mono low high total j (j + 1) (omega arith),
      partition_key-le low high total (j + 1) proper (omega arith),
    )

    -- For a node's range with ends in order and below 2^63, and fewer than 2^63 partitions, every
    -- key of the node's range but its last ones, fewer than there are partitions, is in the range
    -- of some partition.
    pub partition_ranges_cover :
        (x : ℕ)
        → low ≤ x
        → x + (high - low) % total < high
        → (i b t : ℕ) × (i < total) × Serves (range_call low high total i) b t × (b ≤ x) × (x < t)
    partition_ranges_cover x above below =
        let step = (high - low) / total in
        let i = (x - low) / step in
        let within : x - low < total * step = omega (arith, steps-add-mod (high - low) total) in
        let (less, from, upto) = div-bounds (x - low) total step within in
        (
          i,
          partition_key low high total i,
          partition_key low high total (i + 1),
          less,
          range_of_lem low high total i none none proper fits less total_fits,
          omega (arith, from),
          omega (arith, upto),
        )

    -- For a node's range with ends in order and below 2^63, and at least one but fewer than 2^63
    -- partitions, the range of the last partition ends short of the node's range by the remainder
    -- of the division.
    pub last_range_ends_short :
        0 < total
        → (b t : ℕ) × Serves (range_call low high total (total - 1)) b t
          × (t + (high - low) % total ≡ high)
    last_range_ends_short some-partition =
        let last : total - 1 + 1 ≡ total = omega arith in
        (
          partition_key low high total (total - 1),
          partition_key low high total (total - 1 + 1),
          range_of_lem low high total (total - 1) none none proper fits (omega arith) total_fits,
          rw last (omega (arith, steps-add-mod (high - low) total)),
        )
