-- ===== src/Nodes/Range.antt =====
-- The arithmetic of `GetNodePartitionRange` (app/partitions.go).
use dynamiq.Prelude.{ℕ, ◌+◌, ◌*◌, ◌/◌, ◌≤◌, ◌<◌, ◌≡◌, arith, ◌==◌, false}
use dynamiq.Prelude.Int.{pos}
use dynamiq.Prelude.Int64.{half64, max_int64, add64-pos, mul64-pos, div64-pos}
use dynamiq.Prelude.Effects.{ok}
use dynamiq.Nodes.{range_at}

-- The first key of the part at a position, where the key space is split among `node_count` nodes.
abbrev pub node_key : ℕ → ℕ → ℕ
node_key node_count position = position * (max_int64 / node_count)

pub node_key-le :
    (node_count position : ℕ) → position ≤ node_count → node_key node_count position ≤ max_int64
node_key-le n p h = grind arith

pub node_key_mono : (node_count p q : ℕ) → p ≤ q → node_key node_count p ≤ node_key node_count q
node_key_mono n p q h = grind arith

pub range_at_lem :
    (position node_count : ℕ)
    → position < node_count
    → node_count < half64
    → range_at position node_count
      ≡ ok (pos (node_key node_count position), pos (node_key node_count (position + 1)))
unfolding range_at
range_at_lem p n less fits =
    let some-nodes : (n == 0) ≡ false = ground arith in
    let low = node_key-le n p (omega arith) in
    let high = node_key-le n (p + 1) (omega arith) in
    rw (
      some-nodes,
      div64-pos max_int64 n (omega arith),
      mul64-pos p (max_int64 / n) (omega arith),
      add64-pos p 1 (omega arith),
      mul64-pos (p + 1) (max_int64 / n) (omega arith),
    )
