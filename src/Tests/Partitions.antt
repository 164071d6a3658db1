-- ===== src/Tests/Partitions.antt =====
-- Runs of the code of app/partitions.go.
use dynamiq.Nodes.{get_node_partition_range}
use dynamiq.Nodes.Sorting.{sort_strings}
use dynamiq.Lane.ListQueue.{pop_list}
use dynamiq.Prelude.Int64.{int64, saturate64}
use dynamiq.Prelude.Text.{str_ltb}
use dynamiq.Prelude.{ℕ, ◌+◌, ◌≡◌, refl, [], ◌++◌, All, Perm, true, false, arith, ◌<◌, ◌≤◌, ◌%◌}
use dynamiq.Prelude.Int.{pos, ◌≤ℤ◌, ltb_ℤ}
use dynamiq.Prelude.Effects.{ok, out_of_fuel}
use dynamiq.Partitions.{
  Partitions, init_partitions, no_partitions_yet, get_partition_position, get_partition,
  sync_partitions,
}
use dynamiq.Partitions.Whole.{ids}
use dynamiq.Partitions.Exclusive.{Node, Reach, Step, new_node, after_get, handouts_exclusive}
use dynamiq.Partitions.Timeout.{IsStamped, AllStamped, Answers}
use dynamiq.Partitions.Timely.{get_partition_position-timely}
use dynamiq.Prelude.Int.{ℤ, pos}
use dynamiq.Partitions.Range.{
  Serves, range_call, partition_ranges_apart, partition_ranges_cover, last_range_ends_short,
}
use dynamiq.Partitions.Sync.{IsSynced, sync_partitions-IsSynced, sync_partitions_diverges}
use dynamiq.Tests.World.{floats, lane, two_partitions, draw, node_a, noon, waiting}
use mathlib.Core.List.{Nodup}
use mathlib.Core.List.Perm

abbrev start : Node lane floats
start = new_node lane floats two_partitions draw

abbrev one_out : Node lane floats
one_out = after_get lane floats two_partitions node_a (pos noon) start

abbrev two_out : Node lane floats
two_out = after_get lane floats two_partitions node_a (pos noon) one_out

two_out-Reach : Reach lane floats start two_out
two_out-Reach =
    Reach.next (Reach.next Reach.here (Step.get two_partitions node_a (pos noon) (omega arith)))
      (Step.get two_partitions node_a (pos noon) (omega arith))

handouts_exclusive_example :
    Nodup (ids two_out.part.partitions ++ two_out.out)
    × All (λ i. (pos 0 ≤ℤ i) × (ltb_ℤ i two_out.part.partition_count ≡ true)) two_out.out
handouts_exclusive_example =
    handouts_exclusive lane floats two_partitions draw 2 refl (omega arith) two_out two_out-Reach

-- All priorities are drawn alike.
abbrev drawn_alike : ℤ → ℤ
drawn_alike i = pos 5

abbrev fresh : Node lane floats
fresh = new_node lane floats two_partitions drawn_alike

abbrev served : Node lane floats
served = after_get lane floats two_partitions node_a (pos noon) fresh

get_partition_position-timely_example :
    (all : AllStamped lane floats two_partitions served.part) × Answers lane floats two_partitions
      served.part all noon
      (omega arith)
      (get_partition_position lane floats two_partitions (pos noon) served.part).0
unfolding get_partition get_node_partition_range sort_strings str_ltb get_partition_position
    pop_list init_partitions no_partitions_yet dynamiq.Prelude.Int.◌-ℤ◌ int64
    dynamiq.Prelude.Int.◌+ℤ◌ saturate64
get_partition_position-timely_example =
    get_partition_position-timely lane floats two_partitions drawn_alike served
      (Reach.next Reach.here (Step.get two_partitions node_a (pos noon) (omega arith)))
      two_partitions noon (omega arith) (λ i. refl) (tt, tt) refl

waiting-AllStamped : AllStamped lane floats two_partitions waiting
waiting-AllStamped = (IsStamped.used 1706090340000000000 refl refl (omega arith) (omega arith), tt)

partition_ranges_apart_example :
    (b t b' t' : ℕ) × Serves lane floats two_partitions
      (range_call lane floats two_partitions 0 100 3 0)
      b
      t
    × Serves lane floats two_partitions (range_call lane floats two_partitions 0 100 3 2) b' t'
    × (0 ≤ b)
    × (b ≤ t)
    × (t ≤ b')
    × (b' ≤ t')
    × (t' ≤ 100)
partition_ranges_apart_example =
    partition_ranges_apart lane floats two_partitions 0 100 3 (omega arith) (omega arith)
      (omega arith) 0 2 (omega arith) (omega arith)

partition_ranges_cover_example :
    (i b t : ℕ) × (i < 3)
    × Serves lane floats two_partitions (range_call lane floats two_partitions 0 100 3 i) b t
    × (b ≤ 98)
    × (98 < t)
partition_ranges_cover_example =
    partition_ranges_cover lane floats two_partitions 0 100 3 (omega arith) (omega arith)
      (omega arith) 98 (omega arith) (omega arith)

last_range_ends_short_example :
    (b t : ℕ) × Serves lane floats two_partitions
      (range_call lane floats two_partitions 0 100 3 2)
      b
      t
    × (t + 100 % 3 ≡ 100)
last_range_ends_short_example =
    last_range_ends_short lane floats two_partitions 0 100 3 (omega arith) (omega arith)
      (omega arith) (omega arith)

-- The configured number of partitions is raised from 1 to 2.
sync_partitions-IsSynced_example :
    let (r, part) = sync_partitions lane floats two_partitions 1 (pos noon) draw waiting in
    (r ≡ ok tt) × IsSynced lane floats two_partitions 2 refl (omega arith) part []
sync_partitions-IsSynced_example =
    sync_partitions-IsSynced lane floats two_partitions 2 refl (omega arith) 0 (pos noon) draw
      waiting [] 1 (record { size = 1; counted = refl; fits = omega arith; whole = Perm.refl _ })
      refl refl (omega arith)

abbrev three_waiting : Partitions lane
three_waiting = record waiting { partition_count = pos 3 }

sync_partitions_diverges_example :
    (sync_partitions lane floats two_partitions 1000 (pos noon) draw three_waiting).0 ≡ out_of_fuel
sync_partitions_diverges_example =
    sync_partitions_diverges lane floats two_partitions 1000 (pos noon) draw three_waiting refl refl
