-- ===== src/Partitions.antt =====
-- The partitions of one queue on one node (app/partitions.go). A partition that is not handed out
-- waits in the priority queue, under the time of its last use. `Partitions` is the object with
-- its mutex; each method is an action on it. The settings are what the getters of app/config.go
-- answer during the call, and `now` is the reading of the clock.
pub mod Whole
pub mod Handing
pub mod Growth
pub mod Sync
pub mod Free
pub mod Exclusive
pub mod Range
pub mod Timeout
pub mod Stamps
pub mod Aging
pub mod Timely
use dynamiq.Prelude.{
  ℕ, zero, suc, Bool, true, false, not, ◌&&◌, Option, none, some, String, if◌then◌else◌,
}
use dynamiq.Prelude.Int.{ℤ, pos, negsuc, ◌+ℤ◌, ◌-ℤ◌, ltb_ℤ, pos_part}
use dynamiq.Prelude.Int64.{add64, sub64, mul64, div64}
use dynamiq.Prelude.Effects.{
  Outcome, ok, panic, blocked, out_of_fuel, Action, returns, panics, gets, modify, when, continue,
  ◌>>=◌, ◌>>◌,
}
use dynamiq.Lane.{PQueue}
use dynamiq.Clock.{Time, zero_time, second, since, unix_nano, Floats}
use dynamiq.Nodes.{Memberlist, get_node_partition_range}

abbrev pub no_partitions : String
no_partitions = "no available partitions"

pub record Partition : Type 0 where
  pub id : ℤ
  pub last_used : Time

-- The settings of a queue that its partitions depend on.
pub record Settings (fl : Floats) : Type 0 where
  pub min_partitions : ℤ
  pub visibility_timeout : fl.Float
  pub max_partition_age : fl.Float

pub record Partitions (lane : PQueue Partition) : Type 0 where
  pub partitions : lane.Queue
  pub partition_count : ℤ
  pub locked : Bool

-- What `getPartitionPosition` returns.
pub record Position : Type 0 where
  pub my_partition : ℤ
  pub working : Option Partition
  pub total_partitions : ℤ
  pub err : Option String

-- What `GetPartition` returns.
pub record Handout : Type 0 where
  pub bottom : ℤ
  pub top : ℤ
  pub partition : Option Partition
  pub err : Option String

module _ (lane : PQueue Partition) where
  -- `part.Lock()`: who finds the mutex held waits until it is released.
  unfoldable pub lock : Action (Partitions lane) (Unit {0})
  lock part = if part.locked then (blocked, part) else (ok tt, record part { locked = true })

  unfoldable pub unlock : Action (Partitions lane) (Unit {0})
  unlock part = (ok tt, record part { locked = false })

  unfoldable pub pop : Action (Partitions lane) (Option Partition)
  pop part =
      let (popped, rest) = lane.pop part.partitions in
      (ok popped, record part { partitions = rest })

  -- Pushes a partition under a priority.
  unfoldable pub push : Partition → ℤ → Action (Partitions lane) (Unit {0})
  push partition priority part =
      (ok tt, record part { partitions = lane.push part.partitions partition priority })

  unfoldable pub set_count : (ℤ → ℤ) → Action (Partitions lane) (Unit {0})
  set_count f part = (ok tt, record part { partition_count = f part.partition_count })

  -- The object as `InitPartitions` makes it, before it adds partitions.
  unfoldable pub no_partitions_yet : Partitions lane
  no_partitions_yet = record { partitions = lane.new; partition_count = pos 0; locked = false }

  unfoldable pub partition_count : Partitions lane → ℤ
  partition_count part = part.partition_count

unfoldable pub is_zero : ℤ → Bool
is_zero (pos zero) = true
is_zero _ = false

module _ (lane : PQueue Partition) (fl : Floats) (settings : Settings fl) where
  open settings use {min_partitions, visibility_timeout, max_partition_age}

  -- One round of the loop of `makePartitions`; `random` draws the priority.
  unfoldable pub make_partition : (ℤ → ℤ) → ℤ → Partitions lane → Partitions lane
  make_partition random partition_id part =
      if ltb_ℤ partition_id min_partitions
      then record {
        partitions =
            lane.push part.partitions (record { id = partition_id; last_used = zero_time })
              (random partition_id);
        partition_count = add64 part.partition_count (pos 1);
        locked = part.locked;
      }
      else part

  -- The rounds of the loop that are left, and the identifier of the next one.
  unfoldable pub make_rounds : (ℤ → ℤ) → ℕ → ℤ → Partitions lane → Partitions lane
  unfolding make_partition
  make_rounds random zero partition_id part = part
  make_rounds random (suc rounds) partition_id part =
      make_rounds random rounds (add64 partition_id (pos 1))
        (make_partition random partition_id part)

  unfoldable pub make_partitions : (ℤ → ℤ) → ℤ → Action (Partitions lane) (Unit {0})
  unfolding make_rounds
  make_partitions random partitions_to_make part =
      let offset = part.partition_count in
      let rounds = pos_part (add64 offset partitions_to_make -ℤ offset) in
      (ok tt, make_rounds random rounds offset part)

  -- `InitPartitions`, on the object that it makes.
  unfoldable pub init_partitions : (ℤ → ℤ) → Action (Partitions lane) (Unit {0})
  unfolding lock unlock make_partitions
  init_partitions random = do lock lane; make_partitions random min_partitions; unlock lane

  -- `time.Since(p.LastUsed).Seconds() > limit`
  unfoldable pub idle_for : Time → Partition → fl.Float → Bool
  unfolding since
  idle_for now partition limit = fl.gt (fl.seconds (since now partition.last_used)) limit

  -- A new partition, for the caller; the mutex is held.
  unfoldable pub add_partition : ℤ → Action (Partitions lane) Position
  unfolding unlock set_count
  add_partition count = do
    set_count lane (λ n. add64 n (pos 1))
    total ← gets (λ part. part.partition_count)
    unlock lane
    returns (record {
      my_partition = count;
      working = some (record { id = count; last_used = zero_time });
      total_partitions = total;
      err = none;
    })

  unfoldable pub refuse : Partition → ℤ → Action (Partitions lane) Position
  unfolding unlock
  refuse working_partition count = do
    unlock lane
    returns (record {
      my_partition = negsuc 0;
      working = some working_partition;
      total_partitions = count;
      err = some no_partitions;
    })

  -- The else branch of `getPartitionPosition`: the least recently used partition is still in use.
  unfoldable pub grow_or_refuse : Partition → Action (Partitions lane) Position
  unfolding lock push unix_nano add_partition refuse
  grow_or_refuse working_partition = do
    push lane working_partition (unix_nano working_partition.last_used)
    lock lane
    count ← gets (λ part. part.partition_count)
    if ltb_ℤ count min_partitions then add_partition count else refuse working_partition count

  -- What follows the pop.
  unfoldable pub position_of : Time → Option Partition → Action (Partitions lane) Position
  unfolding grow_or_refuse idle_for
  position_of now none = do
    count ← gets (λ part. part.partition_count)
    returns (record {
      my_partition = negsuc 0;
      working = none;
      total_partitions = count;
      err = some no_partitions;
    })
  position_of now (some working_partition) =
      if idle_for now working_partition visibility_timeout
      then (do
        count ← gets (λ part. part.partition_count)
        returns (record {
          my_partition = working_partition.id;
          working = some working_partition;
          total_partitions = count;
          err = none;
        }))
      else grow_or_refuse working_partition

  unfoldable pub get_partition_position : Time → Action (Partitions lane) Position
  unfolding pop position_of
  get_partition_position now = do popped_partition ← pop lane; position_of now popped_partition

  -- The key range of a position. A division by no partitions panics.
  unfoldable pub range_of : ℤ → ℤ → Position → Outcome Handout
  unfolding is_zero
  range_of node_bottom node_top p =
      let node_range = sub64 node_top node_bottom in
      let node_step = div64 node_range p.total_partitions in
      if is_zero p.total_partitions
      then panic
      else ok (record {
        bottom = add64 (mul64 node_step p.my_partition) node_bottom;
        top = add64 (mul64 node_step (add64 p.my_partition (pos 1))) node_bottom;
        partition = p.working;
        err = p.err;
      })

  unfoldable pub get_partition : Memberlist → Time → Action (Partitions lane) Handout
  get_partition list now = do
    (node_bottom, node_top) ← (λ part. (get_node_partition_range list, part))
    position ← get_partition_position now
    λ part. (range_of node_bottom node_top position, part)

  unfoldable pub push_partition : Time → Partition → Bool → Action (Partitions lane) (Unit {0})
  unfolding push unix_nano
  push_partition now partition true =
      push lane (record partition { last_used = now }) (unix_nano now)
  push_partition now partition false =
      let unlock_time = fl.to_int visibility_timeout in
      let last_used = now +ℤ sub64 (pos 0) (mul64 unlock_time second) in
      push lane (record partition { last_used = last_used }) (unix_nano last_used)

  -- `for partsRemoved = 0; MinPartitions < part.partitionCount; partsRemoved++ { Pop() }`
  unfoldable pub discard_surplus : ℕ → ℤ → Action (Partitions lane) ℤ
  unfolding pop
  discard_surplus zero parts_removed part = (out_of_fuel, part)
  discard_surplus (suc fuel) parts_removed part =
      let rest = discard_surplus fuel (add64 parts_removed (pos 1)) (pop lane part).1 in
      if ltb_ℤ min_partitions part.partition_count then rest else (ok parts_removed, part)

  abbrev or_working : Partition → Option Partition → Partition
  or_working working_partition none = working_partition
  or_working working_partition (some popped) = popped

  -- The aging loop: the partition that it holds at its end.
  unfoldable pub age_partitions : ℕ → Time → Partition → Action (Partitions lane) Partition
  unfolding pop idle_for
  age_partitions zero now working_partition part = (out_of_fuel, part)
  age_partitions (suc fuel) now working_partition part =
      let (popped, rest) = lane.pop part.partitions in
      let smaller = record part {
        partitions = rest;
        partition_count = sub64 part.partition_count (pos 1);
      } in
      let next = age_partitions fuel now (or_working working_partition popped) smaller in
      if idle_for now working_partition max_partition_age
        && not (ltb_ℤ part.partition_count min_partitions)
      then next
      else (ok working_partition, part)

  -- From the pop of the aging logic on. An empty queue returns with the mutex held.
  unfoldable pub age_from : ℕ → Time → Option Partition → Action (Partitions lane) (Unit {0})
  unfolding age_partitions set_count push unlock unix_nano
  age_from fuel now none = returns tt
  age_from fuel now (some working_partition) = do
    set_count lane (λ n. sub64 n (pos 1))
    kept ← age_partitions fuel now working_partition
    push lane kept (unix_nano kept.last_used)
    set_count lane (λ n. add64 n (pos 1))
    unlock lane

  -- Makes the partitions that are missing.
  unfoldable pub top_up : (ℤ → ℤ) → Action (Partitions lane) (Unit {0})
  unfolding make_partitions
  top_up random = do
    count ← gets (λ part. part.partition_count)
    when (ltb_ℤ count min_partitions) (make_partitions random (sub64 min_partitions count))

  unfoldable pub sync_partitions : ℕ → Time → (ℤ → ℤ) → Action (Partitions lane) (Unit {0})
  unfolding lock set_count
  sync_partitions fuel now random = do
    lock lane
    parts_removed ← discard_surplus fuel (pos 0)
    set_count lane (λ n. sub64 n parts_removed)
    top_up random
    popped_partition ← pop lane
    age_from fuel now popped_partition
