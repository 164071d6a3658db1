-- ===== src/Partitions/Free.antt =====
-- The mutex of a queue's partitions between two calls (app/partitions.go): `GetPartition` and
-- `PushPartition` leave a free one free.
use dynamiq.Prelude.{
  ℕ, ◌==◌, arith, Bool, ◌≡◌, refl, ◌⊎◌, [], Option, none, some, true, false, Bool-cases, inl, inr,
}
use dynamiq.Prelude.Int.{ℤ, ltb_ℤ}
use dynamiq.Prelude.Effects.{Outcome, ok, Outcome-cases, Stuck}
use dynamiq.Lane.{PQueue}
use dynamiq.Clock.{Time, Floats}
use dynamiq.Nodes.{Memberlist, get_node_partition_range, range_at}
use dynamiq.Partitions.{
  Partition, Settings, Partitions, Position, Handout, position_of, get_partition_position,
  grow_or_refuse, get_partition, idle_for, range_of, push_partition, is_zero, no_partitions,
}

-- A mutex that is held has no partition that waits behind it.
abbrev pub IsFree : (lane : PQueue Partition) → Partitions lane → Type 0
IsFree lane part = (part.locked ≡ false) ⊎ (lane.contents part.partitions ≡ [])

-- The range of a node is returned, or there is a panic.
range_at-Stuck : (position count : ℕ) → Stuck (range_at position count) → ⊥
unfolding range_at
range_at-Stuck position count waits = elim (Bool-cases (count == 0)) [
  | inl e ↦ rw e at waits
  | inr e ↦ rw e at waits
]

pub get_node_partition_range-Stuck : (list : Memberlist) → Stuck (get_node_partition_range list) → ⊥
unfolding get_node_partition_range
get_node_partition_range-Stuck list waits = range_at-Stuck _ _ waits

-- A run that has ended with a free mutex.
abbrev pub Freed : (lane : PQueue Partition) {A : Type 0} → Outcome A × Partitions lane → Type 0
Freed lane (r, part) = (part.locked ≡ false) × (Stuck r → ⊥)

module _ (lane : PQueue Partition) (fl : Floats) (settings : Settings fl) where
  grow_or_refuse-Freed :
      (w : Partition) (part : Partitions lane)
      → part.locked ≡ false
      → Freed lane (grow_or_refuse lane fl settings w part)
  unfolding grow_or_refuse
  grow_or_refuse-Freed w part free =
      rw free (elim (Bool-cases (ltb_ℤ part.partition_count settings.min_partitions)) [
        | inl less ↦ rw less (refl, λ waits. waits)
        | inr full ↦ rw full (refl, λ waits. waits)
      ])

  position_of-Freed :
      (now : Time) (o : Option Partition) (part : Partitions lane)
      → part.locked ≡ false
      → Freed lane (position_of lane fl settings now o part)
  unfolding position_of
  position_of-Freed now none part free = (free, λ waits. waits)
  position_of-Freed now (some w) part free =
      elim (Bool-cases (idle_for lane fl settings now w settings.visibility_timeout)) [
        | inl e ↦ rw e (free, λ waits. waits)
        | inr e ↦ rw e (grow_or_refuse-Freed w part free)
      ]

  range_of-Stuck :
      (bottom top : ℤ) (p : Position) → Stuck (range_of lane fl settings bottom top p) → ⊥
  unfolding range_of
  range_of-Stuck bottom top p waits = elim (Bool-cases (is_zero p.total_partitions)) [
    | inl e ↦ rw e at waits
    | inr e ↦ rw e at waits
  ]

  pub get_partition-Freed :
      (list : Memberlist) (now : Time) (part : Partitions lane)
      → part.locked ≡ false
      → Freed lane (get_partition lane fl settings list now part)
  unfolding get_partition
  get_partition-Freed list now part free =
      let placed : Freed lane (get_partition_position lane fl settings now part) =
        unfold get_partition_position in position_of-Freed now _ _ free in
      elim (Outcome-cases (get_node_partition_range list)) [
        | inr (inl e) ↦ rw e (free, λ waits. waits)
        | inr (inr (inl e)) ↦ absurd (get_node_partition_range-Stuck list (rw e tt))
        | inr (inr (inr e)) ↦ absurd (get_node_partition_range-Stuck list (rw e tt))
        | inl (range, e) ↦
            rw e (elim (Outcome-cases (get_partition_position lane fl settings now part).0) [
              | inl (p, f) ↦ rw f (placed.0, range_of-Stuck range.0 range.1 p)
              | inr (inl f) ↦ rw f (placed.0, λ waits. waits)
              | inr (inr (inl f)) ↦ absurd (placed.1 (rw f tt))
              | inr (inr (inr f)) ↦ absurd (placed.1 (rw f tt))
            ])
      ]

  pub push_partition-Freed :
      (now : Time) (w : Partition) (used : Bool) (part : Partitions lane)
      → part.locked ≡ false
      → Freed lane (push_partition lane fl settings now w used part)
  unfolding push_partition
  push_partition-Freed now w true part free = (free, λ waits. waits)
  push_partition-Freed now w false part free = (free, λ waits. waits)

  -- Where nothing waits, nothing is handed out, and nothing waits after.
  pub record GivesNone (r : Outcome Handout × Partitions lane) : Type 0 where
    pub empty : lane.contents r.1.partitions ≡ []
    pub runs : Stuck r.0 → ⊥
    pub refused : (handout : Handout) → r.0 ≡ ok handout → handout.err ≡ some no_partitions

  range_of-refused :
      (bottom top : ℤ) (p : Position) (handout : Handout)
      → p.err ≡ some no_partitions
      → range_of lane fl settings bottom top p ≡ ok handout
      → handout.err ≡ some no_partitions
  unfolding range_of
  range_of-refused bottom top p handout refused e = ground (arith, refused, e)

  pub get_partition-GivesNone :
      (list : Memberlist) (now : Time) (part : Partitions lane)
      → lane.contents part.partitions ≡ []
      → GivesNone (get_partition lane fl settings list now part)
  unfolding get_partition get_partition_position position_of
  get_partition-GivesNone list now part empty =
      let (returned, left) = lane.pop_empty part.partitions empty in
      elim (Outcome-cases (get_node_partition_range list)) [
        | inr (inl e) ↦
            rw e (record { empty = empty; runs = λ waits. waits; refused = λ handout h. cc })
        | inr (inr (inl e)) ↦ absurd (get_node_partition_range-Stuck list (rw e tt))
        | inr (inr (inr e)) ↦ absurd (get_node_partition_range-Stuck list (rw e tt))
        | inl (range, e) ↦
            rw (e, returned)
              (record {
                empty = left;
                runs = range_of-Stuck range.0 range.1 _;
                refused = λ handout. range_of-refused range.0 range.1 _ handout refl;
              })
      ]
