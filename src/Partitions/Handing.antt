-- ===== src/Partitions/Handing.antt =====
-- `GetPartition` of app/partitions.go: where it returns no error, it returns a partition.
use dynamiq.Prelude.{◌≡◌, refl, Option, none, some, String, Bool-cases, inl, inr}
use dynamiq.Prelude.Int.{ℤ, ltb_ℤ}
use dynamiq.Prelude.Effects.{Outcome, ok, Outcome-cases, ◌>>=◌}
use dynamiq.Lane.{PQueue}
use dynamiq.Clock.{Time, Floats}
use dynamiq.Nodes.{Memberlist, get_node_partition_range}
use dynamiq.Partitions.{
  Partition, Settings, Partitions, Position, Handout, position_of, get_partition_position,
  grow_or_refuse, get_partition, idle_for, range_of, is_zero,
}

-- An error, or a partition.
abbrev HandsOver : Option String → Option Partition → Type 0
HandsOver none o = (w : Partition) × (o ≡ some w)
HandsOver (some _) o = Unit {0}

abbrev PositionHandsOver : Outcome Position → Type 0
PositionHandsOver (ok p) = HandsOver p.err p.working
PositionHandsOver _ = Unit {0}

abbrev pub HandoutHandsOver : Outcome Handout → Type 0
HandoutHandsOver (ok h) = HandsOver h.err h.partition
HandoutHandsOver _ = Unit {0}

module _ (lane : PQueue Partition) (fl : Floats) (settings : Settings fl) where
  grow_or_refuse-HandsOver :
      (w : Partition) (part : Partitions lane)
      → PositionHandsOver (grow_or_refuse lane fl settings w part).0
  unfolding grow_or_refuse
  grow_or_refuse-HandsOver w part = elim (Bool-cases part.locked) [
    | inl e ↦ rw e tt
    | inr e ↦ rw e (elim (Bool-cases (ltb_ℤ part.partition_count settings.min_partitions)) [
      | inl less ↦ rw less (_, refl)
      | inr full ↦ rw full tt
    ])
  ]

  position_of-HandsOver :
      (now : Time) (o : Option Partition) (part : Partitions lane)
      → PositionHandsOver (position_of lane fl settings now o part).0
  unfolding position_of
  position_of-HandsOver now none part = tt
  position_of-HandsOver now (some w) part =
      elim (Bool-cases (idle_for lane fl settings now w settings.visibility_timeout)) [
        | inl e ↦ rw e (w, refl)
        | inr e ↦ rw e (grow_or_refuse-HandsOver w part)
      ]

  range_of-HandsOver :
      (bottom top : ℤ) (p : Position)
      → HandsOver p.err p.working
      → HandoutHandsOver (range_of lane fl settings bottom top p)
  unfolding range_of
  range_of-HandsOver bottom top p h = elim (Bool-cases (is_zero p.total_partitions)) [
    | inl e ↦ rw e tt
    | inr e ↦ rw e h
  ]

  pub get_partition-HandsOver :
      (list : Memberlist) (now : Time) (part : Partitions lane)
      → HandoutHandsOver (get_partition lane fl settings list now part).0
  unfolding get_partition get_partition_position
  get_partition-HandsOver list now part = elim (Outcome-cases (get_node_partition_range list)) [
    | inl (range, e) ↦ rw e (placed range)
    | inr (inl e) ↦ rw e tt
    | inr (inr (inl e)) ↦ rw e tt
    | inr (inr (inr e)) ↦ rw e tt
  ]
    where
      placed :
          (range : ℤ × ℤ)
          → HandoutHandsOver
              ((get_partition_position lane fl settings now >>= λ p part'.
                  (range_of lane fl settings range.0 range.1 p, part'))
                part).0
      placed range =
          let r = (get_partition_position lane fl settings now part).0 in
          let over : PositionHandsOver r =
            position_of-HandsOver now (lane.pop part.partitions).0 _ in
          elim (Outcome-cases r) [
            | inl (p, e) ↦ rw e (range_of-HandsOver range.0 range.1 p (rw e at over))
            | inr (inl e) ↦ rw e tt
            | inr (inr (inl e)) ↦ rw e tt
            | inr (inr (inr e)) ↦ rw e tt
          ]
