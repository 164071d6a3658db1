-- ===== src/Partitions/Aging.antt =====
-- The times under which partitions wait (app/partitions.go), over `InitPartitions` and
-- `syncPartitions`.
use dynamiq.Prelude.{
  ℕ, zero, suc, ◌≡◌, refl, subst, inl, inr, true, false, not, ◌&&◌, Option, none, some, Bool-cases,
}
use dynamiq.Prelude.Int.{ℤ, pos, ltb_ℤ, pos_part, ◌-ℤ◌}
use dynamiq.Prelude.Int64.{add64, sub64}
use dynamiq.Prelude.Effects.{ok-injective, ok, Outcome, Outcome-cases, ◌>>=◌}
use dynamiq.Lane.{PQueue}
use dynamiq.Clock.{Floats, Time, zero_time}
use dynamiq.Partitions.{
  Partition, Settings, Partitions, idle_for, sync_partitions, discard_surplus, top_up, age_from,
  age_partitions, pop, or_working, make_partition, make_rounds, make_partitions, init_partitions,
  no_partitions_yet,
}
use dynamiq.Partitions.Stamps.{
  stamped_at, IsTimed, QueueIsStamped-push, QueueIsStamped-pop, Stamped,
}
use mathlib.Core.List.{not-mem-nil}

module _ (lane : PQueue Partition) (fl : Floats) (settings : Settings fl) where
  module _ (random : ℤ → ℤ) (small : (i : ℤ) → ltb_ℤ (pos 99999) (random i) ≡ false) where
    make_partition-Stamped :
        (i : ℤ) (part : Partitions lane)
        → Stamped lane fl settings part
        → Stamped lane fl settings (make_partition lane fl settings random i part)
    unfolding make_partition
    make_partition-Stamped i part h = elim (Bool-cases (ltb_ℤ i settings.min_partitions)) [
      | inr e ↦ rw e h
      | inl e ↦ rw e (
          QueueIsStamped-push lane part.partitions (record { id = i; last_used = zero_time })
            (random i) h (fresh i))
    ]
      where
        fresh : (i : ℤ) → stamped_at zero_time (random i) ≡ true
        fresh i = unfold stamped_at in rw (small i) refl

    make_rounds-Stamped :
        (rounds : ℕ) (i : ℤ) (part : Partitions lane)
        → Stamped lane fl settings part
        → Stamped lane fl settings (make_rounds lane fl settings random rounds i part)
    unfolding make_rounds
    make_rounds-Stamped zero i part h = h
    make_rounds-Stamped (suc rounds) i part h =
        make_rounds-Stamped rounds _ _ (make_partition-Stamped i part h)

    make_partitions-Stamped :
        (n : ℤ) (part : Partitions lane)
        → Stamped lane fl settings part
        → Stamped lane fl settings (make_partitions lane fl settings random n part).1
    unfolding make_partitions
    make_partitions-Stamped n part h =
        let rounds = pos_part (add64 part.partition_count n -ℤ part.partition_count) in
        make_rounds-Stamped rounds part.partition_count part h

    none_waits :
        Stamped lane fl settings
          (record { partitions = lane.new; partition_count = pos 0; locked = true })
    none_waits e m = absurd (not-mem-nil (rw lane.contents-new at m))

    pub init_partitions-Stamped :
        Stamped lane fl settings
          (init_partitions lane fl settings random (no_partitions_yet lane)).1
    unfolding init_partitions no_partitions_yet
    init_partitions-Stamped = make_partitions-Stamped settings.min_partitions _ none_waits

    top_up-Stamped :
        (part : Partitions lane)
        → Stamped lane fl settings part
        → Stamped lane fl settings (top_up lane fl settings random part).1
    unfolding top_up
    top_up-Stamped part h = elim (Bool-cases (ltb_ℤ part.partition_count settings.min_partitions)) [
      | inl e ↦
          rw e (make_partitions-Stamped (sub64 settings.min_partitions part.partition_count) part h)
      | inr e ↦ rw e h
    ]

    discard_surplus-Stamped :
        (fuel : ℕ) (removed : ℤ) (part : Partitions lane)
        → Stamped lane fl settings part
        → Stamped lane fl settings (discard_surplus lane fl settings fuel removed part).1
    unfolding discard_surplus
    discard_surplus-Stamped zero removed part h = h
    discard_surplus-Stamped (suc fuel) removed part h =
        elim (Bool-cases (ltb_ℤ settings.min_partitions part.partition_count)) [
          | inl e ↦
              rw e
                (discard_surplus-Stamped fuel _ _ (QueueIsStamped-pop lane part.partitions h).rest)
          | inr e ↦ rw e h
        ]

    -- What the aging loop holds can be pushed back.
    record Ages (r : Outcome Partition × Partitions lane) : Type 0 where
      waiting : Stamped lane fl settings r.1
      held : (w : Partition) → r.0 ≡ ok w → IsTimed w.last_used

    or_working-IsTimed :
        (w : Partition) (o : Option Partition)
        → IsTimed w.last_used
        → ((v : Partition) → o ≡ some v → IsTimed v.last_used)
        → IsTimed (or_working lane fl settings w o).last_used
    or_working-IsTimed w none t s = t
    or_working-IsTimed w (some v) t s = s v refl

    age_partitions-Ages :
        (fuel : ℕ) (now : Time) (w : Partition) (part : Partitions lane)
        → Stamped lane fl settings part
        → IsTimed w.last_used
        → Ages (age_partitions lane fl settings fuel now w part)
    unfolding age_partitions
    age_partitions-Ages zero now w part h t = record { waiting = h; held = λ v e. cc }
    age_partitions-Ages (suc fuel) now w part h t =
        let pops = QueueIsStamped-pop lane part.partitions h in
        let next =
          age_partitions-Ages fuel now (or_working lane fl settings w (lane.pop part.partitions).0)
            (record part {
              partitions = (lane.pop part.partitions).1;
              partition_count = sub64 part.partition_count (pos 1);
            })
            pops.rest (or_working-IsTimed w _ t pops.taken) in
        elim (Bool-cases (
          idle_for lane fl settings now w settings.max_partition_age
          && not (ltb_ℤ part.partition_count settings.min_partitions))) [
            | inl e ↦ rw e next
            | inr e ↦ rw e (record {
              waiting = h;
              held = λ v f. subst (λ x. IsTimed x.last_used) (ok-injective f) t;
            })
          ]

    age_from-Stamped :
        (fuel : ℕ) (now : Time) (o : Option Partition) (part : Partitions lane)
        → Stamped lane fl settings part
        → ((w : Partition) → o ≡ some w → IsTimed w.last_used)
        → Stamped lane fl settings (age_from lane fl settings fuel now o part).1
    unfolding age_from
    age_from-Stamped fuel now none part h t = h
    age_from-Stamped fuel now (some w) part h t =
        let fewer = record part { partition_count = sub64 part.partition_count (pos 1) } in
        let (r, part') = age_partitions lane fl settings fuel now w fewer in
        let ages = age_partitions-Ages fuel now w fewer h (t w refl) in
        elim (Outcome-cases r) [
          | inl (v, e) ↦
              rw e (QueueIsStamped-push lane part'.partitions v _ ages.waiting (ages.held v e))
          | inr (inl e) ↦ rw e ages.waiting
          | inr (inr (inl e)) ↦ rw e ages.waiting
          | inr (inr (inr e)) ↦ rw e ages.waiting
        ]

    -- What follows the loop that discards.
    topped_up-Stamped :
        (fuel : ℕ) (now : Time) (part : Partitions lane)
        → Stamped lane fl settings part
        → Stamped lane fl settings
            ((top_up lane fl settings random >>= λ _.
                (pop lane >>= λ popped. age_from lane fl settings fuel now popped))
              part).1
    unfolding pop
    topped_up-Stamped fuel now part h =
        let (r, part') = top_up lane fl settings random part in
        let filled = top_up-Stamped part h in
        let pops = QueueIsStamped-pop lane part'.partitions filled in
        elim (Outcome-cases r) [
          | inl (_, e) ↦
              rw e (age_from-Stamped fuel now (lane.pop part'.partitions).0 _ pops.rest pops.taken)
          | inr (inl e) ↦ rw e filled
          | inr (inr (inl e)) ↦ rw e filled
          | inr (inr (inr e)) ↦ rw e filled
        ]

    pub sync_partitions-Stamped :
        (fuel : ℕ) (now : Time) (part : Partitions lane)
        → Stamped lane fl settings part
        → Stamped lane fl settings (sync_partitions lane fl settings fuel now random part).1
    unfolding sync_partitions
    sync_partitions-Stamped fuel now part h =
        let held = record part { locked = true } in
        let discarded = discard_surplus-Stamped fuel (pos 0) held h in
        elim (Bool-cases part.locked) [
          | inl e ↦ rw e h
          | inr e ↦
              rw e (elim (Outcome-cases (discard_surplus lane fl settings fuel (pos 0) held).0) [
                | inl (n, f) ↦ rw f (topped_up-Stamped fuel now _ discarded)
                | inr (inl f) ↦ rw f discarded
                | inr (inr (inl f)) ↦ rw f discarded
                | inr (inr (inr f)) ↦ rw f discarded
              ])
        ]
