-- ===== src/Partitions/Growth.antt =====
-- `makePartitions` and `InitPartitions` of app/partitions.go.
use dynamiq.Prelude.{
  ℕ, zero, suc, ◌+◌, ◌≤◌, ◌<◌, ◌≡◌, refl, ap, sym, subst, ◌∙◌, List, [], Perm, true, false, arith,
  lt→ltb,
}
use dynamiq.Prelude.Int.{ℤ, pos, negsuc, ◌≤ℤ◌, ◌+ℤ◌, ltb_ℤ, ◌-ℤ◌, pos_part, -ℤ-pos}
use dynamiq.Prelude.Int64.{half64, max_int64, int64, int64-negsuc, add64, add64-pos}
use dynamiq.Prelude.Effects.{ok}
use dynamiq.Lane.{PQueue}
use dynamiq.Clock.{Floats, zero_time}
use dynamiq.Partitions.{
  Partition, Settings, Partitions, make_partition, make_rounds, make_partitions, init_partitions,
  no_partitions_yet,
}
use dynamiq.Partitions.Whole.{
  IsWhole, IsWhole-grow, IsWhole-push, IsWhole-waiting, Keeps, ids, ids_below,
}
use mathlib.Core.List.{append-nil}
use mathlib.Core.List.Perm

module _ (lane : PQueue Partition) (fl : Floats) (settings : Settings fl) where
  open settings use {min_partitions}

  -- What a run of the loop leaves: `count` partitions, whole, and the mutex as it was.
  pub record Made (before after : Partitions lane) (out : List ℤ) (count : ℕ) : Type 0 where
    pub kept : Keeps lane fl settings after out
    pub made : after.partition_count ≡ pos count
    pub lock_kept : after.locked ≡ before.locked

  module _ (random : ℤ → ℤ) (m : ℕ) (most : min_partitions ≡ pos m) (fits : m < half64) where
    make_partition-Made :
        (part : Partitions lane) (out : List ℤ) (c : ℕ)
        → Keeps lane fl settings part out
        → part.partition_count ≡ pos c
        → c < m
        → Made part (make_partition lane fl settings random (pos c) part) out (c + 1)
    unfolding make_partition
    make_partition-Made part out c v e less =
        let test : ltb_ℤ (pos c) min_partitions ≡ true = rw most (lt→ltb _ _ (omega arith)) in
        rw test (record {
          kept =
              IsWhole-push part.partitions (record { id = pos c; last_used = zero_time })
                (random (pos c))
                (rw (← e) (
                  IsWhole-grow part.partitions part.partition_count min_partitions
                    (rw most (omega arith)) (rw e test) v));
          made = rw e (add64-pos c 1 (omega arith));
          lock_kept = refl;
        })

    make_rounds-Made :
        (rounds c : ℕ) (part : Partitions lane) (out : List ℤ)
        → Keeps lane fl settings part out
        → part.partition_count ≡ pos c
        → c + rounds ≤ m
        → Made part (make_rounds lane fl settings random rounds (pos c) part) out (c + rounds)
    unfolding make_rounds
    make_rounds-Made zero c part out v e h = record {
      kept = v;
      made = e ∙ ap pos (omega arith);
      lock_kept = refl;
    }
    make_rounds-Made (suc rounds) c part out v e h =
        let once = make_partition-Made part out c v e (omega arith) in
        let rest =
          make_rounds-Made rounds (c + 1) (make_partition lane fl settings random (pos c) part) out
            once.kept once.made (omega arith) in
        rw (add64-pos c 1 (omega arith)) (record {
          kept = rest.kept;
          made = rest.made ∙ ap pos (omega arith);
          lock_kept = rest.lock_kept ∙ once.lock_kept;
        })

    pub make_partitions-Made :
        (part : Partitions lane) (out : List ℤ) (c n : ℕ)
        → Keeps lane fl settings part out
        → part.partition_count ≡ pos c
        → c + n ≤ m
        → Made part (make_partitions lane fl settings random (pos n) part).1 out (c + n)
    unfolding make_partitions
    make_partitions-Made part out c n v e h =
        let rounds : pos_part (add64 part.partition_count (pos n) -ℤ part.partition_count) ≡ n =
          rw (e, add64-pos c n (omega arith), -ℤ-pos (c + n) c (omega arith)) (omega arith) in
        simp rounds (simp e (make_rounds-Made n c part out v e h))

-- Before any partition is made.
pub empty-Keeps :
    (lane : PQueue Partition)
    → IsWhole lane (no_partitions_yet lane).partitions (no_partitions_yet lane).partition_count []
unfolding no_partitions_yet
empty-Keeps lane = record {
  size = 0;
  counted = refl;
  fits = omega arith;
  whole = rw lane.contents-new (Perm.refl _);
}

module _ (lane : PQueue Partition) (fl : Floats) (settings : Settings fl) where
  open settings use {min_partitions}

  -- Where `m` partitions are configured, fewer than 2^63, `InitPartitions` returns, has released
  -- its mutex and made exactly the partitions 0 to m - 1; all of them wait.
  pub init_partitions-Keeps :
      (random : ℤ → ℤ) (m : ℕ)
      → min_partitions ≡ pos m
      → m < half64
      → let (r, part) = init_partitions lane fl settings random (no_partitions_yet lane) in
        (r ≡ ok tt)
        × (part.partition_count ≡ pos m)
        × (part.locked ≡ false)
        × Perm (ids (lane.contents part.partitions)) (ids_below m)
  unfolding init_partitions no_partitions_yet
  init_partitions-Keeps random m most fits =
      let start : Partitions lane = record {
        partitions = lane.new;
        partition_count = pos 0;
        locked = true;
      } in
      let done =
        make_partitions-Made lane fl settings random m most fits start [] 0 m (empty-Keeps lane)
          refl (omega arith) in
      simp most (
        refl,
        done.made ∙ ap pos (omega arith),
        refl,
        IsWhole-waiting lane _ _ m done.kept (done.made ∙ ap pos (omega arith)),
      )

  -- A minimum below zero makes no partitions.
  init_partitions-none :
      (random : ℤ → ℤ) (m : ℕ)
      → min_partitions ≡ negsuc m
      → m < half64
      → IsWhole lane
          (init_partitions lane fl settings random (no_partitions_yet lane)).1.partitions
          (init_partitions lane fl settings random (no_partitions_yet lane)).1.partition_count
          []
  unfolding init_partitions make_partitions make_rounds no_partitions_yet ◌+ℤ◌ ◌-ℤ◌
  init_partitions-none random m most fits =
      let sum : pos 0 +ℤ negsuc m ≡ negsuc m = ground arith in
      let below : add64 (pos 0) (negsuc m) ≡ negsuc m = ap int64 sum ∙ int64-negsuc m fits in
      let none_left : pos_part (negsuc m -ℤ pos 0) ≡ 0 = ground arith in
      let no_rounds : pos_part (add64 (pos 0) min_partitions -ℤ pos 0) ≡ 0 =
        ap (λ z. pos_part (add64 (pos 0) z -ℤ pos 0)) most
        ∙ ap (λ z. pos_part (z -ℤ pos 0)) below
        ∙ none_left in
      simp no_rounds (empty-Keeps lane)

  -- However many partitions are configured, all that `InitPartitions` makes wait.
  pub init_partitions-IsWhole :
      (random : ℤ → ℤ)
      → negsuc max_int64 ≤ℤ min_partitions
      → min_partitions ≤ℤ pos max_int64
      → let (_, part) = init_partitions lane fl settings random (no_partitions_yet lane) in
        IsWhole lane part.partitions part.partition_count []
  init_partitions-IsWhole random low high = by_sign min_partitions refl low high
    where
      by_sign :
          (most : ℤ)
          → min_partitions ≡ most
          → negsuc max_int64 ≤ℤ most
          → most ≤ℤ pos max_int64
          → let (_, part) = init_partitions lane fl settings random (no_partitions_yet lane) in
            IsWhole lane part.partitions part.partition_count []
      by_sign (pos m) e low high =
          let made = init_partitions-Keeps random m e (omega arith) in
          record {
            size = m;
            counted = made.1;
            fits = omega arith;
            whole = subst (λ l. Perm l (ids_below m)) (sym (append-nil _)) made.3;
          }
      by_sign (negsuc m) e low high = init_partitions-none random m e (omega arith)

  -- `InitPartitions` returns, and releases its mutex.
  pub init_partitions-free :
      (random : ℤ → ℤ)
      → let (r, part) = init_partitions lane fl settings random (no_partitions_yet lane) in
        (r ≡ ok tt) × (part.locked ≡ false)
  unfolding init_partitions no_partitions_yet
  init_partitions-free random = (refl, refl)
