-- ===== src/Partitions/Timeout.antt =====
-- The answers of `getPartitionPosition` (app/partitions.go).
use dynamiq.Prelude.{
  ℕ, ◌≤◌, ◌<◌, ◌≡◌, ◌≢◌, sym, inl, inr, List, [], ◌∷◌, Mem, Bool, true, false, none, some, arith,
  Bool-cases, All, subst,
}
use dynamiq.Prelude.Int.{ℤ, pos, negsuc, ◌≤ℤ◌, ltb_ℤ, ◌-ℤ◌}
use dynamiq.Prelude.Int64.{half64, max_int64, saturate64, add64}
use dynamiq.Prelude.Effects.{Outcome, ok}
use dynamiq.Lane.{PQueue, PopsLeast}
use dynamiq.Clock.{Floats, since, zero_time}
use dynamiq.Partitions.{
  Partition, Settings, Partitions, Position, idle_for, get_partition_position, grow_or_refuse,
  no_partitions, position_of,
}
use dynamiq.Partitions.Whole.{nil-cases}
use mathlib.Core.List.{mem-cons, mem-cons_self, not-mem-nil}
use mathlib.Core.List.Perm
use mathlib.Core.Logic.Or
use native.Mathlib.Bridge.{le_prop}

-- An entry of the priority queue under the time of its last use, after the first 100 microseconds
-- of 1970, or a new one under the priority that was drawn.
pub data IsStamped (e : Partition × ℤ) : Type 0 where
  used : (t : ℕ) → e.0.last_used ≡ pos t → e.1 ≡ pos t → 100000 ≤ t → t < half64 → IsStamped e
  unused : e.0.last_used ≡ zero_time → e.1 ≤ℤ pos 99999 → IsStamped e

saturate64-le : (z : ℤ) → saturate64 z ≤ℤ pos max_int64
unfolding saturate64
saturate64-le z = ground arith

since-zero_time : (n : ℕ) → since (pos n) zero_time ≡ pos max_int64
unfolding since saturate64 ◌-ℤ◌
since-zero_time n = ground arith

since-mono :
    (n t u : ℕ) → t ≤ u → n < half64 → u < half64 → since (pos n) (pos u) ≤ℤ since (pos n) (pos t)
unfolding since saturate64 ◌-ℤ◌
since-mono n t u h k l = ground arith

-- An entry that is not behind another one in the queue has been idle for no shorter.
since-le :
    (n : ℕ) (d e : Partition × ℤ)
    → n < half64
    → IsStamped d
    → IsStamped e
    → d.1 ≤ℤ e.1
    → since (pos n) e.0.last_used ≤ℤ since (pos n) d.0.last_used
since-le n d e now (used t at p _ _) (used u at' q _ bound) h =
    let earlier : pos t ≤ℤ pos u = rw (p, q) at h in
    rw (at, at') (since-mono n t u (omega arith) now bound)
since-le n d e now (used t at p late _) (unused at' low) h =
    absurd (omega (arith, late, rw p at h, low))
since-le n d e now (unused at p) s h = rw (at, since-zero_time) (unfold since in saturate64-le _)

-- A member of a list has what all its members have, for the proof of an order.
All-mem :
    {A : Type 0} (P : A → Type 0) (l : List A) {e : A} {a b : ℕ}
    → All P l
    → Mem e l
    → (P e → a ≤ b)
    → a ≤ b
All-mem P [] h m k = absurd (not-mem-nil m)
All-mem P (x ∷ l) h m k =
    Or.elim le_prop (mem-cons.0 m) (λ same. k (subst P (sym same) h.0))
      (λ later. All-mem P l h.1 later k)

module _ (lane : PQueue Partition) (fl : Floats) (settings : Settings fl) where
  open settings use {min_partitions, visibility_timeout}

  -- Whether a partition has been idle for longer than the visibility timeout.
  abbrev pub is_free : ℕ → Partition → Bool
  is_free n w = idle_for lane fl settings (pos n) w visibility_timeout

  abbrev pub AllStamped : Partitions lane → Type 0
  AllStamped part = All IsStamped (lane.contents part.partitions)

  -- Of all the partitions that wait, `w` has been idle the longest.
  abbrev pub IsOldest : ℕ → Partition → Partitions lane → Type 0
  IsOldest n w part =
      (e : Partition × ℤ)
      → Mem e (lane.contents part.partitions)
      → since (pos n) e.0.last_used ≤ℤ since (pos n) w.last_used

  module _ (part : Partitions lane) (stamped : AllStamped part) (n : ℕ) (now : n < half64) where
    popped-IsOldest :
        (pops : PopsLeast lane.contents part.partitions (lane.pop part.partitions))
        → IsOldest n pops.value part
    popped-IsOldest pops e m =
        All-mem _ (lane.contents part.partitions) stamped
          ((Perm.mem_iff pops.removed).1 mem-cons_self)
          (λ stamp. All-mem _ (lane.contents part.partitions) stamped m (λ stamp'.
            Or.elim le_prop (mem-cons.0 ((Perm.mem_iff pops.removed).0 m))
              (λ same. rw same (omega arith))
              (λ later.
                All-mem _ (lane.contents (lane.pop part.partitions).1) pops.least later
                  (λ least. since-le n (pops.value, pops.priority) e now stamp stamp' least))))

    -- Where the oldest one is in use, all are.
    all_in_use :
        (w : Partition)
        → IsOldest n w part
        → is_free n w ≡ false
        → (e : Partition × ℤ) → Mem e (lane.contents part.partitions)
        → is_free n e.0 ≡ false
    unfolding idle_for
    all_in_use w oldest in_use e m = elim (Bool-cases (is_free n e.0)) [
      | inr in_use' ↦ in_use'
      | inl free ↦
          let also =
            fl.gt-seconds_mono (since (pos n) e.0.last_used) (since (pos n) w.last_used)
              visibility_timeout (oldest e m) free in
          cc (also, in_use)
    ]

    -- What `getPartitionPosition` answers, over the state before the call.
    pub data Answers (r : Outcome Position) : Type 0 where
      -- The oldest waiting partition, which is free.
      oldest :
          (w : Partition)
          → IsOldest n w part
          → is_free n w ≡ true
          → r
            ≡ ok (record {
              my_partition = w.id;
              working = some w;
              total_partitions = part.partition_count;
              err = none;
            })
          → Answers r
      -- A new partition: some wait, all of these are in use, and fewer are there than configured.
      new :
          lane.contents part.partitions ≢ []
          → ((e : Partition × ℤ) → Mem e (lane.contents part.partitions) → is_free n e.0 ≡ false)
          → ltb_ℤ part.partition_count min_partitions ≡ true
          → r
            ≡ ok (record {
              my_partition = part.partition_count;
              working = some (record { id = part.partition_count; last_used = zero_time });
              total_partitions = add64 part.partition_count (pos 1);
              err = none;
            })
          → Answers r
      -- No partition waits.
      empty :
          lane.contents part.partitions ≡ []
          → r
            ≡ ok (record {
              my_partition = negsuc 0;
              working = none;
              total_partitions = part.partition_count;
              err = some no_partitions;
            })
          → Answers r
      -- All partitions that wait are in use, and there are as many as configured.
      refused :
          (w : Partition)
          → ((e : Partition × ℤ) → Mem e (lane.contents part.partitions) → is_free n e.0 ≡ false)
          → ltb_ℤ part.partition_count min_partitions ≡ false
          → r
            ≡ ok (record {
              my_partition = negsuc 0;
              working = some w;
              total_partitions = part.partition_count;
              err = some no_partitions;
            })
          → Answers r

    -- With a free mutex, a clock below 2^63 nanoseconds, and every waiting partition stamped with
    -- the time of its last use or, if it was never used, with a small random number,
    -- `getPartitionPosition` returns, in one of four ways: with the partition that has been idle
    -- the longest, if that is for more than the visibility timeout; else, where all waiting
    -- partitions are in use, with a new partition if fewer than configured are there, or with
    -- `NoPartitions`; with `NoPartitions` also where none waits.
    pub get_partition_position-Answers :
        part.locked ≡ false → Answers (get_partition_position lane fl settings (pos n) part).0
    unfolding get_partition_position position_of grow_or_refuse
    get_partition_position-Answers free = elim (nil-cases (lane.contents part.partitions)) [
      | inl e ↦ empty e (rw ((lane.pop_empty part.partitions e).0))
      | inr e ↦ popped (lane.pop_least part.partitions e) e
    ]
      where
        popped :
            PopsLeast lane.contents part.partitions (lane.pop part.partitions)
            → lane.contents part.partitions ≢ []
            → Answers (get_partition_position lane fl settings (pos n) part).0
        popped pops some-wait = elim (Bool-cases (is_free n pops.value)) [
          | inl idle ↦ oldest pops.value (popped-IsOldest pops) idle (rw (pops.returned, idle))
          | inr in_use ↦
              let all = all_in_use pops.value (popped-IsOldest pops) in_use in
              elim (Bool-cases (ltb_ℤ part.partition_count min_partitions)) [
                | inl less ↦ new some-wait all less (rw (pops.returned, in_use, free, less))
                | inr enough ↦
                    refused pops.value all enough (rw (pops.returned, in_use, free, enough))
              ]
        ]
