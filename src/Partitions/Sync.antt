-- ===== src/Partitions/Sync.antt =====
-- `syncPartitions` of app/partitions.go.
use dynamiq.Prelude.{
  ℕ, zero, suc, ◌-◌, ◌≤◌, ◌<◌, ◌≡◌, ◌≢◌, refl, sym, ap, subst, ◌∙◌, ◌⊎◌, inl, inr, List, [], ◌++◌,
  true, false, Option, none, some, arith, Bool-cases, le→not-ltb,
}
use dynamiq.Prelude.Int.{ℤ, pos, ltb_ℤ}
use dynamiq.Prelude.Int64.{half64, add64, sub64, add64-pos, sub64-pos}
use dynamiq.Prelude.Effects.{ok, out_of_fuel}
use dynamiq.Lane.{PQueue}
use dynamiq.Clock.{unix_nano, Time, Floats}
use dynamiq.Partitions.{
  Partition, Settings, Partitions, discard_surplus, sync_partitions, age_from, age_partitions,
  make_partitions, top_up, pop, idle_for,
}
use dynamiq.Partitions.Whole.{
  IsWhole, IsWhole-push, IsWhole-pop, IsWhole-pos, Keeps, popped, nil-cases,
}
use dynamiq.Partitions.Growth.{Made, make_partitions-Made}
use mathlib.Core.List.{cons-ne-nil}
use mathlib.Core.List.Perm

module _ (lane : PQueue Partition) (fl : Floats) (settings : Settings fl) where
  open settings use {min_partitions}

  -- The test of the loop is about two numbers that the loop does not change.
  discard_surplus-out_of_fuel :
      (fuel : ℕ) (removed : ℤ) (part : Partitions lane)
      → ltb_ℤ min_partitions part.partition_count ≡ true
      → (discard_surplus lane fl settings fuel removed part).0 ≡ out_of_fuel
  unfolding discard_surplus
  discard_surplus-out_of_fuel zero removed part h = refl
  discard_surplus-out_of_fuel (suc fuel) removed part h =
      rw h (discard_surplus-out_of_fuel fuel _ _ h)

  -- Where the mutex is free and fewer partitions are configured than there are, `syncPartitions`
  -- does not return, whatever the number of rounds that its loop is given.
  pub sync_partitions_diverges :
      (fuel : ℕ) (now : Time) (random : ℤ → ℤ) (part : Partitions lane)
      → part.locked ≡ false
      → ltb_ℤ min_partitions part.partition_count ≡ true
      → (sync_partitions lane fl settings fuel now random part).0 ≡ out_of_fuel
  unfolding sync_partitions
  sync_partitions_diverges fuel now random part free surplus =
      rw (free, discard_surplus-out_of_fuel fuel (pos 0) (record part { locked = true }) surplus)

  discard_surplus-none :
      (fuel : ℕ) (part : Partitions lane)
      → ltb_ℤ min_partitions part.partition_count ≡ false
      → discard_surplus lane fl settings (suc fuel) (pos 0) part ≡ (ok (pos 0), part)
  unfolding discard_surplus
  discard_surplus-none fuel part h = rw h

  module _ (m : ℕ) (most : min_partitions ≡ pos m) (fits : m < half64) where
    top_up-Made :
        (random : ℤ → ℤ) (part : Partitions lane) (out : List ℤ) (c : ℕ)
        → Keeps lane fl settings part out
        → part.partition_count ≡ pos c
        → c ≤ m
        → ((top_up lane fl settings random part).0 ≡ ok tt)
          × Made lane fl settings part (top_up lane fl settings random part).1 out m
    unfolding top_up
    top_up-Made random part out c v e h =
        elim (Bool-cases (ltb_ℤ part.partition_count min_partitions)) [
          | inl less ↦ rw (less, missing) (refl, filled (rw (e, most) at less))
          | inr enough ↦ rw enough (refl, enough_already (rw (e, most) at enough))
        ]
      where
        missing : sub64 min_partitions part.partition_count ≡ pos (m - c)
        missing = simp (e, most) (sub64-pos m c h fits)

        filled :
            ltb_ℤ (pos c) (pos m) ≡ true
            → Made lane fl settings part
                (make_partitions lane fl settings random (pos (m - c)) part).1
                out
                m
        filled less =
            let done =
              make_partitions-Made lane fl settings random m most fits part out c (m - c) v e
                (ground arith) in
            record {
              kept = done.kept;
              made = done.made ∙ ap pos (ground arith);
              lock_kept = done.lock_kept;
            }

        enough_already : ltb_ℤ (pos c) (pos m) ≡ false → Made lane fl settings part part out m
        enough_already enough = record {
          kept = v;
          made = e ∙ ap pos (ground arith);
          lock_kept = refl;
        }

    age_partitions-none :
        (fuel n : ℕ) (now : Time) (w : Partition) (part : Partitions lane)
        → part.partition_count ≡ pos n
        → n < m
        → age_partitions lane fl settings (suc fuel) now w part ≡ (ok w, part)
    unfolding age_partitions
    age_partitions-none fuel n now w part e less =
        let test : ltb_ℤ part.partition_count min_partitions ≡ true = rw (e, most) (ground arith) in
        elim (Bool-cases (idle_for lane fl settings now w settings.max_partition_age)) [
          | inl old ↦ rw (old, test)
          | inr young ↦ rw young
        ]

    -- Whether the mutex is still held when `syncPartitions` returns.
    abbrev pub Mutex : Partitions lane → Type 0
    Mutex part =
        ((lane.contents part.partitions ≡ []) × (part.locked ≡ true))
        ⊎ ((lane.contents part.partitions ≢ []) × (part.locked ≡ false))

    abbrev pub IsSynced : Partitions lane → List ℤ → Type 0
    IsSynced part out =
        (part.partition_count ≡ pos m) × Keeps lane fl settings part out × Mutex part

    push-ne-nil : (q : lane.Queue) (w : Partition) (p : ℤ) → lane.contents (lane.push q w p) ≢ []
    push-ne-nil q w p e =
        cons-ne-nil _ _
          (Perm.eq-nil (Perm.trans (Perm.symm (lane.contents-push q w p)) (rw e (Perm.refl []))))

    -- A pop that finds nothing leaves nothing.
    pop-none : (q : lane.Queue) → (lane.pop q).0 ≡ none → lane.contents (lane.pop q).1 ≡ []
    pop-none q h = elim (nil-cases (lane.contents q)) [
      | inl e ↦ (lane.pop_empty q e).1
      | inr e ↦ let found = (lane.pop_least q e).returned in cc (h, found)
    ]

    age_from-IsSynced :
        (fuel : ℕ) (now : Time) (o : Option Partition) (part : Partitions lane) (out : List ℤ)
        → Keeps lane fl settings part (popped o ++ out)
        → part.partition_count ≡ pos m
        → part.locked ≡ true
        → (o ≡ none → lane.contents part.partitions ≡ [])
        → ((age_from lane fl settings (suc fuel) now o part).0 ≡ ok tt)
          × IsSynced (age_from lane fl settings (suc fuel) now o part).1 out
    unfolding age_from
    age_from-IsSynced fuel now none part out v e held nothing =
        (refl, (e, v, inl (nothing refl, held)))
    age_from-IsSynced fuel now (some w) part out v e held nothing =
        rw aged (refl, (back, kept, inr (push-ne-nil _ _ _, refl)))
      where
        some-left : 0 < m
        some-left = IsWhole-pos lane part.partitions _ m w.id out v e

        less : sub64 part.partition_count (pos 1) ≡ pos (m - 1)
        less = rw e (sub64-pos m 1 (omega (arith, some-left)) fits)

        aged :
            age_partitions lane fl settings
              (suc fuel)
              now
              w
              (record part { partition_count = sub64 part.partition_count (pos 1) })
            ≡ (ok w, record part { partition_count = sub64 part.partition_count (pos 1) })
        aged = age_partitions-none fuel (m - 1) now w _ less (omega (arith, some-left))

        back : add64 (sub64 part.partition_count (pos 1)) (pos 1) ≡ pos m
        back =
            rw less
              (add64-pos (m - 1) 1 (omega (arith, some-left)) ∙ ap pos (omega (arith, some-left)))

        kept :
            IsWhole lane
              (lane.push part.partitions w (unix_nano w.last_used))
              (add64 (sub64 part.partition_count (pos 1)) (pos 1))
              out
        kept =
            subst (λ c. IsWhole lane (lane.push part.partitions w (unix_nano w.last_used)) c out)
              (e ∙ sym back) (IsWhole-push part.partitions w _ v)

    -- For partitions with a free mutex that are whole beside those that are handed out, where at
    -- least as many are configured as there are and fewer than 2^63, `syncPartitions` returns after
    -- one test of each of its loops. The queue then has exactly the configured number of
    -- partitions, whole beside those that are handed out, none having been aged out; the mutex is
    -- still held exactly if no partition waits.
    pub sync_partitions-IsSynced :
        (fuel : ℕ) (now : Time) (random : ℤ → ℤ) (part : Partitions lane) (out : List ℤ) (c : ℕ)
        → Keeps lane fl settings part out
        → part.locked ≡ false
        → part.partition_count ≡ pos c
        → c ≤ m
        → ((sync_partitions lane fl settings (suc fuel) now random part).0 ≡ ok tt)
          × IsSynced (sync_partitions lane fl settings (suc fuel) now random part).1 out
    unfolding sync_partitions pop
    sync_partitions-IsSynced fuel now random part out c v free e h =
        rw (free, settled, same)
          (rw topped.0 (
            age_from-IsSynced fuel now (lane.pop full.partitions).0
              (record full { partitions = (lane.pop full.partitions).1 }) out
              (IsWhole-pop full.partitions made.kept) made.made made.lock_kept
              (pop-none full.partitions)))
      where
        held : Partitions lane
        held = record part { locked = true }

        settled : discard_surplus lane fl settings (suc fuel) (pos 0) held ≡ (ok (pos 0), held)
        settled = discard_surplus-none fuel held (rw (e, most) (le→not-ltb _ _ (omega arith)))

        same : sub64 part.partition_count (pos 0) ≡ part.partition_count
        same = rw e (sub64-pos c 0 (omega arith) (omega arith) ∙ ap pos (omega arith))

        topped :
            ((top_up lane fl settings random held).0 ≡ ok tt)
            × Made lane fl settings held (top_up lane fl settings random held).1 out m
        topped = top_up-Made random held out c v e h

        full : Partitions lane
        full = (top_up lane fl settings random held).1

        made : Made lane fl settings held full out m
        made = topped.1
