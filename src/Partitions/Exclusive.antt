-- ===== src/Partitions/Exclusive.antt =====
-- Histories of the partitions of a queue on one node (app/partitions.go): calls of `GetPartition`,
-- partitions that come back by `PushPartition`, and runs of `syncPartitions` that return, in any
-- order and under settings that may change between them. A node is its object and the identifiers
-- that callers hold.
use dynamiq.Prelude.{
  ℕ, zero, suc, ◌<◌, ◌≡◌, refl, sym, inl, inr, List, [], ◌∷◌, ◌++◌, Mem, Perm, Bool, true, false,
  arith, All, Bool-cases, lt→ltb, subst,
}
use dynamiq.Prelude.Int.{ℤ, pos, negsuc, ◌≤ℤ◌, ltb_ℤ}
use dynamiq.Prelude.Int64.{half64, max_int64}
use dynamiq.Prelude.Effects.{ok, blocked, out_of_fuel}
use dynamiq.Lane.{PQueue}
use dynamiq.Clock.{Time, Floats}
use dynamiq.Nodes.{Memberlist}
use dynamiq.Partitions.{
  Partition, Settings, Partitions, get_partition, push_partition, sync_partitions, init_partitions,
  no_partitions_yet, discard_surplus,
}
use dynamiq.Partitions.Whole.{
  IsWhole, pos-injective, Keeps, handed, ids, ids_below, get_partition-Keeps, push_partition-Keeps,
}
use dynamiq.Partitions.Free.{IsFree}
use dynamiq.Partitions.Sync.{Mutex, sync_partitions-IsSynced, sync_partitions_diverges}
use mathlib.Core.List.{
  Nodup, Nodup-cons, Nodup-nil, append-nil, mem-append, mem-cons, mem-cons_self, not-mem-nil,
}
use mathlib.Core.List.Perm
use mathlib.Core.Logic.Or
use native.Mathlib.Bridge.{le_prop}
use dynamiq.Partitions.Growth.{init_partitions-Keeps}
use mathlib.Core.HLevel.{⊥_prop}

module _ (lane : PQueue Partition) (fl : Floats) where
  pub record Node : Type 0 where
    pub part : Partitions lane
    pub out : List ℤ

  abbrev pub after_get : Settings fl → Memberlist → Time → Node → Node
  after_get settings list now n =
      let (r, part') = get_partition lane fl settings list now n.part in
      record { part = part'; out = handed r ++ n.out }

  abbrev pub after_push : Settings fl → Time → Partition → Bool → List ℤ → Node → Node
  after_push settings now w used rest n = record {
    part = (push_partition lane fl settings now w used n.part).1;
    out = rest;
  }

  abbrev pub after_sync : Settings fl → ℕ → Time → (ℤ → ℤ) → Node → Node
  after_sync settings fuel now random n = record n {
    part = (sync_partitions lane fl settings fuel now random n.part).1;
  }

  pub data Step (n : Node) : Node → Type 0 where
    get :
        (settings : Settings fl) (list : Memberlist) (now : Time)
        → settings.min_partitions ≤ℤ pos max_int64
        → Step n (after_get settings list now n)
    give_back :
        (settings : Settings fl) (now : Time) (w : Partition) (used : Bool) (rest : List ℤ)
        → Perm n.out (w.id ∷ rest)
        → Step n (after_push settings now w used rest n)
    sync :
        (settings : Settings fl) (fuel : ℕ) (now : Time) (random : ℤ → ℤ)
        → settings.min_partitions ≤ℤ pos max_int64
        → (sync_partitions lane fl settings fuel now random n.part).0 ≡ ok tt
        → Step n (after_sync settings fuel now random n)

  pub data Reach (s : Node) : Node → Type 0 where
    here : Reach s s
    next : {t u : Node} → Reach s t → Step t u → Reach s u

  abbrev pub NodeIsWhole : Node → Type 0
  NodeIsWhole n = IsWhole lane n.part.partitions n.part.partition_count n.out

  -- A run of `syncPartitions` that returned found the mutex free and no surplus of partitions.
  sync-returned :
      (settings : Settings fl) (fuel : ℕ) (now : Time) (random : ℤ → ℤ) (part : Partitions lane)
      → (sync_partitions lane fl settings fuel now random part).0 ≡ ok tt
      → (part.locked ≡ false) × (ltb_ℤ settings.min_partitions part.partition_count ≡ false)
  sync-returned settings fuel now random part h = elim (Bool-cases part.locked) [
    | inl held ↦
        let waits : (sync_partitions lane fl settings fuel now random part).0 ≡ blocked =
          unfold sync_partitions in rw held in
        cc (h, waits)
    | inr free ↦ elim (Bool-cases (ltb_ℤ settings.min_partitions part.partition_count)) [
      | inl surplus ↦
          cc (h, sync_partitions_diverges lane fl settings fuel now random part free surplus)
      | inr enough ↦ (free, enough)
    ]
  ]

  Mutex-IsFree :
      (settings : Settings fl) (m : ℕ) (most : settings.min_partitions ≡ pos m) (fits : m < half64)
      (part : Partitions lane)
      → Mutex lane fl settings m most fits part
      → IsFree lane part
  Mutex-IsFree settings m most fits part (inl held) = inr held.0
  Mutex-IsFree settings m most fits part (inr free) = inl free.1

  pub sync-NodeIsWhole :
      (settings : Settings fl) (most : ℤ) (fuel : ℕ) (now : Time) (random : ℤ → ℤ) (n : Node)
      → settings.min_partitions ≡ most
      → most ≤ℤ pos max_int64
      → NodeIsWhole n
      → (sync_partitions lane fl settings fuel now random n.part).0 ≡ ok tt
      → Keeps lane fl settings (sync_partitions lane fl settings fuel now random n.part).1 n.out
        × IsFree lane (sync_partitions lane fl settings fuel now random n.part).1
  sync-NodeIsWhole settings (negsuc m) fuel now random n e bounded v h =
      let tests = sync-returned settings fuel now random n.part h in
      let test : ltb_ℤ (negsuc m) (pos v.size) ≡ false = rw (e, v.counted) at tests.1 in
      absurd (ground arith)
  sync-NodeIsWhole settings (pos m) zero now random n e bounded v h =
      let free = (sync-returned settings zero now random n.part h).0 in
      let ends : (sync_partitions lane fl settings zero now random n.part).0 ≡ out_of_fuel =
        unfold sync_partitions discard_surplus in rw free in
      cc (h, ends)
  sync-NodeIsWhole settings (pos m) (suc fuel) now random n e bounded v h =
      let tests = sync-returned settings (suc fuel) now random n.part h in
      let test : ltb_ℤ (pos m) (pos v.size) ≡ false = rw (e, v.counted) at tests.1 in
      let synced =
        (sync_partitions-IsSynced lane fl settings m e (ground arith) fuel now random n.part n.out
          v.size v tests.0 v.counted (ground arith)).1 in
      (
        synced.1,
        Mutex-IsFree settings m e (ground arith)
            (sync_partitions lane fl settings (suc fuel) now random n.part).1 synced.2,
      )

  pub Step-NodeIsWhole : {n n' : Node} → Step n n' → NodeIsWhole n → NodeIsWhole n'
  Step-NodeIsWhole {n} (get settings list now bounded) v =
      get_partition-Keeps lane fl settings bounded list now n.part n.out v
  Step-NodeIsWhole {n} (give_back settings now w used rest p) v =
      push_partition-Keeps lane fl settings now w used n.part rest (record {
        size = v.size;
        counted = v.counted;
        fits = v.fits;
        whole = Perm.trans (Perm.append_left _ (Perm.symm p)) v.whole;
      })
  Step-NodeIsWhole {n} (sync settings fuel now random bounded h) v =
      (sync-NodeIsWhole settings settings.min_partitions fuel now random n refl bounded v h).0

  Reach-NodeIsWhole : {s n : Node} → NodeIsWhole s → Reach s n → NodeIsWhole n
  Reach-NodeIsWhole v here = v
  Reach-NodeIsWhole v (next r st) = Step-NodeIsWhole st (Reach-NodeIsWhole v r)

All-of_mem : {P : ℤ → Type 0} (l : List ℤ) → ((i : ℤ) → Mem i l → P i) → All P l
All-of_mem [] h = tt
All-of_mem (x ∷ l) h = (h x mem-cons_self, All-of_mem l (λ i m. h i (mem-cons.1 (Or.inr m))))

-- The identifiers below a number are different.
mem-ids_below : (n k : ℕ) → Mem (pos k) (ids_below n) → k < n
mem-ids_below zero k h = absurd (not-mem-nil h)
mem-ids_below (suc n) k h =
    Or.elim le_prop (mem-cons.0 h) (λ e. omega (arith, pos-injective k n e))
      (λ later. omega (arith, mem-ids_below n k later))

not-mem-ids_below : (n k : ℕ) → ¬ Mem (negsuc k) (ids_below n)
not-mem-ids_below zero k h = not-mem-nil h
not-mem-ids_below (suc n) k h = Or.elim ⊥_prop (mem-cons.0 h) (λ e. cc) (not-mem-ids_below n k)

mem-IsId : (n : ℕ) (i : ℤ) → Mem i (ids_below n) → (pos 0 ≤ℤ i) × (ltb_ℤ i (pos n) ≡ true)
mem-IsId n (pos k) h = (omega arith, lt→ltb _ _ (omega (arith, mem-ids_below n k h)))
mem-IsId n (negsuc k) h = absurd (not-mem-ids_below n k h)

ids_below-Nodup : (n : ℕ) → Nodup (ids_below n)
ids_below-Nodup zero = Nodup-nil
ids_below-Nodup (suc n) =
    Nodup-cons.1 ((λ h. absurd (omega (arith, mem-ids_below n n h))), ids_below-Nodup n)

module _ (lane : PQueue Partition) (fl : Floats) (settings : Settings fl) (random : ℤ → ℤ) where
  abbrev pub new_node : Node lane fl
  new_node = record {
    part = (init_partitions lane fl settings random (no_partitions_yet lane)).1;
    out = [];
  }

  module _ (m : ℕ) (most : settings.min_partitions ≡ pos m) (fits : m < half64) where
    new_node-NodeIsWhole : NodeIsWhole lane fl new_node
    new_node-NodeIsWhole =
        let made = init_partitions-Keeps lane fl settings random m most fits in
        record {
          size = m;
          counted = made.1;
          fits = fits;
          whole = subst (λ l. Perm l (ids_below m)) (sym (append-nil _)) made.3;
        }

    -- Take any history of a queue's partitions on a node that begins with `InitPartitions`, for a
    -- configured minimum from 0 to 2^63 - 1, and goes on with calls of `GetPartition`, with held
    -- partitions that are given back by `PushPartition`, and with runs of `syncPartitions` that
    -- return, each under settings of its own with a minimum of at most 2^63 - 1. Then no two
    -- callers hold the same partition, no partition that is held also waits, and what is held is an
    -- identifier from 0 up to, not including, the partition count.
    pub handouts_exclusive :
        (n : Node lane fl)
        → Reach lane fl new_node n
        → Nodup (ids (lane.contents n.part.partitions) ++ n.out)
          × All (λ i. (pos 0 ≤ℤ i) × (ltb_ℤ i n.part.partition_count ≡ true)) n.out
    handouts_exclusive n r =
        let v = Reach-NodeIsWhole lane fl new_node-NodeIsWhole r in
        (
          Perm.nodup (Perm.symm v.whole) (ids_below-Nodup v.size),
          All-of_mem n.out (λ i held.
              rw v.counted
                (mem-IsId v.size i ((Perm.mem_iff v.whole).0 (mem-append.1 (Or.inr held))))),
        )
