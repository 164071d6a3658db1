-- ===== src/Partitions/Whole.antt =====
-- The partitions of a queue (app/partitions.go), those that wait beside those that are handed out,
-- by their identifiers, over `GetPartition` and `PushPartition`.
use dynamiq.Prelude.{
  ℕ, zero, suc, ◌+◌, ◌<◌, ◌≡◌, ◌≢◌, refl, sym, ap, ◌∙◌, ◌⊎◌, inl, inr, List, [], ◌∷◌, ◌++◌, map,
  Perm, Bool, true, false, Option, none, some, arith, Bool-cases, String, subst,
}
use dynamiq.Prelude.Int.{ℤ, pos, ◌≤ℤ◌, ltb_ℤ}
use dynamiq.Prelude.Int64.{half64, max_int64, add64, add64-pos}
use dynamiq.Prelude.Effects.{Outcome, ok, Outcome-cases, ◌>>=◌}
use dynamiq.Lane.{PQueue}
use dynamiq.Clock.{Time, Floats}
use dynamiq.Nodes.{Memberlist, get_node_partition_range}
use dynamiq.Partitions.{
  Partition, Settings, Partitions, Position, Handout, position_of, get_partition_position,
  grow_or_refuse, get_partition, idle_for, push_partition, range_of, is_zero,
}
use mathlib.Core.List.{append-nil, cons-ne-nil, perm_middle}
use mathlib.Core.List.Perm

abbrev pub ids : List (Partition × ℤ) → List ℤ
ids = map (λ e. e.0.id)

-- The identifiers below a number.
abbrev pub ids_below : ℕ → List ℤ
ids_below zero = []
ids_below (suc n) = pos n ∷ ids_below n

-- The queue `q` and the partitions that are handed out, by their identifiers.
pub record IsWhole (lane : PQueue Partition) (q : lane.Queue) (count : ℤ) (out : List ℤ)
    : Type 0 where
  pub size : ℕ
  pub counted : count ≡ pos size
  pub fits : size < half64
  pub whole : Perm (ids (lane.contents q) ++ out) (ids_below size)

pub nil-cases {ℓ} : {A : Type ℓ} (l : List A) → (l ≡ []) ⊎ (l ≢ [])
nil-cases [] = inl refl
nil-cases (x ∷ l) = inr (λ e. cc)

-- The partition that a call has handed out, by its identifier.
abbrev pub handed_in : Option String → Option Partition → List ℤ
handed_in none (some w) = w.id ∷ []
handed_in _ _ = []

abbrev pub handed_position : Outcome Position → List ℤ
handed_position (ok p) = handed_in p.err p.working
handed_position _ = []

abbrev pub handed : Outcome Handout → List ℤ
handed (ok h) = handed_in h.err h.partition
handed _ = []

-- What a pop takes out is in the hands of the caller.
abbrev pub popped : Option Partition → List ℤ
popped none = []
popped (some w) = w.id ∷ []

module _ {lane : PQueue Partition} where
  pub IsWhole-push :
      (q : lane.Queue) (w : Partition) (p : ℤ) {count : ℤ} {out : List ℤ}
      → IsWhole lane q count (w.id ∷ out)
      → IsWhole lane (lane.push q w p) count out
  IsWhole-push q w p v = record {
    size = v.size;
    counted = v.counted;
    fits = v.fits;
    whole =
        Perm.trans (Perm.append_right _ (Perm.map (λ e. e.0.id) (lane.contents-push q w p)))
          (Perm.trans (Perm.symm (perm_middle _ _)) v.whole);
  }

  pub IsWhole-pop :
      (q : lane.Queue) {count : ℤ} {out : List ℤ}
      → IsWhole lane q count out
      → IsWhole lane (lane.pop q).1 count (popped (lane.pop q).0 ++ out)
  IsWhole-pop q {count} {out} v = elim (nil-cases (lane.contents q)) [
    | inl e ↦
        let (returned, left) = lane.pop_empty q e in
        rw returned (record {
          size = v.size;
          counted = v.counted;
          fits = v.fits;
          whole = rw left (rw e at v.whole);
        })
    | inr e ↦
        let pops = lane.pop_least q e in
        rw pops.returned (record {
          size = v.size;
          counted = v.counted;
          fits = v.fits;
          whole = Perm.trans (perm_middle _ _) (
              Perm.trans (Perm.symm (Perm.append_right out (Perm.map (λ x. x.0.id) pops.removed)))
                v.whole);
        })
  ]

  -- One more partition, under the identifier that is next.
  pub IsWhole-grow :
      (q : lane.Queue) (count : ℤ) {out : List ℤ} (most : ℤ)
      → most ≤ℤ pos max_int64
      → ltb_ℤ count most ≡ true
      → IsWhole lane q count out
      → IsWhole lane q (add64 count (pos 1)) (count ∷ out)
  IsWhole-grow q count {out} most bounded less v = record {
    size = suc v.size;
    counted = ap (λ c. add64 c (pos 1)) v.counted ∙ add64-pos v.size 1 room ∙ ap pos (omega arith);
    fits = omega (arith, room);
    whole = Perm.trans (perm_middle _ _) (rw (← v.counted) (Perm.cons _ v.whole));
  }
    where
      less' : ltb_ℤ (pos v.size) most ≡ true
      less' = rw v.counted at less

      room : v.size + 1 < half64
      room = ground arith

pub pos-injective : (a b : ℕ) → pos a ≡ pos b → a ≡ b
pos-injective a b e = cc

-- The identifiers are those below the partition count.
pub IsWhole-ids :
    {lane : PQueue Partition} (q : lane.Queue) (count : ℤ) (n : ℕ) {out : List ℤ}
    → IsWhole lane q count out
    → count ≡ pos n
    → Perm (ids (lane.contents q) ++ out) (ids_below n)
IsWhole-ids q count n v e = rw (pos-injective n v.size (sym e ∙ v.counted)) v.whole

-- Where none is handed out, all of them wait.
pub IsWhole-waiting :
    (lane : PQueue Partition) (q : lane.Queue) (count : ℤ) (n : ℕ)
    → IsWhole lane q count []
    → count ≡ pos n
    → Perm (ids (lane.contents q)) (ids_below n)
IsWhole-waiting lane q count n v e =
    subst (λ l. Perm l (ids_below n)) (append-nil (ids (lane.contents q)))
      (IsWhole-ids {lane = lane} q count n {out = []} v e)

-- Without partitions nothing waits, and nothing is handed out.
Perm-nil : (xs ys out : List ℤ) → Perm (xs ++ (ys ++ out)) [] → ys ≡ []
Perm-nil [] [] out h = refl
Perm-nil [] (y ∷ ys) out h = absurd (cons-ne-nil _ _ (Perm.eq-nil h))
Perm-nil (x ∷ xs) ys out h = absurd (cons-ne-nil _ _ (Perm.eq-nil h))

-- Where one is handed out there is at least one.
pub IsWhole-pos :
    (lane : PQueue Partition) (q : lane.Queue) (count : ℤ) (n : ℕ) (i : ℤ) (out : List ℤ)
    → IsWhole lane q count (i ∷ out)
    → count ≡ pos n
    → 0 < n
IsWhole-pos lane q count zero i out v e = absurd (
    cons-ne-nil i [] (
      Perm-nil (ids (lane.contents q)) (i ∷ []) out
        (IsWhole-ids {lane = lane} q count 0 {out = i ∷ out} v e)))
IsWhole-pos lane q count (suc n) i out v e = omega arith

module _ (lane : PQueue Partition) (fl : Floats) (settings : Settings fl) where
  open settings use {min_partitions}

  abbrev pub Keeps : Partitions lane → List ℤ → Type 0
  Keeps part out = IsWhole lane part.partitions part.partition_count out

  module _ (bounded : min_partitions ≤ℤ pos max_int64) where
    pub grow_or_refuse-Keeps :
        (w : Partition) (part : Partitions lane) {out : List ℤ}
        → Keeps part (w.id ∷ out)
        → let (r, part') = grow_or_refuse lane fl settings w part in
          Keeps part' (handed_position r ++ out)
    unfolding grow_or_refuse
    grow_or_refuse-Keeps w part v = elim (Bool-cases part.locked) [
      | inl e ↦ rw e (IsWhole-push part.partitions w _ v)
      | inr e ↦ rw e (elim (Bool-cases (ltb_ℤ part.partition_count min_partitions)) [
        | inl less ↦ rw less (
            IsWhole-grow _ part.partition_count min_partitions bounded less
              (IsWhole-push part.partitions w _ v))
        | inr full ↦ rw full (IsWhole-push part.partitions w _ v)
      ])
    ]

    position_of-Keeps :
        (now : Time) (o : Option Partition) (part : Partitions lane) (out : List ℤ)
        → Keeps part (popped o ++ out)
        → let (r, part') = position_of lane fl settings now o part in
          Keeps part' (handed_position r ++ out)
    unfolding position_of
    position_of-Keeps now none part out v = v
    position_of-Keeps now (some w) part out v =
        elim (Bool-cases (idle_for lane fl settings now w settings.visibility_timeout)) [
          | inl e ↦ rw e v
          | inr e ↦ rw e (grow_or_refuse-Keeps w part v)
        ]

    get_partition_position-Keeps :
        (now : Time) (part : Partitions lane) {out : List ℤ}
        → Keeps part out
        → let (r, part') = get_partition_position lane fl settings now part in
          Keeps part' (handed_position r ++ out)
    unfolding get_partition_position
    get_partition_position-Keeps now part v =
        position_of-Keeps now (lane.pop part.partitions).0 _ _ (IsWhole-pop part.partitions v)

    -- The total that is returned is the partition count after the call.
    position_total :
        (now : Time) (part : Partitions lane) (p : Position)
        → (get_partition_position lane fl settings now part).0 ≡ ok p
        → p.total_partitions ≡ (get_partition_position lane fl settings now part).1.partition_count
    unfolding get_partition_position
    position_total now part p e = ground arith

    range_of-Keeps :
        (bottom top : ℤ) (p : Position) (part : Partitions lane) (out : List ℤ)
        → p.total_partitions ≡ part.partition_count
        → Keeps part (handed_in p.err p.working ++ out)
        → Keeps part (handed (range_of lane fl settings bottom top p) ++ out)
    unfolding range_of
    range_of-Keeps bottom top p part out total v = elim (Bool-cases (is_zero p.total_partitions)) [
      | inl e ↦ rw e (subst (λ l. Keeps part (l ++ out)) (nothing e) v)
      | inr e ↦ rw e v
    ]
      where
        no_size : (n : ℕ) → is_zero (pos n) ≡ true → n ≡ 0
        no_size zero h = refl
        no_size (suc n) h = cc

        empty : is_zero p.total_partitions ≡ true → v.size ≡ 0
        empty e = no_size v.size (rw (total ∙ v.counted) at e)

        nothing : is_zero p.total_partitions ≡ true → handed_in p.err p.working ≡ []
        nothing e = Perm-nil _ _ out (rw (empty e) at v.whole)

    pub get_partition-Keeps :
        (list : Memberlist) (now : Time) (part : Partitions lane) (out : List ℤ)
        → Keeps part out
        → let (r, part') = get_partition lane fl settings list now part in
          Keeps part' (handed r ++ out)
    unfolding get_partition
    get_partition-Keeps list now part out v = elim (Outcome-cases (get_node_partition_range list)) [
      | inl (range, e) ↦ rw e (placed range)
      | inr (inl e) ↦ rw e v
      | inr (inr (inl e)) ↦ rw e v
      | inr (inr (inr e)) ↦ rw e v
    ]
      where
        placed :
            (range : ℤ × ℤ)
            → let (r, part') =
                (get_partition_position lane fl settings now >>= λ p part'.
                (range_of lane fl settings range.0 range.1 p, part'))
                  part in
              Keeps part' (handed r ++ out)
        placed range =
            let (r, part') = get_partition_position lane fl settings now part in
            let kept : Keeps part' (handed_position r ++ out) =
              get_partition_position-Keeps now part v in
            elim (Outcome-cases r) [
              | inl (p, e) ↦ rw e (
                  range_of-Keeps range.0 range.1 p part' out (position_total now part p e)
                    (rw e at kept))
              | inr (inl e) ↦ rw e (rw e at kept)
              | inr (inr (inl e)) ↦ rw e (rw e at kept)
              | inr (inr (inr e)) ↦ rw e (rw e at kept)
            ]

  pub push_partition-Keeps :
      (now : Time) (w : Partition) (used : Bool) (part : Partitions lane) (out : List ℤ)
      → Keeps part (w.id ∷ out)
      → Keeps (push_partition lane fl settings now w used part).1 out
  unfolding push_partition
  push_partition-Keeps now w true part out v = IsWhole-push part.partitions _ _ v
  push_partition-Keeps now w false part out v = IsWhole-push part.partitions _ _ v
