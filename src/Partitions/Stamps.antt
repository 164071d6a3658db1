-- ===== src/Partitions/Stamps.antt =====
-- The times under which partitions wait (app/partitions.go), over the histories of a queue.
use dynamiq.Prelude.{
  ◌≡◌, refl, sym, ap, ◌∙◌, subst, inl, inr, Mem, Bool, true, false, not, ◌&&◌, Option, none, some,
  arith, ltb, leb, ◌==◌, Bool-cases,
}
use dynamiq.Prelude.Int.{ℤ, pos, negsuc, ltb_ℤ, ◌+ℤ◌}
use dynamiq.Prelude.Int64.{half64, int64, sub64, mul64}
use dynamiq.Prelude.Effects.{Outcome-cases}
use dynamiq.Lane.{PQueue}
use dynamiq.Clock.{Floats, Time, unix_nano, second}
use dynamiq.Nodes.{Memberlist, get_node_partition_range}
use dynamiq.Partitions.{
  Partition, Settings, Partitions, get_partition, get_partition_position, position_of,
  grow_or_refuse, idle_for, push_partition,
}
use dynamiq.Partitions.Whole.{nil-cases}
use dynamiq.Partitions.Timeout.{IsStamped, used, unused}
use mathlib.Core.List.{mem-cons, mem-cons_self, not-mem-nil}
use mathlib.Core.List.Perm
use mathlib.Core.Logic.Or

-- Whether a partition waits under the time of its last use, after the first 100 microseconds of
-- 1970, or is new and waits under a small number.
unfoldable pub stamped_at : Time → ℤ → Bool
stamped_at (pos t) (pos p) = (t == p) && (leb 100000 t && ltb t half64)
stamped_at (pos t) (negsuc p) = false
stamped_at (negsuc t) p = (t == 62135596799999999999) && not (ltb_ℤ (pos 99999) p)

abbrev pub stamped : Partition × ℤ → Bool
stamped e = stamped_at e.0.last_used e.1

pub IsStamped-at :
    (w : Partition) (t : Time) (p : ℤ) → w.last_used ≡ t → stamped_at t p ≡ true → IsStamped (w, p)
unfolding stamped_at
IsStamped-at w (pos t) (pos p) e h =
    used t e (ap pos (ground (arith, h))) (ground (arith, h)) (ground (arith, h))
IsStamped-at w (pos t) (negsuc p) e h = cc
IsStamped-at w (negsuc t) p e h = unused (e ∙ ap negsuc (ground (arith, h))) (ground (arith, h))

Bool_prop : {b : Bool} → IsProp (b ≡ true)
Bool_prop = hlevel

some-injective : {A : Type 0} {a b : A} → some a ≡ some b → a ≡ b
some-injective h = cc

-- A partition that would be stamped under the time of its last use.
abbrev pub IsTimed : Time → Type 0
IsTimed t = stamped_at t (unix_nano t) ≡ true

IsTimed-stamped : (t : Time) (p : ℤ) → stamped_at t p ≡ true → IsTimed t
unfolding stamped_at unix_nano int64
IsTimed-stamped (pos t) (pos p) h = ground (arith, h)
IsTimed-stamped (pos t) (negsuc p) h = cc
IsTimed-stamped (negsuc t) p h = let at : t ≡ 62135596799999999999 = ground (arith, h) in rw at refl

module _ (lane : PQueue Partition) where
  -- Every partition that waits is stamped.
  abbrev pub QueueIsStamped : lane.Queue → Type 0
  QueueIsStamped q = (e : Partition × ℤ) → Mem e (lane.contents q) → stamped e ≡ true

  pub QueueIsStamped-push :
      (q : lane.Queue) (w : Partition) (p : ℤ)
      → QueueIsStamped q
      → stamped_at w.last_used p ≡ true
      → QueueIsStamped (lane.push q w p)
  QueueIsStamped-push q w p h s e m =
      Or.elim Bool_prop (mem-cons.0 ((Perm.mem_iff (lane.contents-push q w p)).0 m))
        (λ same. subst (λ x. stamped x ≡ true) (sym same) s) (λ before. h e before)

  -- What a pop leaves and what it takes.
  pub record Pops (r : Option Partition × lane.Queue) : Type 0 where
    pub rest : QueueIsStamped r.1
    pub taken : (w : Partition) → r.0 ≡ some w → IsTimed w.last_used

  pub QueueIsStamped-pop : (q : lane.Queue) → QueueIsStamped q → Pops (lane.pop q)
  QueueIsStamped-pop q h = elim (nil-cases (lane.contents q)) [
    | inl e ↦
        let (returned, left) = lane.pop_empty q e in
        record { rest = λ x m. absurd (not-mem-nil (rw left at m)); taken = λ w f. cc }
    | inr e ↦
        let pops = lane.pop_least q e in
        record {
          rest = λ x m. h x ((Perm.mem_iff pops.removed).1 (mem-cons.1 (Or.inr m)));
          taken = λ w f.
              subst (λ v. IsTimed v.last_used) (some-injective (sym pops.returned ∙ f))
                (IsTimed-stamped pops.value.last_used pops.priority
                  (h (pops.value, pops.priority) ((Perm.mem_iff pops.removed).1 mem-cons_self)));
        }
  ]

module _ (lane : PQueue Partition) (fl : Floats) (settings : Settings fl) where
  abbrev pub Stamped : Partitions lane → Type 0
  Stamped part = QueueIsStamped lane part.partitions

  grow_or_refuse-Stamped :
      (w : Partition) (part : Partitions lane)
      → Stamped part
      → IsTimed w.last_used
      → Stamped (grow_or_refuse lane fl settings w part).1
  unfolding grow_or_refuse
  grow_or_refuse-Stamped w part h t = elim (Bool-cases part.locked) [
    | inl e ↦ rw e (QueueIsStamped-push lane part.partitions w _ h t)
    | inr e ↦ rw e (elim (Bool-cases (ltb_ℤ part.partition_count settings.min_partitions)) [
      | inl less ↦ rw less (QueueIsStamped-push lane part.partitions w _ h t)
      | inr full ↦ rw full (QueueIsStamped-push lane part.partitions w _ h t)
    ])
  ]

  position_of-Stamped :
      (now : Time) (o : Option Partition) (part : Partitions lane)
      → Stamped part
      → ((w : Partition) → o ≡ some w → IsTimed w.last_used)
      → Stamped (position_of lane fl settings now o part).1
  unfolding position_of
  position_of-Stamped now none part h t = h
  position_of-Stamped now (some w) part h t =
      elim (Bool-cases (idle_for lane fl settings now w settings.visibility_timeout)) [
        | inl e ↦ rw e h
        | inr e ↦ rw e (grow_or_refuse-Stamped w part h (t w refl))
      ]

  get_partition_position-Stamped :
      (now : Time) (part : Partitions lane)
      → Stamped part
      → Stamped (get_partition_position lane fl settings now part).1
  unfolding get_partition_position
  get_partition_position-Stamped now part h =
      let pops = QueueIsStamped-pop lane part.partitions h in
      position_of-Stamped now (lane.pop part.partitions).0 _ pops.rest pops.taken

  pub get_partition-Stamped :
      (list : Memberlist) (now : Time) (part : Partitions lane)
      → Stamped part
      → Stamped (get_partition lane fl settings list now part).1
  unfolding get_partition
  get_partition-Stamped list now part h =
      let placed = get_partition_position-Stamped now part h in
      elim (Outcome-cases (get_node_partition_range list)) [
        | inl (range, e) ↦
            rw e (elim (Outcome-cases (get_partition_position lane fl settings now part).0) [
              | inl (p, f) ↦ rw f placed
              | inr (inl f) ↦ rw f placed
              | inr (inr (inl f)) ↦ rw f placed
              | inr (inr (inr f)) ↦ rw f placed
            ])
        | inr (inl e) ↦ rw e h
        | inr (inr (inl e)) ↦ rw e h
        | inr (inr (inr e)) ↦ rw e h
      ]

  -- The time under which a partition that had no messages is given back.
  abbrev pub earlier : Time → Time
  earlier now = now +ℤ sub64 (pos 0) (mul64 (fl.to_int settings.visibility_timeout) second)

  pub push_partition-Stamped :
      (now : Time) (w : Partition) (used : Bool) (part : Partitions lane)
      → IsTimed now
      → IsTimed (earlier now)
      → Stamped part
      → Stamped (push_partition lane fl settings now w used part).1
  unfolding push_partition
  push_partition-Stamped now w true part t t' h = QueueIsStamped-push lane part.partitions _ _ h t
  push_partition-Stamped now w false part t t' h = QueueIsStamped-push lane part.partitions _ _ h t'
