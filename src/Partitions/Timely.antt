-- ===== src/Partitions/Timely.antt =====
-- `getPartitionPosition` (app/partitions.go) over the histories of a queue's partitions.
use dynamiq.Prelude.{ℕ, ◌<◌, ◌≡◌, refl, List, [], ◌∷◌, Mem, false, All}
use dynamiq.Prelude.Int.{ℤ, pos, ltb_ℤ}
use dynamiq.Prelude.Int64.{half64}
use dynamiq.Lane.{PQueue}
use dynamiq.Clock.{Floats}
use dynamiq.Partitions.{Partition, Settings, get_partition_position}
use dynamiq.Partitions.Exclusive.{Node, Step, Reach, get, give_back, sync, here, next, new_node}
use dynamiq.Partitions.Timeout.{AllStamped, Answers, get_partition_position-Answers}
use dynamiq.Partitions.Stamps.{
  IsTimed, QueueIsStamped, IsStamped-at, earlier, get_partition-Stamped, push_partition-Stamped,
}
use dynamiq.Partitions.Aging.{init_partitions-Stamped, sync_partitions-Stamped}
use mathlib.Core.List.{mem-cons, mem-cons_self}
use mathlib.Core.Logic.Or

All-of_mem : {A : Type 0} {P : A → Type 0} (l : List A) → ((x : A) → Mem x l → P x) → All P l
All-of_mem [] h = tt
All-of_mem (x ∷ l) h = (h x mem-cons_self, All-of_mem l (λ y m. h y (mem-cons.1 (Or.inr m))))

module _ (lane : PQueue Partition) (fl : Floats) where
  -- A draw of the priorities of new partitions: numbers up to 99999.
  abbrev pub IsSmall : (ℤ → ℤ) → Type 0
  IsSmall random = (i : ℤ) → ltb_ℤ (pos 99999) (random i) ≡ false

  -- A step under a clock between the first 100 microseconds of 1970, a visibility timeout past
  -- them, and 2^63 nanoseconds.
  abbrev pub IsTimely : {n n' : Node lane fl} → Step lane fl n n' → Type 0
  IsTimely (get settings list now bounded) = Unit {0}
  IsTimely (give_back settings now w used rest p) =
      IsTimed now × IsTimed (earlier lane fl settings now)
  IsTimely (sync settings fuel now random bounded returned) = IsSmall random

  abbrev pub AllTimely : {s n : Node lane fl} → Reach lane fl s n → Type 0
  AllTimely here = Unit {0}
  AllTimely (next r step) = AllTimely r × IsTimely step

  NodeIsStamped : Node lane fl → Type 0
  NodeIsStamped n = QueueIsStamped lane n.part.partitions

  Step-NodeIsStamped :
      {n n' : Node lane fl} (step : Step lane fl n n')
      → IsTimely step
      → NodeIsStamped n
      → NodeIsStamped n'
  unfolding NodeIsStamped
  Step-NodeIsStamped {n} (get settings list now bounded) t h =
      get_partition-Stamped lane fl settings list now n.part h
  Step-NodeIsStamped {n} (give_back settings now w used rest p) t h =
      push_partition-Stamped lane fl settings now w used n.part t.0 t.1 h
  Step-NodeIsStamped {n} (sync settings fuel now random bounded returned) t h =
      sync_partitions-Stamped lane fl settings random t fuel now n.part h

  Reach-NodeIsStamped :
      {s n : Node lane fl} (r : Reach lane fl s n) → AllTimely r → NodeIsStamped s → NodeIsStamped n
  Reach-NodeIsStamped here t h = h
  Reach-NodeIsStamped (next r step) t h = Step-NodeIsStamped step t.1 (Reach-NodeIsStamped r t.0 h)

  -- Take any history as for the exclusive handouts, in which the priorities of new partitions are
  -- drawn as numbers up to 99999, and partitions are given back at times that, as they are and with
  -- the visibility timeout taken off, lie between 100 microseconds and 2^63 nanoseconds after the
  -- start of 1970 or are the zero time. Then every waiting partition is stamped with the time of
  -- its last use, or is new under a small number, and with a free mutex, a clock below 2^63
  -- nanoseconds and any settings `getPartitionPosition` answers in one of the four ways: the
  -- partition that has been idle the longest, if that is for more than the visibility timeout; a
  -- new one, where all that wait are in use and fewer than configured are there; `NoPartitions`
  -- where as many are there; and `NoPartitions` where none waits.
  pub get_partition_position-timely :
      (settings : Settings fl) (random : ℤ → ℤ) (n : Node lane fl)
      (r : Reach lane fl (new_node lane fl settings random) n) (now_settings : Settings fl)
      (clock : ℕ) (now : clock < half64)
      → IsSmall random
      → AllTimely r
      → n.part.locked ≡ false
      → (all : AllStamped lane fl now_settings n.part) × Answers lane fl now_settings n.part all
          clock now
          (get_partition_position lane fl now_settings (pos clock) n.part).0
  unfolding NodeIsStamped
  get_partition_position-timely settings random n r now_settings clock now small timely free =
      let h =
        Reach-NodeIsStamped r timely (init_partitions-Stamped lane fl settings random small) in
      let all =
        All-of_mem (lane.contents n.part.partitions)
          (λ e m. IsStamped-at e.0 e.0.last_used e.1 refl (h e m)) in
      (all, get_partition_position-Answers lane fl now_settings n.part all clock now free)
