-- ===== src/System/Unlocked.antt =====
-- The mutex of a queue over `Get` of app/queue.go: `Get` finds it free, or finds no partition, and
-- in both cases it does not wait.
use dynamiq.Prelude.{
  ◌≡◌, refl, sym, ◌∙◌, List, [], String, Option, none, some, Bool, false, Option-cases, inl, inr,
  if◌then◌else◌,
}
use dynamiq.Prelude.Int.{ℤ}
use dynamiq.Prelude.Effects.{Outcome, ok, panic, blocked, out_of_fuel, Action, Stuck, continue}
use dynamiq.Clock.{Time}
use dynamiq.Nodes.{Memberlist}
use dynamiq.Partitions.{Partition, Partitions, Handout, get_partition, no_partitions}
use dynamiq.Partitions.Free.{
  IsFree, Freed, get_partition-Freed, push_partition-Freed, get_partition-GivesNone,
}
use dynamiq.App.{Env, App, Queue, find_queue, on_parts}
use dynamiq.Settings.Stored.{find_queue-queues}
use dynamiq.Messages.{
  Arrivals, get, serve_partition, push_back, with_queue, with_queue-lookup, is_nil,
}
use dynamiq.Messages.Serving.{on_parts-found}
use dynamiq.Registry.Created.{partition_settings-Reads}
use dynamiq.System.Keeps.{Keeps}
use dynamiq.System.Keeps.Settings.{setting_rules}
use dynamiq.System.Keeps.Messages.{retrieve_messages-Keeps}

module _ (env : Env) (name : String) where
  open env use {riak, lane, floats}

  -- If the queue is in memory, its mutex is free.
  pub record Unlocked (app : App env) : Type 0 where
    pub unlocked :
        (queue : Queue env) → find_queue env name app ≡ some queue → queue.parts.locked ≡ false

  Unlocked-queues : (app app' : App env) → app'.queues ≡ app.queues → Unlocked app → Unlocked app'
  Unlocked-queues app app' e h = record {
    unlocked =
        λ queue found. h.unlocked queue (find_queue-queues env name app app' (sym e) ∙ found);
  }

  part_method-Keeps :
      {A : Type 0} (method : Action (Partitions lane) A)
      → ((part : Partitions lane) → part.locked ≡ false → Freed lane (method part))
      → Keeps Unlocked ⊥ (with_queue env name (λ queue. on_parts env name queue method))
  unfolding on_parts
  part_method-Keeps {A} method freed = record {
    at = λ app h. elim (Option-cases (find_queue env name app)) [
      | inl absent ↦ rw (with_queue-lookup env name run app absent) h
      | inr (queue, found) ↦ rw (with_queue-lookup env name run app found) (record {
        unlocked = λ after is_found.
            let same : some (record queue { parts = (method queue.parts).1 }) ≡ some after =
              sym (on_parts-found env name queue method app found) ∙ is_found in
            let is_it : record queue { parts = (method queue.parts).1 } ≡ after = cc same in
            rw (← is_it) ((freed queue.parts (h.unlocked queue found)).0);
      })
    ];
    stuck = λ app h waits. elim (Option-cases (find_queue env name app)) [
      | inl absent ↦ absurd (rw (with_queue-lookup env name run app absent) at waits)
      | inr (queue, found) ↦
          (freed queue.parts (h.unlocked queue found)).1
            (rw (with_queue-lookup env name run app found) at waits)
    ];
  }
    where
      run : Queue env → Action (App env) A
      run = λ queue. on_parts env name queue method

  ruleset rules =
      (setting_rules, part_method-Keeps, Unlocked-queues, push_partition-Freed, get_partition-Freed)

  push_back-Keeps :
      (now : Time) (o : Option Partition) (used : Bool)
      → Keeps Unlocked ⊥ (push_back env name now o used)
  unfolding push_back
  push_back-Keeps now none used = search rules
  push_back-Keeps now (some w) used = search rules depth 7

  serve_partition-Keeps :
      (list : Memberlist) (later : Time) (arrive : List String → Arrivals) (size : ℤ)
      (bucket : riak.Bucket) (handout : Handout)
      → Keeps Unlocked ⊥ (serve_partition env name list later arrive size bucket handout)
  unfolding serve_partition
  serve_partition-Keeps list later arrive size bucket handout =
      search (rules, push_back-Keeps, retrieve_messages-Keeps) depth 12

  module _ (list : Memberlist) (now later : Time) (arrive : List String → Arrivals) (size : ℤ) where
    pub get-Keeps-Unlocked : Keeps Unlocked ⊥ (get env name list now later arrive size)
    unfolding get
    get-Keeps-Unlocked = search (rules, serve_partition-Keeps) depth 12

    -- A run that is not stuck, after which nothing waits in the queue.
    record StaysEmpty {A : Type 0} (r : Outcome A × App env) : Type 0 where
      queue : Queue env
      found : find_queue env name r.1 ≡ some queue
      empty : lane.contents queue.parts.partitions ≡ []
      runs : Stuck r.0 → ⊥

    continue-StaysEmpty :
        (bucket : riak.Bucket) (taken : Outcome Handout) (app : App env) (queue : Queue env)
        → find_queue env name app ≡ some queue
        → lane.contents queue.parts.partitions ≡ []
        → (Stuck taken → ⊥)
        → ((handout : Handout) → taken ≡ ok handout → handout.err ≡ some no_partitions)
        → StaysEmpty (
            continue taken
              (λ handout.
                if is_nil env handout.err
                then serve_partition env name list later arrive size bucket handout
                else (λ s. (ok ([], handout.err), s)))
              app)
    continue-StaysEmpty bucket (ok handout) app queue found empty runs refused =
        rw (refused handout refl)
          (record { queue = queue; found = found; empty = empty; runs = λ waits. waits })
    continue-StaysEmpty bucket panic app queue found empty runs refused = record {
      queue = queue;
      found = found;
      empty = empty;
      runs = λ waits. waits;
    }
    continue-StaysEmpty bucket blocked app queue found empty runs refused = absurd (runs tt)
    continue-StaysEmpty bucket out_of_fuel app queue found empty runs refused = absurd (runs tt)

    get-StaysEmpty :
        (app : App env) (queue : Queue env)
        → find_queue env name app ≡ some queue
        → lane.contents queue.parts.partitions ≡ []
        → StaysEmpty (get env name list now later arrive size app)
    unfolding get on_parts
    get-StaysEmpty app queue found empty =
        let reads = partition_settings-Reads env name app in
        let take = get_partition lane floats reads.read list now in
        let none_taken =
          get_partition-GivesNone lane floats reads.read list now queue.parts empty in
        let take_from = λ (queue : Queue env). on_parts env name queue take in
        elim (Option-cases (riak.new_bucket_type "messages" name app.server).1) [
          | inr (text, e) ↦
              rw e (record { queue = queue; found = found; empty = empty; runs = λ waits. waits })
          | inl e ↦
              rw (e, reads.answer, with_queue-lookup env name take_from app found)
                (continue-StaysEmpty (riak.new_bucket_type "messages" name app.server).0
                  (take queue.parts).0 (on_parts env name queue take app).1
                  (record queue { parts = (take queue.parts).1 })
                  (on_parts-found env name queue take app found) none_taken.empty none_taken.runs
                  none_taken.refused)
        ]

    found-is :
        (app : App env) (queue after : Queue env)
        → find_queue env name app ≡ some queue
        → find_queue env name app ≡ some after
        → queue ≡ after
    found-is app queue after found again =
        let same : some queue ≡ some after = sym found ∙ again in cc same

    -- Where the mutex is free or no partition waits, `Get` does not wait, and leaves it so.
    pub get-IsFree :
        (app : App env) (queue : Queue env)
        → find_queue env name app ≡ some queue
        → IsFree lane queue.parts
        → let (r, app') = get env name list now later arrive size app in
          (Stuck r → ⊥)
          × ((after : Queue env) → find_queue env name app' ≡ some after → IsFree lane after.parts)
    get-IsFree app queue found (inl free) =
        let start : Unlocked app = record {
          unlocked = λ again is_found. rw (← found-is app queue again found is_found) free;
        } in
        (
          get-Keeps-Unlocked.stuck app start,
          λ after is_found. inl ((get-Keeps-Unlocked.at app start).unlocked after is_found),
        )
    get-IsFree app queue found (inr empty) =
        let stays = get-StaysEmpty app queue found empty in
        (
          stays.runs,
          λ after is_found.
              inr (rw (← found-is _ stays.queue after stays.found is_found) stays.empty),
        )
