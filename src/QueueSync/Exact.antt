-- ===== src/QueueSync/Exact.antt =====
-- `syncConfig` of all queues (app/queue.go), from the names in Riak to the queues in memory.
use dynamiq.Prelude.{
  ℕ, ◌≡◌, refl, ap, ◌∙◌, none, some, List, [], ◌∷◌, String, false, ◌||◌, str_eq, inl, inr,
}
use dynamiq.Prelude.Int.{ℤ, pos, ◌≤ℤ◌}
use dynamiq.Prelude.Int64.{max_int64}
use dynamiq.Prelude.Effects.{Outcome, ok, panic, blocked, out_of_fuel, continue}
use dynamiq.Clock.{Time}
use dynamiq.Partitions.{Settings, sync_partitions}
use dynamiq.App.{
  Env, App, Queue, Topics, find_queue, insert, present, present-insert, present-lookup,
  lookup-insert_self, on_parts,
}
use dynamiq.Settings.{Method, configuration_bucket, queue_config_record_name}
use dynamiq.Messages.{with_queue-lookup}
use dynamiq.Registry.{listed, values_of, queue_config_name, queue_set_name, sync_queue, set_queue}
use dynamiq.Registry.Created.{partition_settings-Reads}
use dynamiq.Topics.{skips}
use dynamiq.QueueSync.{keys, sync_each_queue, sync_known, sync_queues}
use dynamiq.QueueSync.Reconciled.{in_memory, IsDetached, reconcile-Leaves, present_again}

module _ (env : Env) where
  open env use {riak, lane, floats}

  -- A method after which the queues in memory have the same names, however it ends.
  record KeepsNames (app : App env) (queues : List (String × Queue env))
      (r : Outcome (Unit {0}) × App env) : Type 0 where
    outcome : Outcome (Unit {0})
    after : List (String × Queue env)
    done : r ≡ (outcome, in_memory env app after)
    same : (name : String) → present name after ≡ present name queues

  module _ (fuel : ℕ) (now : Time) (random : ℤ → ℤ) where
    -- What `syncConfig` of a queue in memory does: it puts the queue back with its configuration,
    -- and then with the partitions that the synchronisation leaves.
    pub record Syncs (name : String) (app : App env) (queues : List (String × Queue env))
        (queue : Queue env) : Type 0 where
      pub config : riak.RMap
      pub read : Settings floats
      pub high : read.min_partitions ≤ℤ pos max_int64
      pub done :
          let (r, parts) = sync_partitions lane floats read fuel now random queue.parts in
          sync_queue env fuel now random name (in_memory env app queues) ≡ (
            r,
            in_memory env app (
                insert name
                  (record queue { config = config; parts = parts })
                  (insert name (record queue { config = config }) queues)),
          )

    pub sync_queue-Syncs :
        (name : String) (app : App env) (queues : List (String × Queue env)) (queue : Queue env)
        → find_queue env name (in_memory env app queues) ≡ some queue
        → Syncs name app queues queue
    unfolding sync_queue set_queue on_parts
    sync_queue-Syncs name app queues queue found =
        let bucket = (riak.new_bucket_type "maps" configuration_bucket app.server).0 in
        let config = (riak.fetch_map bucket (queue_config_record_name name) app.server).0 in
        let refresh : Queue env → Method env (Unit {0}) =
          λ q. set_queue env name (record q { config = config }) in
        let refreshed : Queue env = record queue { config = config } in
        let state : App env = in_memory env app (insert name refreshed queues) in
        let reads = partition_settings-Reads env name state in
        let resync : Queue env → Method env (Unit {0}) =
          λ q. on_parts env name q (sync_partitions lane floats reads.read fuel now random) in
        record {
          config = config;
          read = reads.read;
          high = reads.high;
          done =
              rw
                (
                  with_queue-lookup env name refresh (in_memory env app queues) found,
                  reads.answer,
                  with_queue-lookup env name resync state {found = some refreshed}
                      (unfold find_queue in lookup-insert_self name refreshed queues),
                )
                refl;
        }

    -- A queue that is not there is a nil pointer.
    pub sync_queue-absent :
        (name : String) (app : App env)
        → find_queue env name app ≡ none
        → sync_queue env fuel now random name app ≡ (panic, app)
    unfolding sync_queue
    sync_queue-absent name app absent =
        let bucket = (riak.new_bucket_type "maps" configuration_bucket app.server).0 in
        let config = (riak.fetch_map bucket (queue_config_record_name name) app.server).0 in
        let refresh : Queue env → Method env (Unit {0}) =
          λ q. set_queue env name (record q { config = config }) in
        rw (with_queue-lookup env name refresh app absent) refl

    sync_queue-KeepsNames :
        (name : String) (app : App env) (queues : List (String × Queue env))
        → KeepsNames app queues (sync_queue env fuel now random name (in_memory env app queues))
    unfolding find_queue
    sync_queue-KeepsNames name app queues = elim (present-lookup name queues) [
      | inl (absent, _) ↦ record {
        outcome = panic;
        after = queues;
        done = sync_queue-absent name (in_memory env app queues) absent;
        same = λ wanted. refl;
      }
      | inr (queue, found, there) ↦
          let syncs = sync_queue-Syncs name app queues queue found in
          record {
            outcome = _;
            after = _;
            done = syncs.done;
            same = λ wanted.
                present-insert name wanted _ (insert name _ queues)
                ∙ ap (λ b. str_eq name wanted || b)
                    (present-insert name wanted _ queues
                      ∙ present_again env name wanted queues there)
                ∙ present_again env name wanted queues there;
          }
    ]

    keeps :
        (outcome : Outcome (Unit {0})) (app : App env) (queues : List (String × Queue env))
        → KeepsNames app queues (outcome, in_memory env app queues)
    keeps outcome app queues = record {
      outcome = outcome;
      after = queues;
      done = refl;
      same = λ wanted. refl;
    }

    -- What follows runs only if the first one returned.
    continue-KeepsNames :
        (outcome : Outcome (Unit {0})) (next : Method env (Unit {0})) (app : App env)
        (queues : List (String × Queue env))
        → KeepsNames app queues (next (in_memory env app queues))
        → KeepsNames app queues (continue outcome (λ _. next) (in_memory env app queues))
    continue-KeepsNames (ok _) next app queues h = h
    continue-KeepsNames panic next app queues h = keeps panic app queues
    continue-KeepsNames blocked next app queues h = keeps blocked app queues
    continue-KeepsNames out_of_fuel next app queues h = keeps out_of_fuel app queues

    sync_each_queue-KeepsNames :
        (names : List String) (app : App env) (queues : List (String × Queue env))
        → KeepsNames app queues
            (sync_each_queue env fuel now random names (in_memory env app queues))
    unfolding sync_each_queue
    sync_each_queue-KeepsNames [] app queues = keeps (ok tt) app queues
    sync_each_queue-KeepsNames (name ∷ rest) app queues =
        let one = sync_queue-KeepsNames name app queues in
        let others =
          continue-KeepsNames one.outcome (sync_each_queue env fuel now random rest) app one.after
            (sync_each_queue-KeepsNames rest app one.after) in
        record {
          outcome = others.outcome;
          after = others.after;
          done = rw one.done others.done;
          same = λ wanted. others.same wanted ∙ one.same wanted;
        }

    module _ (app : App env) (queues : List (String × Queue env)) (topics : Topics env)
        (first : String) (rest : List String)
        (detached : (queue : String)
          → listed queue (first ∷ rest) ≡ false
          → IsDetached env queue topics.topic_map) where
      sync_known-listed :
          app.topics ≡ some topics
          → (after : List (String × Queue env)) × ((sync_known env fuel now random
                (first ∷ rest)
                (in_memory env app queues)).1.queues
              ≡ some after)
            × ((name : String) → present name after ≡ listed name (first ∷ rest))
      unfolding sync_known
      sync_known-listed known =
          let left = reconcile-Leaves env topics (first ∷ rest) detached random app queues known in
          let kept = sync_each_queue-KeepsNames (keys env left.queues) app left.queues in
          (kept.after, rw (left.done, kept.done) refl, λ name. kept.same name ∙ left.exactly name)

      -- Where the queues and the topics are in memory, the bucket is found, the map of known queues
      -- is read or not there, the set of known queues is not empty, and no topic in memory lists a
      -- queue that is not known, the synchronisation of all queues leaves in memory a map with
      -- exactly the names that are known in Riak, however the synchronisation of the single queues
      -- behind it ends.
      pub sync_queues-listed :
          app.queues ≡ some queues
          → app.topics ≡ some topics
          → (let (bucket, err) = riak.new_bucket_type "maps" configuration_bucket app.server in
              let (config, failed) = riak.fetch_map bucket queue_config_name app.server in
              (err ≡ none)
              × (skips env failed ≡ false)
              × (values_of (riak.fetch_set config queue_set_name) ≡ first ∷ rest))
          → let (_, app') = sync_queues env fuel now random app in
            (after : List (String × Queue env)) × (app'.queues ≡ some after)
            × ((name : String) → present name after ≡ listed name (first ∷ rest))
      unfolding sync_queues
      sync_queues-listed there known found =
          let (after, ran, exact) = sync_known-listed known in
          let same : app ≡ in_memory env app queues = ap (λ o. record app { queues = o }) there in
          (
            after,
            rw (found.0, found.1, found.2) refl
                ∙ ap (λ s. (sync_known env fuel now random (first ∷ rest) s).1.queues) same
                ∙ ran,
            exact,
          )
