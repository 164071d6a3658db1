-- ===== src/QueueSync.antt =====
-- The queues in memory and the set of known queues in Riak: `loadQueuesConfig` of app/config.go, and
-- `syncConfig` of all queues of app/queue.go. A map of Go is gone through in the order of its
-- association list. The map `queues.Config` is read only where it was just fetched.
pub mod Reconciled
pub mod Exact
pub mod Loaded
use dynamiq.Prelude.{
  ℕ, Option, none, some, List, [], ◌∷◌, map, String, Bool, true, false, not, str_eq, if◌then◌else◌,
}
use dynamiq.Prelude.Int.{ℤ}
use dynamiq.Prelude.Effects.{Outcome, ok, Action, returns, panics, when, continue, ◌>>=◌, ◌>>◌}
use dynamiq.Clock.{Time}
use dynamiq.App.{Env, App, Queue, insert, delete_key, present, ask}
use dynamiq.Settings.{Method, on_pointer, configuration_bucket, queue_config_record_name}
use dynamiq.Messages.{is_nil}
use dynamiq.Registry.{
  listed, values_of, queue_config_name, queue_set_name, new_partitions, init_queue_from_riak,
  sync_queue,
}
use dynamiq.Topics.{queue_present, list_queues, unsubscribe, with_topics, skips}

module _ (env : Env) where
  open env use {riak}

  -- The names of a map.
  abbrev pub keys {ℓ} : {V : Type ℓ} → List (String × V) → List String
  keys [] = []
  keys ((name, _) ∷ rest) = name ∷ keys rest

  -- The loop of `loadQueuesConfig`; `random` draws the priorities of the partitions.
  unfoldable pub load_each :
      (ℤ → ℤ)
      → riak.Bucket
      → List String
      → List (String × Queue env)
      → Method env (List (String × Queue env))
  unfolding new_partitions insert
  load_each random bucket [] loaded = returns loaded
  load_each random bucket (name ∷ rest) loaded = do
    (config, _) ← ask env (riak.fetch_map bucket (queue_config_record_name name))
    parts ← new_partitions env random name
    load_each random bucket rest
        (insert name (record { name = name; parts = parts; config = config }) loaded)

  -- `cfg.Queues = loadQueuesConfig(&cfg)`. The errors are only logged: what was returned with them
  -- is used. A set that `AddSet` returns is never nil.
  unfoldable pub load_queues : (ℤ → ℤ) → Method env (Unit {0})
  unfolding load_each
  load_queues random = do
    (bucket, _) ← ask env (riak.new_bucket_type "maps" configuration_bucket)
    on_pointer env (riak.nil_bucket bucket) (do
      (config, _) ← ask env (riak.fetch_map bucket queue_config_name)
      on_pointer env (riak.nil_map config) (do
        loaded ← load_each random bucket (values_of (riak.fetch_set config queue_set_name)) []
        λ app. (ok tt, record app { queues = some loaded })))

  unfoldable pub init_queue_if_missing : (ℤ → ℤ) → String → Method env (Unit {0})
  unfolding queue_present init_queue_from_riak
  init_queue_if_missing random name = do
    there ← queue_present env name
    when (not there) (init_queue_from_riak env random name)

  unfoldable pub init_missing_queues : (ℤ → ℤ) → List String → Method env (Unit {0})
  unfolding init_queue_if_missing
  init_missing_queues random [] = returns tt
  init_missing_queues random (name ∷ rest) = do
    init_queue_if_missing random name
    init_missing_queues random rest

  -- `for topicQueue in topicQueueList { if topicQueue == queue { DeleteQueue(queue) } }`
  unfoldable pub unsubscribe_each : String → String → List String → Method env (Unit {0})
  unfolding unsubscribe
  unsubscribe_each queue topic [] = returns tt
  unsubscribe_each queue topic (topic_queue ∷ rest) = do
    when (str_eq topic_queue queue) (unsubscribe env topic queue)
    unsubscribe_each queue topic rest

  unfoldable pub detach_each : String → List String → Method env (Unit {0})
  unfolding unsubscribe_each list_queues
  detach_each queue [] = returns tt
  detach_each queue (topic ∷ rest) = do
    topic_queue_list ← list_queues env topic
    unsubscribe_each queue topic topic_queue_list
    detach_each queue rest

  -- `delete(queues.QueueMap, queue)`
  abbrev pub queues_without : Option (List (String × Queue env)) → String → Method env (Unit {0})
  queues_without none queue app = panics app
  queues_without (some queues) queue app =
      (ok tt, record app { queues = some (delete_key queue queues) })

  -- A queue that is no longer known leaves the topics and the memory.
  unfoldable pub drop_queue : String → Method env (Unit {0})
  unfolding detach_each delete_key
  drop_queue queue = do
    with_topics env (λ topics. detach_each queue (keys topics.topic_map))
    λ app. queues_without app.queues queue app

  unfoldable pub drop_unlisted : List String → List String → Method env (Unit {0})
  unfolding drop_queue listed
  drop_unlisted names [] = returns tt
  drop_unlisted names (queue ∷ rest) = do
    when (not (listed queue names)) (drop_queue queue)
    drop_unlisted names rest

  unfoldable pub sync_each_queue : ℕ → Time → (ℤ → ℤ) → List String → Method env (Unit {0})
  unfolding sync_queue
  sync_each_queue fuel now random [] = returns tt
  sync_each_queue fuel now random (name ∷ rest) = do
    sync_queue env fuel now random name
    sync_each_queue fuel now random rest

  -- A loop over the names of the queues in memory.
  abbrev pub over_queues :
      Option (List (String × Queue env))
      → (List String → Method env (Unit {0}))
      → Method env (Unit {0})
  over_queues none loop = panics
  over_queues (some queues) loop = loop (keys queues)

  -- Makes the queues in memory those of the names.
  unfoldable pub reconcile : (ℤ → ℤ) → List String → Method env (Unit {0})
  unfolding init_missing_queues drop_unlisted
  reconcile random names = do
    init_missing_queues random names
    λ app. over_queues app.queues (drop_unlisted names) app

  -- From the names in Riak on. An empty set has a nil slice.
  unfoldable pub sync_known : ℕ → Time → (ℤ → ℤ) → List String → Method env (Unit {0})
  unfolding reconcile sync_each_queue
  sync_known fuel now random [] = returns tt
  sync_known fuel now random (first ∷ rest) = do
    reconcile random (first ∷ rest)
    λ app. over_queues app.queues (sync_each_queue fuel now random) app

  unfoldable pub sync_queues : ℕ → Time → (ℤ → ℤ) → Method env (Unit {0})
  unfolding sync_known skips
  sync_queues fuel now random = do
    (bucket, err) ← ask env (riak.new_bucket_type "maps" configuration_bucket)
    if is_nil env err
        then (do
          (queues_config, failed) ← ask env (riak.fetch_map bucket queue_config_name)
          if skips env failed
              then returns tt
              else sync_known fuel now random
                  (values_of (riak.fetch_set queues_config queue_set_name)))
        else returns tt
