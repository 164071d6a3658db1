-- ===== src/Registry.antt =====
-- Which queues there are: the set of known queues in Riak, and the queues in memory
-- (`InitializeQueue` and its helpers of app/config.go; `Exists`, `DeleteQueue`,
-- `initQueueFromRiak` and the synchronisation of one queue of app/queue.go).
pub mod Known
pub mod Created
use dynamiq.Prelude.{
  ℕ, Option, none, some, List, [], ◌∷◌, String, Bool, true, false, not, ◌||◌, str_eq, if◌then◌else◌,
}
use dynamiq.Prelude.Int.{ℤ}
use dynamiq.Prelude.Effects.{
  Outcome, ok, Action, returns, panics, gets, modify, continue, ◌>>=◌, ◌>>◌,
}
use dynamiq.Clock.{Time}
use dynamiq.Partitions.{init_partitions, no_partitions_yet, sync_partitions, Partitions}
use dynamiq.App.{Env, App, Queue, find_queue, insert, ask, tell, on_parts}
use dynamiq.Settings.{
  Method, configuration_bucket, queue_config_record_name, default_settings, settings,
}
use dynamiq.Messages.{partition_settings, with_queue}
use mathlib.Core.Option

abbrev pub queue_config_name : String
queue_config_name = "queue_config"

abbrev pub queue_set_name : String
queue_set_name = "queues"

-- Whether a name is in a list.
unfoldable pub listed : String → List String → Bool
listed name [] = false
listed name (value ∷ rest) = str_eq value name || listed name rest

abbrev pub values_of : Option (List String) → List String
values_of none = []
values_of (some values) = values

module _ (env : Env) where
  open env use {riak}

  -- A change of the set of known queues, in the map that Riak holds.
  unfoldable pub change_known_queues : (riak.RMap → riak.RMap) → Method env (Option String)
  change_known_queues change = do
    (bucket, _) ← ask env (riak.new_bucket_type "maps" configuration_bucket)
    (queue_config, _) ← ask env (riak.fetch_map bucket queue_config_name)
    (_, stored) ← tell env (riak.store_map (change queue_config))
    returns stored

  unfoldable pub add_to_known_queues : String → Method env (Option String)
  unfolding change_known_queues
  add_to_known_queues queue_name =
      change_known_queues (λ m. riak.add_to_set m queue_set_name queue_name)

  unfoldable pub remove_from_known_queues : String → Method env (Option String)
  unfolding change_known_queues
  remove_from_known_queues queue_name =
      change_known_queues (λ m. riak.remove_from_set m queue_set_name queue_name)

  unfoldable pub exists : String → Method env Bool
  unfolding listed
  exists queue_name = do
    (bucket, _) ← ask env (riak.new_bucket_type "maps" configuration_bucket)
    (m, _) ← ask env (riak.fetch_map bucket queue_config_name)
    returns (listed queue_name (values_of (riak.fetch_set m queue_set_name)))

  -- A set that is not there is a nil pointer.
  unfoldable pub remove_queue : String → riak.RMap → Option (List String) → Method env (Unit {0})
  remove_queue name config none = panics
  remove_queue name config (some _) = do
    tell env (riak.store_map (riak.remove_from_set config queue_set_name name))
    returns tt

  unfoldable pub delete_queue : String → Method env Bool
  unfolding remove_queue exists
  delete_queue name = do
    (bucket, _) ← ask env (riak.new_bucket_type "maps" configuration_bucket)
    (config, _) ← ask env (riak.fetch_map bucket queue_config_name)
    remove_queue name config (riak.fetch_set config queue_set_name)
    (bucket_config, _) ← ask env (riak.fetch_map bucket (queue_config_record_name name))
    tell env (riak.destroy_map bucket_config)
    there ← exists name
    returns (not there)

  -- The default values of the settings, in the registers of a map.
  abbrev with_defaults : List String → riak.RMap → riak.RMap
  with_defaults [] obj = obj
  with_defaults (elem ∷ rest) obj =
      with_defaults rest (riak.update_register obj elem (default_settings elem))

  unfoldable pub create_config_for_queue : String → Method env (riak.RMap × Option String)
  create_config_for_queue queue_name = do
    (bucket, _) ← ask env (riak.new_bucket_type "maps" configuration_bucket)
    (obj, _) ← ask env (riak.fetch_map bucket (queue_config_record_name queue_name))
    tell env (riak.store_map (with_defaults settings obj))

  -- `cfg.Queues.QueueMap[name] = queue`; there must be queues.
  abbrev pub queue_into :
      Option (List (String × Queue env)) → String → Queue env → Method env (Unit {0})
  queue_into none name queue app = panics app
  queue_into (some queues) name queue app =
      (ok tt, record app { queues = some (insert name queue queues) })

  unfoldable pub set_queue : String → Queue env → Method env (Unit {0})
  unfolding insert
  set_queue name queue app = queue_into app.queues name queue app

  -- `InitPartitions(cfg, name)`; `random` draws the priorities.
  unfoldable pub new_partitions : (ℤ → ℤ) → String → Method env (Partitions env.lane)
  unfolding partition_settings
  new_partitions random name = do
    read ← partition_settings env name
    λ app.
        let (r, parts) =
          init_partitions env.lane env.floats read random (no_partitions_yet env.lane) in
        continue r (λ _ state. (ok parts, state)) app

  unfoldable pub add_queue : (ℤ → ℤ) → String → riak.RMap → Method env (Unit {0})
  unfolding new_partitions set_queue
  add_queue random name config = do
    parts ← new_partitions random name
    set_queue name (record { name = name; parts = parts; config = config })

  -- What follows the creation of the configuration.
  unfoldable pub finish_queue :
      (ℤ → ℤ) → String → riak.RMap × Option String → Method env (Option String)
  unfolding add_to_known_queues add_queue
  finish_queue random queue_name (config_map, some e) = returns (some e)
  finish_queue random queue_name (config_map, none) = do
    known ← add_to_known_queues queue_name
    add_queue random queue_name config_map
    returns known

  unfoldable pub initialize_queue : (ℤ → ℤ) → String → Method env (Option String)
  unfolding create_config_for_queue finish_queue
  initialize_queue random queue_name = do
    created ← create_config_for_queue queue_name
    finish_queue random queue_name created

  unfoldable pub init_queue_from_riak : (ℤ → ℤ) → String → Method env (Unit {0})
  unfolding add_queue
  init_queue_from_riak random queue_name = do
    (bucket, _) ← ask env (riak.new_bucket_type "maps" configuration_bucket)
    (config, _) ← ask env (riak.fetch_map bucket (queue_config_record_name queue_name))
    add_queue random queue_name config

  -- `syncConfig` of one queue; `fuel` bounds the loops of its partitions.
  unfoldable pub sync_queue : ℕ → Time → (ℤ → ℤ) → String → Method env (Unit {0})
  unfolding with_queue set_queue partition_settings
  sync_queue fuel now random name = do
    (bucket, _) ← ask env (riak.new_bucket_type "maps" configuration_bucket)
    (config, _) ← ask env (riak.fetch_map bucket (queue_config_record_name name))
    with_queue env name (λ queue. set_queue name (record queue { config = config }))
    read ← partition_settings env name
    with_queue env name (λ queue.
        on_parts env name queue (sync_partitions env.lane env.floats read fuel now random))
