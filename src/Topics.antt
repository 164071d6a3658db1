-- ===== src/Topics.antt =====
-- The topics (app/topic.go): the queues that subscribe to each, the messages that are broadcast to
-- them, and the synchronisation of the topics in memory with Riak. A topic is the entry of its name
-- in memory; a map of Go is gone through in the order of its association list.
pub mod Found
pub mod Synced
pub mod Subscribers
pub mod Broadcasting
pub mod Deletion
use dynamiq.Prelude.{
  Option, none, some, List, [], ◌∷◌, String, Bool, true, false, not, str_eq, if◌then◌else◌,
}
use dynamiq.Prelude.Effects.{
  Outcome, ok, blocked, Action, returns, panics, gets, when, continue, ◌>>=◌, ◌>>◌,
}
use dynamiq.Riak.{Bytes}
use dynamiq.App.{Env, App, Topic, Topics, Queue, lookup, insert, delete_key, present, ask, tell}
use dynamiq.Settings.{Method, on_pointer, configuration_bucket}
use dynamiq.Messages.{put, is_nil}
use dynamiq.Registry.{listed, values_of}
use Prim.Native.String.{◌++◌}

-- The texts that the source writes at the places where it needs them.
abbrev pub topics_config_name : String
topics_config_name = "topicsConfig"

abbrev pub topic_set_name : String
topic_set_name = "topics"

abbrev pub subscriber_set_name : String
subscriber_set_name = "queues"

unfoldable pub topic_config_record_name : String → String
topic_config_record_name topic_name = "topic_" ++ (topic_name ++ "_config")

module _ (env : Env) where
  open env use {riak}

  -- A method of the topics; before `InitTopics` they are a nil pointer.
  abbrev pub topics_in :
      {A : Type 0} → Option (Topics env) → (Topics env → Method env A) → Method env A
  topics_in none method = panics
  topics_in (some topics) method = method topics

  abbrev pub with_topics : {A : Type 0} → (Topics env → Method env A) → Method env A
  with_topics method app = topics_in app.topics method app

  abbrev pub set_topics : Topics env → Method env (Unit {0})
  set_topics topics app = (ok tt, record app { topics = some topics })

  -- `topics.TopicMap[name] = topic`
  unfoldable pub set_topic : Topic env → Method env (Unit {0})
  unfolding insert
  set_topic topic = with_topics (λ topics.
      set_topics (record topics { topic_map = insert topic.name topic topics.topic_map }))

  -- `topics.Lock()` and `topics.Unlock()`. Nothing that a request or a tick calls takes the mutex
  -- for reading.
  unfoldable pub lock_topics : Method env (Unit {0})
  lock_topics app =
      if app.topics_locked then (blocked, app) else (ok tt, record app { topics_locked = true })

  unfoldable pub unlock_topics : Method env (Unit {0})
  unlock_topics app = (ok tt, record app { topics_locked = false })

  -- `topics.updateConfig(config)`
  unfoldable pub update_config : riak.RMap → Method env (Unit {0})
  unfolding lock_topics unlock_topics
  update_config config =
      with_topics
        (λ topics. do lock_topics; set_topics (record topics { config = config }); unlock_topics)

  abbrev pub method_of :
      {A : Type 0} → Option (Topic env) → (Topic env → Method env A) → Method env A
  method_of none method = panics
  method_of (some topic) method = method topic

  -- A method of the topic of a name; a topic that is not there is a nil pointer.
  unfoldable pub with_topic : {A : Type 0} → String → (Topic env → Method env A) → Method env A
  unfolding lookup
  with_topic name method = with_topics (λ topics. method_of (lookup name topics.topic_map) method)

  -- Adds the default topic to a map that has no set of topics.
  abbrev pub with_default : riak.RMap → Option (List String) → Method env riak.RMap
  with_default config none = do
    (stored, _) ← tell env (riak.store_map (riak.add_to_set config topic_set_name "default_topic"))
    returns stored
  with_default config (some _) = returns config

  unfoldable pub init_topics : Method env (Unit {0})
  init_topics = do
    (bucket, _) ← ask env (riak.new_bucket_type "maps" "config")
    on_pointer env (riak.nil_bucket bucket) (do
      (fetched, _) ← ask env (riak.fetch_map bucket topics_config_name)
      on_pointer env (riak.nil_map fetched) (do
        config ← with_default fetched (riak.fetch_set fetched topic_set_name)
        set_topics (record { config = config; topic_map = [] })))

  -- Adds a topic to the map that lists them. A set that is not there is a nil pointer.
  unfoldable pub add_to_topics : String → riak.RMap → Option (List String) → Method env (Unit {0})
  add_to_topics name config none = panics
  add_to_topics name config (some _) = do
    (stored, _) ← tell env (riak.store_map (riak.add_to_set config topic_set_name name))
    with_topics (λ topics. set_topics (record topics { config = stored }))

  unfoldable pub init_topic : String → Method env (Unit {0})
  unfolding set_topic add_to_topics
  init_topic name = do
    (bucket, _) ← ask env (riak.new_bucket_type "maps" configuration_bucket)
    (config, _) ← ask env (riak.fetch_map bucket (topic_config_record_name name))
    set_topic (record { name = name; config = config })
    (stored, _) ← tell env (riak.store_map config)
    set_topic (record { name = name; config = stored })
    with_topics
        (λ topics. add_to_topics name topics.config (riak.fetch_set topics.config topic_set_name))

  -- `_, present = topic.queues.QueueMap[queue]`
  abbrev pub queue_in : Option (List (String × Queue env)) → String → Method env Bool
  queue_in none queue = panics
  queue_in (some queues) queue = returns (present queue queues)

  unfoldable pub queue_present : String → Method env Bool
  unfolding present
  queue_present queue app = queue_in app.queues queue app

  -- One round of the loop of `Broadcast`.
  unfoldable pub put_if :
      Bool → String → Bytes → List (String × String) → Method env (List (String × String))
  unfolding put insert
  put_if false queue message writes = returns writes
  put_if true queue message writes = do
    uuid ← put env queue message
    returns (insert queue uuid writes)

  unfoldable pub broadcast_to :
      List String → Bytes → List (String × String) → Method env (List (String × String))
  unfolding queue_present put_if
  broadcast_to [] message writes = returns writes
  broadcast_to (queue ∷ rest) message writes = do
    there ← queue_present queue
    written ← put_if there queue message writes
    broadcast_to rest message written

  unfoldable pub broadcast : String → Bytes → Method env (List (String × String))
  unfolding with_topic broadcast_to
  broadcast name message = with_topic name (λ topic.
      broadcast_to (values_of (riak.fetch_set topic.config subscriber_set_name)) message [])

  unfoldable pub list_queues : String → Method env (List String)
  unfolding with_topic
  list_queues name =
      with_topic name
        (λ topic. returns (values_of (riak.fetch_set topic.config subscriber_set_name)))

  -- `topic.Config, err = bucket.FetchMap(recordName)`
  unfoldable pub refetch : String → riak.Bucket → Method env riak.RMap
  unfolding set_topic
  refetch name bucket = do
    (config, _) ← ask env (riak.fetch_map bucket (topic_config_record_name name))
    set_topic (record { name = name; config = config })
    returns config

  unfoldable pub subscribe : String → String → Method env (Unit {0})
  unfolding with_topic refetch
  subscribe name queue = with_topic name (λ _. do
    (bucket, _) ← ask env (riak.new_bucket_type "maps" configuration_bucket)
    config ← refetch name bucket
    tell env (riak.store_map (riak.add_to_set config subscriber_set_name queue))
    refetch name bucket
    returns tt)

  abbrev pub remove_subscriber : String → riak.RMap → Option (List String) → Method env (Unit {0})
  remove_subscriber queue config none = panics
  remove_subscriber queue config (some _) = do
    tell env (riak.store_map (riak.remove_from_set config subscriber_set_name queue))
    returns tt

  unfoldable pub unsubscribe : String → String → Method env (Unit {0})
  unfolding with_topic refetch
  unsubscribe name queue = with_topic name (λ _. do
    (bucket, _) ← ask env (riak.new_bucket_type "maps" configuration_bucket)
    config ← refetch name bucket
    remove_subscriber queue config (riak.fetch_set config subscriber_set_name)
    refetch name bucket
    returns tt)

  -- `Delete` of a topic.
  unfoldable pub destroy_topic : String → Method env (Unit {0})
  unfolding with_topic
  destroy_topic name = with_topic name (λ topic. do
    (bucket, _) ← ask env (riak.new_bucket_type "maps" "config")
    on_pointer env (riak.nil_bucket bucket) (do
      (topic_config, _) ← ask env (riak.fetch_map bucket (topic_config_record_name topic.name))
      on_pointer env (riak.nil_map topic_config)
          (do tell env (riak.destroy_map topic_config); returns tt)))

  abbrev pub remove_topic : String → riak.RMap → Option (List String) → Method env (Option String)
  remove_topic name config none = panics
  remove_topic name config (some _) = do
    (_, stored) ← tell env (riak.store_map (riak.remove_from_set config topic_set_name name))
    returns stored

  -- The mutex is held while the topic is deleted, without a `defer` to release it.
  unfoldable pub forget_topic : String → Method env (Unit {0})
  unfolding destroy_topic delete_key lock_topics unlock_topics
  forget_topic name = do
    with_topics (λ _. lock_topics)
    destroy_topic name
    with_topics
        (λ topics. set_topics (record topics { topic_map = delete_key name topics.topic_map }))
    unlock_topics

  unfoldable pub delete_topic : String → Method env Bool
  unfolding forget_topic
  delete_topic name = do
    (bucket, _) ← ask env (riak.new_bucket_type "maps" "config")
    on_pointer env (riak.nil_bucket bucket) (do
      (topics_config, _) ← ask env (riak.fetch_map bucket topics_config_name)
      on_pointer env (riak.nil_map topics_config) (do
        err ← remove_topic name topics_config (riak.fetch_set topics_config topic_set_name)
        forget_topic name
        returns (is_nil env err)))

  -- `syncConfig` of one topic: the entry with the map that Riak has.
  unfoldable pub sync_topic : riak.Server → Topic env → Topic env
  sync_topic server topic =
      let (bucket, _) = riak.new_bucket_type "maps" configuration_bucket server in
      record topic {
        config = (riak.fetch_map bucket (topic_config_record_name topic.name) server).0;
      }

  unfoldable pub sync_each : riak.Server → List (String × Topic env) → List (String × Topic env)
  unfolding sync_topic
  sync_each server [] = []
  sync_each server ((name, topic) ∷ rest) = (name, sync_topic server topic) ∷ sync_each server rest

  -- `_, present = topics.TopicMap[name]; if present != true { InitTopic(name) }`
  unfoldable pub init_if_missing : String → Method env (Unit {0})
  unfolding init_topic present
  init_if_missing name =
      with_topics (λ topics. when (not (present name topics.topic_map)) (init_topic name))

  unfoldable pub init_missing : List String → Method env (Unit {0})
  unfolding init_if_missing
  init_missing [] = returns tt
  init_missing (name ∷ rest) = do init_if_missing name; init_missing rest

  -- The topics that are to be kept.
  unfoldable pub keep_listed : List String → List (String × Topic env) → List (String × Topic env)
  unfolding listed
  keep_listed names [] = []
  keep_listed names ((name, topic) ∷ rest) =
      let others = keep_listed names rest in
      if listed name names then (name, topic) ∷ others else others

  -- From the names in Riak on. An empty set has a nil slice.
  unfoldable pub sync_names : List String → Method env (Unit {0})
  unfolding init_missing keep_listed sync_each
  sync_names [] = returns tt
  sync_names (first ∷ rest) = do
    init_missing (first ∷ rest)
    with_topics (λ topics app.
        set_topics
          (record topics {
            topic_map = sync_each app.server (keep_listed (first ∷ rest) topics.topic_map);
          })
          app)

  abbrev pub sync_set : Option (List String) → Method env (Unit {0})
  sync_set none = panics
  sync_set (some names) = sync_names names

  -- Any other error skips this run.
  unfoldable pub skips : Option String → Bool
  skips none = false
  skips (some e) = not (str_eq e "Object not found")

  unfoldable pub sync_topics : Method env (Unit {0})
  unfolding update_config sync_names skips
  sync_topics = do
    (bucket, err) ← ask env (riak.new_bucket_type "maps" configuration_bucket)
    if is_nil env err
        then (do
          (topics_config, failed) ← ask env (riak.fetch_map bucket topics_config_name)
          if skips failed then returns tt else (do
            update_config topics_config
            sync_set (riak.fetch_set topics_config topic_set_name)))
        else returns tt
