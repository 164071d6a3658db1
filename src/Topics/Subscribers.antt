-- ===== src/Topics/Subscribers.antt =====
-- `AddQueue`, `DeleteQueue` and `ListQueues` of a topic (app/topic.go).
use dynamiq.Prelude.{◌≡◌, refl, ap, ◌∙◌, none, some, List, String, not, ◌||◌, ◌&&◌, str_eq}
use dynamiq.Prelude.Effects.{ok, returns}
use dynamiq.App.{Env, App, Topic, Topics, lookup, insert, lookup-insert_self}
use dynamiq.Settings.{configuration_bucket}
use dynamiq.Registry.{listed, values_of}
use dynamiq.Registry.Known.{StoresSets}
use dynamiq.Topics.{
  subscriber_set_name, topic_config_record_name, method_of, with_topic, set_topic, refetch,
  subscribe, unsubscribe, list_queues,
}

module _ (env : Env) where
  open env use {riak}

  abbrev in_memory : App env → Topics env → App env
  in_memory app topics = record app { topics = some topics }

  -- The map of a topic that Riak holds.
  abbrev pub topic_config : String → App env → riak.RMap
  topic_config name app =
      (riak.fetch_map (riak.new_bucket_type "maps" configuration_bucket app.server).0
        (topic_config_record_name name) app.server).0

  -- The topic as it is after its map was fetched, changed, stored and fetched again.
  abbrev refetched : String → (riak.RMap → riak.RMap) → App env → Topics env → App env
  refetched name change app topics =
      let bucket = (riak.new_bucket_type "maps" configuration_bucket app.server).0 in
      let config = topic_config name app in
      let server = (riak.store_map (change config) app.server).1 in
      let config' = (riak.fetch_map bucket (topic_config_record_name name) server).0 in
      in_memory (record app { server = server })
        (record topics {
          topic_map =
              insert name (record { name = name; config = config' })
                (insert name (record { name = name; config = config }) topics.topic_map);
        })

  subscribe-refetched :
      (name queue : String) (app : App env) (topics : Topics env) (topic : Topic env)
      → lookup name topics.topic_map ≡ some topic
      → subscribe env name queue (in_memory app topics)
        ≡ (ok tt, refetched name (λ m. riak.add_to_set m subscriber_set_name queue) app topics)
  unfolding subscribe refetch set_topic with_topic
  subscribe-refetched name queue app topics topic found = rw found refl

  unsubscribe-refetched :
      (name queue : String) (app : App env) (topics : Topics env) (topic : Topic env)
      (values : List String)
      → lookup name topics.topic_map ≡ some topic
      → riak.fetch_set (topic_config name app) subscriber_set_name ≡ some values
      → unsubscribe env name queue (in_memory app topics)
        ≡ (ok tt, refetched name (λ m. riak.remove_from_set m subscriber_set_name queue) app topics)
  unfolding unsubscribe refetch set_topic with_topic
  unsubscribe-refetched name queue app topics topic values found there = rw (found, there) refl

  -- What is then listed.
  list_queues-refetched :
      (name : String) (change : riak.RMap → riak.RMap) (app : App env) (topics : Topics env)
      → let bucket = (riak.new_bucket_type "maps" configuration_bucket app.server).0 in
        let server = (riak.store_map (change (topic_config name app)) app.server).1 in
        (list_queues env name (refetched name change app topics)).0
        ≡ ok (
            values_of (
              riak.fetch_set
                (riak.fetch_map bucket (topic_config_record_name name) server).0
                subscriber_set_name))
  unfolding list_queues with_topic
  list_queues-refetched name change app topics =
      ap
        (λ o.
          (method_of env o
            (λ topic. returns (values_of (riak.fetch_set topic.config subscriber_set_name)))
            (refetched name change app topics)).0)
        (lookup-insert_self name _ _)

  module _ (stores : StoresSets riak) (name queue other : String) (app : App env)
      (topics : Topics env) (topic : Topic env) (there : app.topics ≡ some topics)
      (found : lookup name topics.topic_map ≡ some topic) where
    loaded : app ≡ in_memory app topics
    loaded = ap (λ o. record app { topics = o }) there

    -- On a cluster that stores sets as documented, for a topic in memory, where the change is
    -- stored, the queues that the topic lists after `AddQueue` are the queue that was added and
    -- those that its map in Riak had.
    pub list_queues-subscribe :
        (riak.store_map
            (riak.add_to_set (topic_config name app) subscriber_set_name queue)
            app.server).0.1
          ≡ none
        → (queues : List String) × ((subscribe env name queue app).0 ≡ ok tt)
          × ((list_queues env name (subscribe env name queue app).1).0 ≡ ok queues)
          × (listed other queues ≡ (
              str_eq queue other
              || listed other
                  (values_of (riak.fetch_set (topic_config name app) subscriber_set_name))))
    list_queues-subscribe stored =
        let ran =
          ap (subscribe env name queue) loaded
          ∙ subscribe-refetched name queue app topics topic found in
        (
          _,
          ap (λ r. r.0) ran,
          ap (λ r. (list_queues env name r.1).0) ran
              ∙ list_queues-refetched name (λ m. riak.add_to_set m subscriber_set_name queue) app
                  topics,
          stores.member_added _ (topic_config_record_name name) subscriber_set_name queue other
              app.server stored,
        )

    -- On a cluster that stores sets as documented, for a topic in memory whose map in Riak has a
    -- set of queues, where the change is stored, the queues that the topic lists after
    -- `DeleteQueue` are those of that set but the one removed.
    pub list_queues-unsubscribe :
        (values : List String)
        → riak.fetch_set (topic_config name app) subscriber_set_name ≡ some values
        → (riak.store_map
            (riak.remove_from_set (topic_config name app) subscriber_set_name queue)
            app.server).0.1
          ≡ none
        → (queues : List String) × ((unsubscribe env name queue app).0 ≡ ok tt)
          × ((list_queues env name (unsubscribe env name queue app).1).0 ≡ ok queues)
          × (listed other queues ≡ (not (str_eq queue other) && listed other values))
    list_queues-unsubscribe values known stored =
        let ran =
          ap (unsubscribe env name queue) loaded
          ∙ unsubscribe-refetched name queue app topics topic values found known in
        (
          _,
          ap (λ r. r.0) ran,
          ap (λ r. (list_queues env name r.1).0) ran
              ∙ list_queues-refetched name (λ m. riak.remove_from_set m subscriber_set_name queue)
                  app topics,
          stores.member_removed _ (topic_config_record_name name) subscriber_set_name queue other
                app.server stored
              ∙ ap (λ v. not (str_eq queue other) && listed other (values_of v)) known,
        )
