-- ===== src/Topics/Deletion.antt =====
-- `DeleteTopic` of app/topic.go.
use dynamiq.Prelude.{
  ◌≡◌, refl, sym, ap, ◌∙◌, none, some, List, String, true, false, not, ◌&&◌, str_eq, if◌then◌else◌,
  arith,
}
use dynamiq.Prelude.Effects.{ok}
use dynamiq.Riak.{NeverNil}
use dynamiq.App.{Env, App, Topic, Topics, lookup, delete_key, lookup-delete_key}
use dynamiq.Registry.{listed, values_of}
use dynamiq.Registry.Known.{StoresSets}
use dynamiq.Topics.{
  topics_config_name, topic_set_name, topic_config_record_name, delete_topic, destroy_topic,
  with_topic, forget_topic, lock_topics, unlock_topics,
}
use dynamiq.Prelude.Text.{wrapped-differs}

-- The record of a topic has another key than the set of topics: it is longer.
record_name-differs :
    (name : String) → str_eq (topic_config_record_name name) topics_config_name ≡ false
unfolding topic_config_record_name
record_name-differs name = wrapped-differs "topic_" name "_config" topics_config_name (omega arith)

module _ (env : Env) (stores : StoresSets env.riak) where
  open env use {riak}

  -- The map that lists the topics.
  abbrev pub topics_config : App env → riak.RMap
  topics_config app =
      (riak.fetch_map (riak.new_bucket_type "maps" "config" app.server).0 topics_config_name
        app.server).0

  module _ (name other : String) (app : App env) (topics : Topics env) (topic : Topic env)
      (values : List String) (found : lookup name topics.topic_map ≡ some topic)
      (known : riak.fetch_set (topics_config app) topic_set_name ≡ some values) where
    removed : riak.Server
    removed =
        (riak.store_map (riak.remove_from_set (topics_config app) topic_set_name name) app.server).1

    destroyed : riak.Server
    destroyed =
        (riak.destroy_map
          (riak.fetch_map (riak.new_bucket_type "maps" "config" removed).0
            (topic_config_record_name topic.name) removed).0
          removed).1

    -- The state that is left.
    abbrev left : App env
    left = record app {
      server = destroyed;
      topics_locked = false;
      topics = some (record topics { topic_map = delete_key name topics.topic_map });
    }

    delete_topic-left :
        NeverNil riak
        → app.topics_locked ≡ false
        → (riak.store_map
            (riak.remove_from_set (topics_config app) topic_set_name name)
            app.server).0.1
          ≡ none
        → delete_topic env name (record app { topics = some topics }) ≡ (ok true, left)
    unfolding delete_topic forget_topic destroy_topic with_topic removed destroyed lock_topics
        unlock_topics
    delete_topic-left there free stored =
        rw
          (
            there.bucket_there _ _ _,
            there.map_there _ _ _,
            known,
            free,
            found,
            there.bucket_there _ _ _,
            there.map_there _ _ _,
            stored,
          )
          refl

    in_riak :
        (riak.store_map
            (riak.remove_from_set (topics_config app) topic_set_name name)
            app.server).0.1
          ≡ none
        → listed other (values_of (riak.fetch_set (topics_config left) topic_set_name))
          ≡ (not (str_eq name other) && listed other values)
    unfolding removed destroyed
    in_riak stored =
        let bucket = riak.new_bucket_type "maps" "config" app.server in
        let kept : riak.new_bucket_type "maps" "config" removed ≡ bucket =
          stores.bucket_kept _ _ _ _ in
        let moved : riak.new_bucket_type "maps" "config" destroyed ≡ bucket =
          stores.bucket_left _ _ _ _ ∙ kept in
        ap
          (λ b. listed other (
            values_of
              (riak.fetch_set (riak.fetch_map b.0 topics_config_name destroyed).0 topic_set_name)))
          (moved ∙ sym kept)
        ∙ ap (λ m. listed other (values_of (riak.fetch_set m.0 topic_set_name)))
            (stores.others_left _ (topic_config_record_name topic.name) topics_config_name removed
              (record_name-differs topic.name))
        ∙ ap
            (λ b. listed other (
              values_of
                (riak.fetch_set (riak.fetch_map b.0 topics_config_name removed).0 topic_set_name)))
            kept
        ∙ stores.member_removed bucket.0 topics_config_name topic_set_name name other app.server
            stored
        ∙ ap (λ v. not (str_eq name other) && listed other (values_of v)) known

    -- On a cluster that stores and destroys maps as documented, which answers with no nil pointers,
    -- for a topic in memory and a free mutex of the topics, where there is a set of topics and the
    -- change of it is stored, `DeleteTopic` returns true and leaves the mutex free; then every
    -- other topic is in memory as it was, the deleted one is not, and the set in Riak has exactly
    -- the other names that it had.
    pub delete_topic_lem :
        app.topics ≡ some topics
        → NeverNil riak
        → app.topics_locked ≡ false
        → (riak.store_map
            (riak.remove_from_set (topics_config app) topic_set_name name)
            app.server).0.1
          ≡ none
        → let (r, app') = delete_topic env name app in
          (r ≡ ok true)
          × (app'.topics_locked ≡ false)
          × (remaining : Topics env) × (app'.topics ≡ some remaining)
          × (lookup other remaining.topic_map
              ≡ (if str_eq name other then none else lookup other topics.topic_map))
          × (listed other (values_of (riak.fetch_set (topics_config app') topic_set_name))
              ≡ (not (str_eq name other) && listed other values))
    delete_topic_lem there never_nil free stored =
        let loaded : app ≡ record app { topics = some topics } =
          ap (λ o. record app { topics = o }) there in
        let ran = ap (delete_topic env name) loaded ∙ delete_topic-left never_nil free stored in
        rw ran (
          refl,
          refl,
          record topics { topic_map = delete_key name topics.topic_map },
          refl,
          lookup-delete_key name other topics.topic_map,
          in_riak stored,
        )
