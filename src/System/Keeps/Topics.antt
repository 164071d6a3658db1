-- ===== src/System/Keeps/Topics.antt =====
-- The topics (app/topic.go): they leave the queues in memory as they are.
use dynamiq.Prelude.{
  ◌≡◌, refl, List, [], ◌∷◌, String, Bool, true, false, Option, none, some, Bool-cases, inl, inr,
}
use dynamiq.Riak.{Bytes}
use dynamiq.App.{Env, App, Queue, Topic, Topics}
use dynamiq.Settings.{Method}
use dynamiq.Topics.{
  topics_in, with_topics, set_topics, set_topic, update_config, method_of, with_topic, init_topics,
  with_default, add_to_topics, init_topic, queue_in, queue_present, put_if, broadcast_to, broadcast,
  list_queues, refetch, subscribe, unsubscribe, remove_subscriber, remove_topic, sync_set,
  destroy_topic, lock_topics, unlock_topics, forget_topic, delete_topic, init_if_missing,
  init_missing, sync_names, sync_each, keep_listed, sync_topics,
}
use dynamiq.System.Keeps.{Keeps, Keeps-panics, Keeps-returns, Keeps-then, keeps_rules}
use dynamiq.System.Keeps.Messages.{put-Keeps}

module _ (env : Env) {P : App env → Type 0} {W : Type 0} where
  topics_in-Keeps :
      {A : Type 0} (o : Option (Topics env)) (method : Topics env → Method env A)
      → ((topics : Topics env) → Keeps P W (method topics))
      → Keeps P W (topics_in env o method)
  topics_in-Keeps none method km = Keeps-panics
  topics_in-Keeps (some topics) method km = km topics

  pub Keeps-with_topics :
      {A : Type 0} (method : Topics env → Method env A)
      → ((topics : Topics env) → Keeps P W (method topics))
      → Keeps P W (with_topics env method)
  Keeps-with_topics method km = record {
    at = λ app. (topics_in-Keeps app.topics method km).at app;
    stuck = λ app. (topics_in-Keeps app.topics method km).stuck app;
  }

  pub Keeps-method_of :
      {A : Type 0} (o : Option (Topic env)) (method : Topic env → Method env A)
      → ((topic : Topic env) → Keeps P W (method topic))
      → Keeps P W (method_of env o method)
  Keeps-method_of none method km = Keeps-panics
  Keeps-method_of (some topic) method km = km topic

  pub with_topic-Keeps :
      {A : Type 0} (name : String) (method : Topic env → Method env A)
      → ((topic : Topic env) → Keeps P W (method topic))
      → Keeps P W (with_topic env name method)
  unfolding with_topic
  with_topic-Keeps name method km = search (Keeps-with_topics, Keeps-method_of)

  queue_in-Keeps :
      (o : Option (List (String × Queue env))) (queue : String) → Keeps P W (queue_in env o queue)
  queue_in-Keeps none queue = Keeps-panics
  queue_in-Keeps (some queues) queue = Keeps-returns _

  pub queue_present-Keeps : (queue : String) → Keeps P W (queue_present env queue)
  unfolding queue_present
  queue_present-Keeps queue = record {
    at = λ app. (queue_in-Keeps app.queues queue).at app;
    stuck = λ app. (queue_in-Keeps app.queues queue).stuck app;
  }

  module _ (frame : (app app' : App env) → app'.queues ≡ app.queues → P app → P app') where
    open env use {riak}

    pub Keeps-lock_topics : W → Keeps P W (lock_topics env)
    unfolding lock_topics
    Keeps-lock_topics waits = record {
      at = λ app h. elim (Bool-cases app.topics_locked) [
        | inl e ↦ rw e (frame app _ refl h)
        | inr e ↦ rw e (frame app _ refl h)
      ];
      stuck = λ app h _. waits;
    }

    pub Keeps-unlock_topics : Keeps P W (unlock_topics env)
    unfolding unlock_topics
    Keeps-unlock_topics = record {
      at = λ app h. frame app _ refl h;
      stuck = λ app h waits. absurd waits;
    }

    pub Keeps-set_topics : (topics : Topics env) → Keeps P W (set_topics env topics)
    Keeps-set_topics topics = record {
      at = λ app h. frame app _ refl h;
      stuck = λ app h waits. absurd waits;
    }

pub ruleset topic_rules = (
  keeps_rules, Keeps-with_topics, with_topic-Keeps, queue_present-Keeps, Keeps-set_topics,
  Keeps-unlock_topics,
)

module _ (env : Env) {P : App env → Type 0} {W : Type 0}
    (frame : (app app' : App env) → app'.queues ≡ app.queues → P app → P app') where
  open env use {riak}

  set_topic-Keeps : (topic : Topic env) → Keeps P W (set_topic env topic)
  unfolding set_topic
  set_topic-Keeps topic = search topic_rules

  pub update_config-Keeps : W → (config : riak.RMap) → Keeps P W (update_config env config)
  unfolding update_config
  update_config-Keeps waits config = search (topic_rules, Keeps-lock_topics env frame waits) depth 7

  add_to_topics-Keeps :
      (name : String) (config : riak.RMap) (o : Option (List String))
      → Keeps P W (add_to_topics env name config o)
  unfolding add_to_topics
  add_to_topics-Keeps name config none = search topic_rules
  add_to_topics-Keeps name config (some names) = search topic_rules

  pub init_topic-Keeps : (name : String) → Keeps P W (init_topic env name)
  unfolding init_topic
  init_topic-Keeps name = search (topic_rules, set_topic-Keeps, add_to_topics-Keeps) depth 9

  pub init_if_missing-Keeps : (name : String) → Keeps P W (init_if_missing env name)
  unfolding init_if_missing
  init_if_missing-Keeps name = search (topic_rules, init_topic-Keeps)

  init_missing-Keeps : (names : List String) → Keeps P W (init_missing env names)
  unfolding init_missing
  init_missing-Keeps [] = search topic_rules
  init_missing-Keeps (name ∷ rest) =
      Keeps-then _ _ (init_if_missing-Keeps name) (init_missing-Keeps rest)

  pub list_queues-Keeps : (name : String) → Keeps P W (list_queues env name)
  unfolding list_queues
  list_queues-Keeps name = search topic_rules

  put_if-Keeps :
      (there : Bool) (queue : String) (message : Bytes) (writes : List (String × String))
      → Keeps P W (put_if env there queue message writes)
  unfolding put_if
  put_if-Keeps false queue message writes = search topic_rules
  put_if-Keeps true queue message writes = search (topic_rules, put-Keeps)

  broadcast_to-Keeps :
      (names : List String) (message : Bytes) (writes : List (String × String))
      → Keeps P W (broadcast_to env names message writes)
  unfolding broadcast_to
  broadcast_to-Keeps [] message writes = search topic_rules
  broadcast_to-Keeps (name ∷ rest) message writes =
      search (topic_rules, put_if-Keeps, broadcast_to-Keeps rest)

  pub broadcast-Keeps : (name : String) (message : Bytes) → Keeps P W (broadcast env name message)
  unfolding broadcast
  broadcast-Keeps name message = search (topic_rules, broadcast_to-Keeps)

  refetch-Keeps : (name : String) (bucket : riak.Bucket) → Keeps P W (refetch env name bucket)
  unfolding refetch
  refetch-Keeps name bucket = search (topic_rules, set_topic-Keeps)

  pub subscribe-Keeps : (name queue : String) → Keeps P W (subscribe env name queue)
  unfolding subscribe
  subscribe-Keeps name queue = search (topic_rules, refetch-Keeps) depth 9

  remove_subscriber-Keeps :
      (queue : String) (config : riak.RMap) (o : Option (List String))
      → Keeps P W (remove_subscriber env queue config o)
  remove_subscriber-Keeps queue config none = search topic_rules
  remove_subscriber-Keeps queue config (some names) = search topic_rules

  pub unsubscribe-Keeps : (name queue : String) → Keeps P W (unsubscribe env name queue)
  unfolding unsubscribe
  unsubscribe-Keeps name queue =
      search (topic_rules, refetch-Keeps, remove_subscriber-Keeps) depth 9

  destroy_topic-Keeps : (name : String) → Keeps P W (destroy_topic env name)
  unfolding destroy_topic
  destroy_topic-Keeps name = search topic_rules depth 9

  remove_topic-Keeps :
      (name : String) (config : riak.RMap) (o : Option (List String))
      → Keeps P W (remove_topic env name config o)
  remove_topic-Keeps name config none = search topic_rules
  remove_topic-Keeps name config (some names) = search topic_rules

  forget_topic-Keeps : W → (name : String) → Keeps P W (forget_topic env name)
  unfolding forget_topic
  forget_topic-Keeps waits name =
      let locks =
        Keeps-with_topics env (λ _. lock_topics env) (λ _. Keeps-lock_topics env frame waits) in
      Keeps-then _ _ locks (Keeps-then _ _ (destroy_topic-Keeps name) (search topic_rules))

  pub delete_topic-Keeps : W → (name : String) → Keeps P W (delete_topic env name)
  unfolding delete_topic
  delete_topic-Keeps waits name =
      search (topic_rules, forget_topic-Keeps waits, remove_topic-Keeps) depth 9

  pub sync_names-Keeps : (names : List String) → Keeps P W (sync_names env names)
  unfolding sync_names
  sync_names-Keeps [] = search topic_rules
  sync_names-Keeps (first ∷ rest) = Keeps-then _ _ (init_missing-Keeps (first ∷ rest)) (
      Keeps-with_topics env
        (λ topics app.
          set_topics env
            (record topics {
              topic_map =
                  sync_each env app.server (keep_listed env (first ∷ rest) topics.topic_map);
            })
            app)
        (λ topics. record {
          at = λ app h. frame app _ refl h;
          stuck = λ app h waits. absurd waits;
        }))

  with_default-Keeps :
      (config : riak.RMap) (o : Option (List String)) → Keeps P W (with_default env config o)
  with_default-Keeps config none = search topic_rules
  with_default-Keeps config (some names) = search topic_rules

  pub init_topics-Keeps : Keeps P W (init_topics env)
  unfolding init_topics
  init_topics-Keeps = search (topic_rules, with_default-Keeps) depth 7

  sync_set-Keeps : (o : Option (List String)) → Keeps P W (sync_set env o)
  sync_set-Keeps none = search topic_rules
  sync_set-Keeps (some names) = search sync_names-Keeps

  pub sync_topics-Keeps : W → Keeps P W (sync_topics env)
  unfolding sync_topics
  sync_topics-Keeps waits = search (topic_rules, sync_set-Keeps, update_config-Keeps waits) depth 9
