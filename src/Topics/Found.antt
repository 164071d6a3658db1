-- ===== src/Topics/Found.antt =====
-- A method of a topic that is in memory (app/topic.go).
use dynamiq.Prelude.{◌≡◌, ap, ◌∙◌, some, String}
use dynamiq.Prelude.Effects.{ok}
use dynamiq.App.{Env, App, Topic, Topics, lookup}
use dynamiq.Settings.{Method}
use dynamiq.Registry.{values_of}
use dynamiq.Topics.{subscriber_set_name, topics_in, method_of, with_topic, list_queues}

module _ (env : Env) where
  pub with_topic-found :
      {A : Type 0} (name : String) (method : Topic env → Method env A) (app : App env)
      (topics : Topics env) (topic : Topic env)
      → app.topics ≡ some topics
      → lookup name topics.topic_map ≡ some topic
      → with_topic env name method app ≡ method topic app
  unfolding with_topic
  with_topic-found name method app topics topic there found =
      ap (λ o. topics_in env o (λ t. method_of env (lookup name t.topic_map) method) app) there
      ∙ ap (λ o. method_of env o method app) found

  pub list_queues-found :
      (name : String) (app : App env) (topics : Topics env) (topic : Topic env)
      → app.topics ≡ some topics
      → lookup name topics.topic_map ≡ some topic
      → list_queues env name app
        ≡ (ok (values_of (env.riak.fetch_set topic.config subscriber_set_name)), app)
  unfolding list_queues
  list_queues-found name = with_topic-found name _
