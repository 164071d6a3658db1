-- ===== src/Http/Subscribing.antt =====
-- The handler that subscribes a queue to a topic (app/httpinterface_v1.go).
use dynamiq.Prelude.{
  ◌≡◌, refl, sym, ap, ◌∙◌, none, some, List, [], ◌∷◌, String, Bool, true, false, ◌||◌, str_eq, inl,
  inr,
}
use dynamiq.Prelude.Effects.{ok}
use dynamiq.App.{Env, App, Queue, Topics, present, present-lookup}
use dynamiq.Registry.{listed, values_of}
use dynamiq.Registry.Known.{StoresSets}
use dynamiq.Topics.{subscriber_set_name, topics_in, queue_present, subscribe, list_queues}
use dynamiq.Topics.Subscribers.{topic_config, list_queues-subscribe}
use dynamiq.Http.Response.{json, error, subscribers}
use dynamiq.Http.Handlers.{topic_present, handle_put_topic_queue, show_subscribers}
use dynamiq.Http.Creating.{queue_present-queues}

module _ (env : Env) where
  open env use {riak}

  topic_present-topics :
      (name : String) (there : Bool) (app : App env) (topics : Topics env)
      → app.topics ≡ some topics
      → present name topics.topic_map ≡ there
      → topic_present env name app ≡ (ok there, app)
  unfolding topic_present
  topic_present-topics name there app topics e p =
      ap (λ o. topics_in env o (λ t s. (ok (present name t.topic_map), s)) app) e
      ∙ ap (λ b. (ok b, app)) p

  no_topic :
      (topic queue : String) (app : App env)
      → topic_present env topic app ≡ (ok false, app)
      → handle_put_topic_queue env topic queue app
        ≡ (ok (json 422 (error "Topic does not exist. Please create it first.") ∷ []), app)
  unfolding handle_put_topic_queue
  no_topic topic queue app e = rw e refl

  no_such_queue :
      (topic queue : String) (app : App env)
      → topic_present env topic app ≡ (ok true, app)
      → queue_present env queue app ≡ (ok false, app)
      → handle_put_topic_queue env topic queue app
        ≡ (ok (json 422 (error "Queue does not exist. Please create it first") ∷ []), app)
  unfolding handle_put_topic_queue
  no_such_queue topic queue app e f = rw (e, f) refl

  both_there :
      (topic queue : String) (app : App env) (queues : List String)
      → topic_present env topic app ≡ (ok true, app)
      → queue_present env queue app ≡ (ok true, app)
      → (subscribe env topic queue app).0 ≡ ok tt
      → (list_queues env topic (subscribe env topic queue app).1).0 ≡ ok queues
      → (handle_put_topic_queue env topic queue app).0 ≡ ok (json 200 (subscribers queues) ∷ [])
  unfolding handle_put_topic_queue show_subscribers
  both_there topic queue app queues e f ran lists = rw (e, f, ran, lists) refl

  module _ (name queue other : String) (app : App env) (topics : Topics env)
      (queues : List (String × Queue env)) (there : app.topics ≡ some topics)
      (ready : app.queues ≡ some queues) where
    listed_after :
        StoresSets riak
        → (riak.store_map
            (riak.add_to_set (topic_config env name app) subscriber_set_name queue)
            app.server).0.1
          ≡ none
        → present name topics.topic_map ≡ true
        → present queue queues ≡ true
        → (after : List String) × ((handle_put_topic_queue env name queue app).0
            ≡ ok (json 200 (subscribers after) ∷ []))
          × (listed other after ≡ (
              str_eq queue other
              || listed other
                  (values_of (riak.fetch_set (topic_config env name app) subscriber_set_name))))
    listed_after stores stored known queue_known = elim (present-lookup name topics.topic_map) [
      | inl (_, absent) ↦ let contra = sym absent ∙ known in cc
      | inr (topic, found, _) ↦
          let (after, ran, lists, exact) =
            list_queues-subscribe env stores name queue other app topics topic there found stored in
          (
            after,
            both_there name queue app after (topic_present-topics name true app topics there known)
                (queue_present-queues env queue true app queues ready queue_known) ran lists,
            exact,
          )
    ]

    -- On a cluster that stores sets as documented and stores the change, with topics and queues in
    -- memory, a PUT of a queue below a topic answers 422 and changes nothing if the topic or else
    -- the queue is not in memory; if both are, it answers 200 with the queue and those that the
    -- topic's map in Riak had.
    pub handle_put_topic_queue-listed :
        StoresSets riak
        → (riak.store_map
            (riak.add_to_set (topic_config env name app) subscriber_set_name queue)
            app.server).0.1
          ≡ none
        → (present name topics.topic_map ≡ false
            → handle_put_topic_queue env name queue app
              ≡ (ok (json 422 (error "Topic does not exist. Please create it first.") ∷ []), app))
          × (present name topics.topic_map ≡ true
              → present queue queues ≡ false
              → handle_put_topic_queue env name queue app
                ≡ (ok (json 422 (error "Queue does not exist. Please create it first") ∷ []), app))
          × (present name topics.topic_map ≡ true
              → present queue queues ≡ true
              → (after : List String) × ((handle_put_topic_queue env name queue app).0
                  ≡ ok (json 200 (subscribers after) ∷ []))
                × (listed other after ≡ (
                    str_eq queue other
                    || listed other (
                        values_of
                          (riak.fetch_set (topic_config env name app) subscriber_set_name)))))
    handle_put_topic_queue-listed stores stored =
        let topic_test = λ (b : Bool) (e : present name topics.topic_map ≡ b).
          topic_present-topics name b app topics there e in
        let queue_test = λ (b : Bool) (e : present queue queues ≡ b).
          queue_present-queues env queue b app queues ready e in
        (
          λ missing. no_topic name queue app (topic_test false missing),
          λ known missing.
              no_such_queue name queue app (topic_test true known) (queue_test false missing),
          listed_after stores stored,
        )
