-- ===== src/Topics/Broadcasting.antt =====
-- `Broadcast` of app/topic.go: which queues a message is written to.
use dynamiq.Prelude.{
  ◌≡◌, refl, ap, ◌∙◌, some, List, [], ◌∷◌, String, if◌then◌else◌, Bool-cases, inl, inr,
}
use dynamiq.Prelude.Effects.{Outcome, ok, returns, ◌>>=◌}
use dynamiq.Riak.{Bytes}
use dynamiq.App.{Env, App, Queue, Topic, Topics, lookup, insert, present}
use dynamiq.Registry.{values_of}
use dynamiq.Messages.{put}
use dynamiq.Messages.Retrieval.{put-Returns, put-kept}
use dynamiq.Settings.{Method}
use dynamiq.Topics.{
  topics_in, method_of, queue_in, subscriber_set_name, with_topic, queue_present, put_if,
  broadcast_to, broadcast,
}

module _ (env : Env) where
  open env use {riak}

  -- `Put` of a message in several queues, one after the other: the identifiers that it returns.
  abbrev pub put_each : List String → Bytes → Method env (List (String × String))
  put_each [] message = returns []
  put_each (queue ∷ rest) message = do
    uuid ← put env queue message
    others ← put_each rest message
    returns ((queue, uuid) ∷ others)

  -- A map with the entries of a list, in the order of the list.
  abbrev pub insert_each : List (String × String) → List (String × String) → List (String × String)
  insert_each [] writes = writes
  insert_each ((queue, uuid) ∷ rest) writes = insert_each rest (insert queue uuid writes)

  abbrev pub names_of : List (String × String) → List String
  names_of [] = []
  names_of ((queue, _) ∷ rest) = queue ∷ names_of rest

  -- The names of a list that are in memory.
  abbrev pub in_memory_of : List (String × Queue env) → List String → List String
  in_memory_of queues [] = []
  in_memory_of queues (queue ∷ rest) =
      let others = in_memory_of queues rest in
      if present queue queues then queue ∷ others else others

  -- What the loop of `Broadcast` does, beside the writes one after the other.
  pub record Sends (names : List String) (message : Bytes) (app : App env)
      (writes : List (String × String)) (r : Outcome (List (String × String)) × App env)
      : Type 0 where
    pub sent : List (String × String)
    pub after : App env
    pub puts : put_each names message app ≡ (ok sent, after)
    pub named : names_of sent ≡ names
    pub returned : r ≡ (ok (insert_each sent writes), after)

  queue_present-some :
      (queue : String) (queues : List (String × Queue env)) (app : App env)
      → app.queues ≡ some queues
      → queue_present env queue app ≡ (ok (present queue queues), app)
  queue_present-some queue queues app there =
      unfold queue_present in ap (λ o. queue_in env o queue app) there

  broadcast_to-Sends :
      (queues : List (String × Queue env)) (names : List String) (message : Bytes)
      (writes : List (String × String)) (app : App env)
      → app.queues ≡ some queues
      → Sends
          (in_memory_of queues names)
          message
          app
          writes
          (broadcast_to env names message writes app)
  unfolding broadcast_to put_if
  broadcast_to-Sends queues [] message writes app there = record {
    sent = [];
    after = app;
    puts = refl;
    named = refl;
    returned = refl;
  }
  broadcast_to-Sends queues (queue ∷ names) message writes app there =
      let tested = queue_present-some queue queues app there in
      elim (Bool-cases (present queue queues)) [
        | inr e ↦ rw (tested, e) (broadcast_to-Sends queues names message writes app there)
        | inl e ↦
            let (uuid, put') = put-Returns env queue message app in
            let app' = (put env queue message app).1 in
            let others =
              broadcast_to-Sends queues names message (insert queue uuid writes) app'
                ((put-kept env queue message app).0 ∙ there) in
            rw (tested, e)
              (record {
                sent = (queue, uuid) ∷ others.sent;
                after = others.after;
                puts = rw (put', others.puts) refl;
                named = ap (λ l. queue ∷ l) others.named;
                returned = rw put' others.returned;
              })
      ]

  -- For a topic in memory and queues in memory, `Broadcast` leaves the state that `Put` of the
  -- message leaves in each queue that subscribes to the topic and is in memory, one after the
  -- other, and returns the map that has for each of these queues, and for no other, the identifier
  -- that its `Put` returned, the last one if it is listed twice.
  pub broadcast_lem :
      (name : String) (message : Bytes) (app : App env) (topics : Topics env) (topic : Topic env)
      (queues : List (String × Queue env))
      → app.topics ≡ some topics
      → lookup name topics.topic_map ≡ some topic
      → app.queues ≡ some queues
      → let subscribers = values_of (riak.fetch_set topic.config subscriber_set_name) in
        (sent : List (String × String)) × (after : App env) × (put_each
            (in_memory_of queues subscribers)
            message
            app
          ≡ (ok sent, after))
        × (names_of sent ≡ in_memory_of queues subscribers)
        × (broadcast env name message app ≡ (ok (insert_each sent []), after))
  unfolding broadcast with_topic
  broadcast_lem name message app topics topic queues there found ready =
      let subscribers = values_of (riak.fetch_set topic.config subscriber_set_name) in
      let all = broadcast_to-Sends queues subscribers message [] app ready in
      (
        all.sent,
        all.after,
        all.puts,
        all.named,
        ap (λ o. topics_in env o (λ t. method_of env (lookup name t.topic_map) send) app) there
            ∙ ap (λ o. method_of env o send app) found
            ∙ all.returned,
      )
    where
      send : Topic env → Method env (List (String × String))
      send = λ topic.
          broadcast_to env (values_of (riak.fetch_set topic.config subscriber_set_name)) message []
