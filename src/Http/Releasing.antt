-- ===== src/Http/Releasing.antt =====
-- The mutex of the topics over a DELETE of a topic (app/httpinterface_v1.go, app/topic.go).
use dynamiq.Prelude.{◌≡◌, refl, String, false, Option-cases, Bool-cases, inl, inr}
use dynamiq.Prelude.Effects.{Outcome, ok, panic, blocked, out_of_fuel, Stuck, returns, continue}
use dynamiq.Riak.{NeverNil}
use dynamiq.App.{Env, App, lookup, present-lookup}
use dynamiq.Topics.{
  topics_config_name, topic_set_name, topic_config_record_name, delete_topic, forget_topic,
  destroy_topic, with_topic, lock_topics, unlock_topics,
}
use dynamiq.Http.Handlers.{topic_present, handle_delete_topic}

module _ (env : Env) where
  open env use {riak}

  -- A call that does not wait and leaves the mutex of the topics free.
  abbrev pub Releases : {A : Type 0} → Outcome A × App env → Type 0
  Releases r = (r.1.topics_locked ≡ false) × (Stuck r.0 → ⊥)

  -- Where Riak answers with no nil pointers and the mutex of the topics is free, a DELETE of a
  -- topic does not wait and leaves the mutex free, in any state, however it ends: also where the
  -- topic is not in memory, where the topics are not there and where Riak has no set of topics.
  pub handle_delete_topic-Releases :
      NeverNil riak
      → (topic : String) (app : App env) → app.topics_locked ≡ false
      → Releases (handle_delete_topic env topic app)
  unfolding handle_delete_topic topic_present delete_topic forget_topic destroy_topic with_topic
      lock_topics unlock_topics
  handle_delete_topic-Releases there topic app free = elim (Option-cases app.topics) [
    | inl e ↦ rw e (free, λ w. w)
    | inr (topics, e) ↦ elim (present-lookup topic topics.topic_map) [
      | inl (_, missing) ↦ rw (e, missing) (free, λ w. w)
      | inr (found, is_found, is_there) ↦
          let config =
            (riak.fetch_map (riak.new_bucket_type "maps" "config" app.server).0 topics_config_name
              app.server).0 in
          elim (Option-cases (riak.fetch_set config topic_set_name)) [
            | inl no_set ↦
                rw (e, is_there, there.bucket_there _ _ _, there.map_there _ _ _, no_set)
                  (free, λ w. w)
            | inr (names, known) ↦
                rw
                  (
                    e,
                    is_there,
                    there.bucket_there _ _ _,
                    there.map_there _ _ _,
                    known,
                    free,
                    is_found,
                    there.bucket_there _ _ _,
                    there.map_there _ _ _,
                  )
                  (refl, λ w. w)
          ]
    ]
  ]

  forget_topic-runs :
      (topic : String) (app : App env)
      → app.topics_locked ≡ false
      → Stuck (forget_topic env topic app).0
      → ⊥
  unfolding forget_topic destroy_topic with_topic lock_topics unlock_topics
  forget_topic-runs name app free = elim (Option-cases app.topics) [
    | inl e ↦ rw e (λ w. w)
    | inr (topics, e) ↦ elim (Option-cases (lookup name topics.topic_map)) [
      | inl missing ↦ rw (e, free, missing) (λ w. w)
      | inr (topic, found) ↦
          let bucket = (riak.new_bucket_type "maps" "config" app.server).0 in
          let config = (riak.fetch_map bucket (topic_config_record_name topic.name) app.server).0 in
          elim (Bool-cases (riak.nil_bucket bucket)) [
            | inl b ↦ rw (e, free, found, b) (λ w. w)
            | inr b ↦ elim (Bool-cases (riak.nil_map config)) [
              | inl m ↦ rw (e, free, found, b, m) (λ w. w)
              | inr m ↦ rw (e, free, found, b, m) (λ w. w)
            ]
          ]
    ]
  ]

  continue-runs :
      {A B : Type 0} (r : Outcome A) (f : A → B) (app : App env)
      → (Stuck r → ⊥)
      → Stuck (continue r (λ a. returns (f a)) app).0
      → ⊥
  continue-runs (ok a) f app h = λ w. w
  continue-runs panic f app h = λ w. w
  continue-runs blocked f app h = h
  continue-runs out_of_fuel f app h = h

  delete_topic-runs :
      (topic : String) (app : App env)
      → app.topics_locked ≡ false
      → Stuck (delete_topic env topic app).0
      → ⊥
  unfolding delete_topic
  delete_topic-runs name app free =
      let bucket = (riak.new_bucket_type "maps" "config" app.server).0 in
      let config = (riak.fetch_map bucket topics_config_name app.server).0 in
      elim (Bool-cases (riak.nil_bucket bucket)) [
        | inl b ↦ rw b (λ w. w)
        | inr b ↦ elim (Bool-cases (riak.nil_map config)) [
          | inl m ↦ rw (b, m) (λ w. w)
          | inr m ↦ elim (Option-cases (riak.fetch_set config topic_set_name)) [
            | inl no_set ↦ rw (b, m, no_set) (λ w. w)
            | inr (names, known) ↦
                rw (b, m, known) (continue-runs _ _ _ (forget_topic-runs name _ free))
          ]
        ]
      ]

  -- Where the mutex of the topics is free, a DELETE of a topic does not wait for it.
  pub handle_delete_topic-runs :
      (topic : String) (app : App env)
      → app.topics_locked ≡ false
      → Stuck (handle_delete_topic env topic app).0
      → ⊥
  unfolding handle_delete_topic topic_present
  handle_delete_topic-runs topic app free = elim (Option-cases app.topics) [
    | inl e ↦ rw e (λ w. w)
    | inr (topics, e) ↦ elim (present-lookup topic topics.topic_map) [
      | inl (_, missing) ↦ rw (e, missing) (λ w. w)
      | inr (_, _, is_there) ↦
          rw (e, is_there) (continue-runs _ _ _ (delete_topic-runs topic _ free))
    ]
  ]
