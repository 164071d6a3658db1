-- ===== src/QueueSync/Reconciled.antt =====
-- The queues in memory after the first two loops of `syncConfig` of all queues (app/queue.go).
use dynamiq.Prelude.{
  ◌≡◌, refl, sym, ap, ◌∙◌, subst, some, List, [], ◌∷◌, String, Bool, true, false, not, ◌||◌, ◌&&◌,
  and_true, str_eq, eq_iff, arith, Bool-cases, inl, inr,
}
use dynamiq.Prelude.Int.{ℤ}
use dynamiq.Prelude.Effects.{Outcome, ok}
use dynamiq.Partitions.{Partitions, init_partitions, no_partitions_yet}
use dynamiq.App.{
  Env, App, Queue, Topic, Topics, lookup, insert, delete_key, present, present-insert,
  present-delete_key, present-lookup,
}
use dynamiq.Settings.{configuration_bucket, queue_config_record_name}
use dynamiq.Registry.{listed, values_of, new_partitions, init_queue_from_riak, add_queue, set_queue}
use dynamiq.Registry.Created.{partition_settings-Reads}
use dynamiq.Topics.{subscriber_set_name, queue_present, topics_in}
use dynamiq.QueueSync.{
  keys, init_queue_if_missing, init_missing_queues, unsubscribe_each, detach_each, drop_queue,
  drop_unlisted, reconcile,
}
use dynamiq.Topics.Found.{list_queues-found}
use text.Mathlib.TextPositions.{eq_refl}
use dynamiq.Topics.Synced.{listed_same}

or_left : (a b : Bool) → a ≡ true → (a || b) ≡ true
or_left a b e = ground (arith, e)

or_right : (a b : Bool) → b ≡ true → (a || b) ≡ true
or_right a b e = ground (arith, e)

module _ (env : Env) where
  open env use {riak, lane, floats}

  abbrev pub in_memory : App env → List (String × Queue env) → App env
  in_memory app queues = record app { queues = some queues }

  pub listed-keys :
      (wanted : String) {V : Type 0} (entries : List (String × V))
      → listed wanted (keys env entries) ≡ present wanted entries
  unfolding listed present
  listed-keys wanted [] = refl
  listed-keys wanted ((name, _) ∷ rest) =
      ap (λ b. str_eq name wanted || b) (listed-keys wanted rest)

  -- What was there is there.
  pub present_again :
      {V : Type 0} (name wanted : String) (entries : List (String × V))
      → present name entries ≡ true
      → (str_eq name wanted || present wanted entries) ≡ present wanted entries
  present_again name wanted entries there = elim (Bool-cases (str_eq name wanted)) [
    | inl e ↦ rw e (sym (subst (λ n. present n entries ≡ true) ((eq_iff name wanted).0 e) there))
    | inr e ↦ rw e refl
  ]

  -- A method that changes the queues only, and returns.
  pub record Leaves (app : App env) (exact : String → Bool) (r : Outcome (Unit {0}) × App env)
      : Type 0 where
    pub queues : List (String × Queue env)
    pub done : r ≡ (ok tt, in_memory app queues)
    pub exactly : (name : String) → present name queues ≡ exact name

  module _ (random : ℤ → ℤ) where
    pub new_partitions-made :
        (name : String) (app : App env)
        → (parts : Partitions lane) × (new_partitions env random name app ≡ (ok parts, app))
    unfolding new_partitions init_partitions no_partitions_yet
    new_partitions-made name app =
        let reads = partition_settings-Reads env name app in
        (
          (init_partitions lane floats reads.read random (no_partitions_yet lane)).1,
          rw reads.answer refl,
        )

    init_queue_from_riak-Leaves :
        (name : String) (app : App env) (queues : List (String × Queue env))
        → Leaves app
            (λ wanted. str_eq name wanted || present wanted queues)
            (init_queue_from_riak env random name (in_memory app queues))
    unfolding init_queue_from_riak add_queue set_queue
    init_queue_from_riak-Leaves name app queues =
        let (parts, made) = new_partitions-made name (in_memory app queues) in
        let bucket = (riak.new_bucket_type "maps" configuration_bucket app.server).0 in
        let config = (riak.fetch_map bucket (queue_config_record_name name) app.server).0 in
        record {
          queues = insert name (record { name = name; parts = parts; config = config }) queues;
          done = rw made refl;
          exactly = λ wanted. present-insert name wanted _ queues;
        }

    init_queue_if_missing-Leaves :
        (name : String) (app : App env) (queues : List (String × Queue env))
        → Leaves app
            (λ wanted. str_eq name wanted || present wanted queues)
            (init_queue_if_missing env random name (in_memory app queues))
    unfolding init_queue_if_missing queue_present
    init_queue_if_missing-Leaves name app queues = elim (Bool-cases (present name queues)) [
      | inr missing ↦ rw missing (init_queue_from_riak-Leaves name app queues)
      | inl there ↦ rw there (record {
        queues = queues;
        done = refl;
        exactly = λ wanted. sym (present_again name wanted queues there);
      })
    ]

    init_missing_queues-Leaves :
        (names : List String) (app : App env) (queues : List (String × Queue env))
        → Leaves app
            (λ wanted. listed wanted names || present wanted queues)
            (init_missing_queues env random names (in_memory app queues))
    unfolding init_missing_queues listed
    init_missing_queues-Leaves [] app queues = record {
      queues = queues;
      done = refl;
      exactly = λ wanted. refl;
    }
    init_missing_queues-Leaves (name ∷ rest) app queues =
        let one = init_queue_if_missing-Leaves name app queues in
        let others = init_missing_queues-Leaves rest app one.queues in
        record {
          queues = others.queues;
          done = rw one.done others.done;
          exactly = λ wanted. ground (arith, others.exactly wanted, one.exactly wanted);
        }

  -- No topic in memory lists the queue.
  abbrev pub IsDetached : String → List (String × Topic env) → Type 0
  IsDetached queue [] = Unit {0}
  IsDetached queue ((_, topic) ∷ rest) =
      (listed queue (values_of (riak.fetch_set topic.config subscriber_set_name)) ≡ false)
      × IsDetached queue rest

  lookup-IsDetached :
      (queue name : String) (topics : List (String × Topic env)) (topic : Topic env)
      → IsDetached queue topics
      → lookup name topics ≡ some topic
      → listed queue (values_of (riak.fetch_set topic.config subscriber_set_name)) ≡ false
  unfolding lookup
  lookup-IsDetached queue name [] topic h e = cc
  lookup-IsDetached queue name ((other, first) ∷ rest) topic h e =
      elim (Bool-cases (str_eq other name)) [
        | inl s ↦ let same : some first ≡ some topic = rw s at e in cc (same, h.0)
        | inr s ↦ lookup-IsDetached queue name rest topic h.1 (rw s at e)
      ]

  unsubscribe_each-none :
      (queue topic : String) (names : List String) (app : App env)
      → listed queue names ≡ false
      → unsubscribe_each env queue topic names app ≡ (ok tt, app)
  unfolding unsubscribe_each listed
  unsubscribe_each-none queue topic [] app h = refl
  unsubscribe_each-none queue topic (name ∷ rest) app h = elim (Bool-cases (str_eq name queue)) [
    | inl e ↦ let contra = rw e at h in cc
    | inr e ↦ rw e (unsubscribe_each-none queue topic rest app (rw e at h))
  ]

  module _ (app : App env) (topics : Topics env) (there : app.topics ≡ some topics) where
    detach_each-none :
        (queue : String) (names : List String)
        → IsDetached queue topics.topic_map
        → ((name : String) → listed name names ≡ true → present name topics.topic_map ≡ true)
        → detach_each env queue names app ≡ (ok tt, app)
    unfolding detach_each listed
    detach_each-none queue [] h known = refl
    detach_each-none queue (name ∷ rest) h known = elim (present-lookup name topics.topic_map) [
      | inl (_, absent) ↦
          let contra = known name (or_left _ _ (eq_refl name)) in cc (contra, absent)
      | inr (topic, found, _) ↦
          let lists = list_queues-found env name app topics topic there found in
          let none_left =
            unsubscribe_each-none queue name
              (values_of (riak.fetch_set topic.config subscriber_set_name)) app
              (lookup-IsDetached queue name topics.topic_map topic h found) in
          rw (lists, none_left)
            (detach_each-none queue rest h (λ other m. known other (or_right _ _ m)))
    ]

  -- What is present of the queues after those that are not among the names were dropped.
  module _ (topics : Topics env) (names : List String)
      (detached : (queue : String)
        → listed queue names ≡ false
        → IsDetached queue topics.topic_map) where
    drop_queue_lem :
        (queue : String) (app : App env) (queues : List (String × Queue env))
        → app.topics ≡ some topics
        → listed queue names ≡ false
        → drop_queue env queue (in_memory app queues)
          ≡ (ok tt, in_memory app (delete_key queue queues))
    unfolding drop_queue
    drop_queue_lem queue app queues there unlisted =
        let now = in_memory app queues in
        let detach = λ (t : Topics env). detach_each env queue (keys env t.topic_map) in
        let none_left : topics_in env app.topics detach now ≡ (ok tt, now) =
          ap (λ o. topics_in env o detach now) there
          ∙ detach_each-none now topics there queue (keys env topics.topic_map)
              (detached queue unlisted) (λ name m. sym (listed-keys name topics.topic_map) ∙ m) in
        rw none_left refl

    drop_unlisted-Leaves :
        (keys : List String) (app : App env) (queues : List (String × Queue env))
        → app.topics ≡ some topics
        → Leaves app
            (λ name. present name queues && not (listed name keys && not (listed name names)))
            (drop_unlisted env names keys (in_memory app queues))
    unfolding drop_unlisted listed
    drop_unlisted-Leaves [] app queues there = record {
      queues = queues;
      done = refl;
      exactly = λ name. sym (and_true (present name queues));
    }
    drop_unlisted-Leaves (queue ∷ rest) app queues there = elim (Bool-cases (listed queue names)) [
      | inl known ↦
          let others = drop_unlisted-Leaves rest app queues there in
          rw known (record {
            queues = others.queues;
            done = others.done;
            exactly = λ name. ground (arith, others.exactly name, listed_same queue name names);
          })
      | inr unknown ↦
          let others = drop_unlisted-Leaves rest app (delete_key queue queues) there in
          rw (unknown, drop_queue_lem queue app queues there unknown)
            (record {
              queues = others.queues;
              done = others.done;
              exactly = λ name. ground (
                arith,
                others.exactly name,
                listed_same queue name names,
                present-delete_key queue name queues,
              );
            })
    ]

    pub reconcile-Leaves :
        (random : ℤ → ℤ) (app : App env) (queues : List (String × Queue env))
        → app.topics ≡ some topics
        → Leaves app (λ name. listed name names) (reconcile env random names (in_memory app queues))
    unfolding reconcile
    reconcile-Leaves random app queues there =
        let made = init_missing_queues-Leaves random names app queues in
        let left = drop_unlisted-Leaves (keys env made.queues) app made.queues there in
        rw made.done (record {
          queues = left.queues;
          done = left.done;
          exactly = λ name.
              ground (arith, left.exactly name, made.exactly name, listed-keys name made.queues);
        })
