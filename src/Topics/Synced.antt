-- ===== src/Topics/Synced.antt =====
-- `InitTopic` and the synchronisation of the topics in memory (app/topic.go).
use dynamiq.Prelude.{
  ◌≡◌, refl, ap, ◌∙◌, subst, none, some, List, [], ◌∷◌, String, Bool, true, false, ◌||◌, ◌&&◌,
  str_eq, eq_iff, arith, Bool-cases, inl, inr,
}
use dynamiq.Prelude.Effects.{Outcome, ok}
use dynamiq.Riak.{Riak}
use dynamiq.App.{Env, App, Topic, Topics, insert, present, present-insert}
use dynamiq.Settings.{configuration_bucket}
use dynamiq.Registry.{listed}
use dynamiq.Topics.{
  topics_config_name, topic_set_name, topic_config_record_name, init_topic, add_to_topics,
  set_topic, update_config, lock_topics, unlock_topics, init_if_missing, init_missing, keep_listed,
  sync_each, sync_names, sync_topics, skips,
}

-- What the program relies on when it stores a map to which a member was added: the map that comes
-- back still has the set.
abbrev pub KeepsSets : Riak → Type 0
KeepsSets r =
    (m : r.RMap) (set member : String) (values : List String) (s : r.Server)
    → r.fetch_set m set ≡ some values
    → (values' : List String) × (r.fetch_set (r.store_map (r.add_to_set m set member) s).0.0 set
        ≡ some values')

pub listed_same :
    (name wanted : String) (names : List String)
    → str_eq name wanted ≡ true
    → listed name names ≡ listed wanted names
listed_same name wanted names e = ap (λ n. listed n names) ((eq_iff name wanted).0 e)

-- The topics in memory after a synchronisation that returned: those of the names, and no others.
pub record HoldsExactly (env : Env) (names : List String) (app : App env)
    (r : Outcome (Unit {0}) × App env) : Type 0 where
  pub topics : Topics env
  pub returned : r.0 ≡ ok tt
  pub in_place : r.1.topics ≡ some topics
  pub exact : (name : String) → present name topics.topic_map ≡ listed name names
  pub queues_kept : r.1.queues ≡ app.queues

module _ (env : Env) (keeps : KeepsSets env.riak) where
  open env use {riak}

  abbrev in_memory : App env → Topics env → App env
  in_memory app topics = record app { topics = some topics }

  -- Topics in memory, with the set of topics in the map that lists them.
  record Ready (topics : Topics env) : Type 0 where
    names : List String
    known : riak.fetch_set topics.config topic_set_name ≡ some names

  -- What a method has done that adds topics: the state afterwards, and the names added.
  record Adds (added : String → Bool) (app : App env) (topics : Topics env)
      (r : Outcome (Unit {0}) × App env) : Type 0 where
    app' : App env
    topics' : Topics env
    done : r ≡ (ok tt, in_memory app' topics')
    ready : Ready topics'
    names_added :
        (wanted : String)
        → present wanted topics'.topic_map ≡ (added wanted || present wanted topics.topic_map)
    queues_kept : app'.queues ≡ app.queues

  twice : (a b : Bool) → (a || (a || b)) ≡ (a || b)
  twice true b = refl
  twice false b = refl

  init_topic-Adds :
      (name : String) (app : App env) (topics : Topics env)
      → Ready topics
      → Adds (str_eq name) app topics (init_topic env name (in_memory app topics))
  unfolding init_topic set_topic add_to_topics
  init_topic-Adds name app topics ready =
      let bucket = (riak.new_bucket_type "maps" configuration_bucket app.server).0 in
      let fetched = (riak.fetch_map bucket (topic_config_record_name name) app.server).0 in
      let (own, server) = riak.store_map fetched app.server in
      let (listing, server') =
        riak.store_map (riak.add_to_set topics.config topic_set_name name) server in
      record {
        app' = record app { server = server' };
        topics' = record {
          config = listing.0;
          topic_map =
              insert name (record { name = name; config = own.0 })
                (insert name (record { name = name; config = fetched }) topics.topic_map);
        };
        done = rw ready.known refl;
        ready =
            let (values, e) = keeps topics.config topic_set_name name ready.names _ ready.known in
            record { names = values; known = e };
        names_added = λ wanted.
            present-insert name wanted _ _
            ∙ ap (λ b. str_eq name wanted || b) (present-insert name wanted _ topics.topic_map)
            ∙ twice (str_eq name wanted) (present wanted topics.topic_map);
        queues_kept = refl;
      }

  -- A topic that is there already is not made again.
  init_if_missing-Adds :
      (name : String) (app : App env) (topics : Topics env)
      → Ready topics
      → Adds (str_eq name) app topics (init_if_missing env name (in_memory app topics))
  unfolding init_if_missing
  init_if_missing-Adds name app topics ready = elim (Bool-cases (present name topics.topic_map)) [
    | inr missing ↦ rw missing (init_topic-Adds name app topics ready)
    | inl there ↦ rw there (record {
      app' = app;
      topics' = topics;
      done = refl;
      ready = ready;
      names_added = λ wanted. same wanted there;
      queues_kept = refl;
    })
  ]
    where
      same :
          (wanted : String)
          → present name topics.topic_map ≡ true
          → present wanted topics.topic_map
            ≡ (str_eq name wanted || present wanted topics.topic_map)
      same wanted there = elim (Bool-cases (str_eq name wanted)) [
        | inl e ↦
            rw e (subst (λ n. present n topics.topic_map ≡ true) ((eq_iff name wanted).0 e) there)
        | inr e ↦ rw e refl
      ]

  init_missing-Adds :
      (names : List String) (app : App env) (topics : Topics env)
      → Ready topics
      → Adds
          (λ wanted. listed wanted names)
          app
          topics
          (init_missing env names (in_memory app topics))
  unfolding init_missing listed
  init_missing-Adds [] app topics ready = record {
    app' = app;
    topics' = topics;
    done = refl;
    ready = ready;
    names_added = λ wanted. refl;
    queues_kept = refl;
  }
  init_missing-Adds (name ∷ rest) app topics ready =
      let one = init_if_missing-Adds name app topics ready in
      let others = init_missing-Adds rest one.app' one.topics' one.ready in
      record {
        app' = others.app';
        topics' = others.topics';
        done = rw one.done others.done;
        ready = others.ready;
        names_added = λ wanted. ground (arith, others.names_added wanted, one.names_added wanted);
        queues_kept = others.queues_kept ∙ one.queues_kept;
      }

  present-keep_listed :
      (names : List String) (wanted : String) (entries : List (String × Topic env))
      → present wanted (keep_listed env names entries)
        ≡ (listed wanted names && present wanted entries)
  unfolding keep_listed present
  present-keep_listed names wanted [] = ground arith
  present-keep_listed names wanted ((name, topic) ∷ rest) =
      ground (arith, listed_same name wanted names, present-keep_listed names wanted rest)

  present-sync_each :
      (server : riak.Server) (wanted : String) (entries : List (String × Topic env))
      → present wanted (sync_each env server entries) ≡ present wanted entries
  unfolding sync_each present
  present-sync_each server wanted [] = refl
  present-sync_each server wanted ((name, topic) ∷ rest) =
      ap (λ b. str_eq name wanted || b) (present-sync_each server wanted rest)

  absorb : (a b : Bool) → (a && (a || b)) ≡ a
  absorb true b = refl
  absorb false b = refl

  sync_names-HoldsExactly :
      (app : App env) (topics : Topics env) (first : String) (rest : List String)
      → Ready topics
      → HoldsExactly env (first ∷ rest) app (sync_names env (first ∷ rest) (in_memory app topics))
  unfolding sync_names
  sync_names-HoldsExactly app topics first rest ready =
      let names = first ∷ rest in
      let made = init_missing-Adds names app topics ready in
      rw made.done (record {
        topics = record made.topics' {
          topic_map = sync_each env made.app'.server (keep_listed env names made.topics'.topic_map);
        };
        returned = refl;
        in_place = refl;
        exact = λ name.
            present-sync_each made.app'.server name (keep_listed env names made.topics'.topic_map)
            ∙ present-keep_listed names name made.topics'.topic_map
            ∙ ap (λ b. listed name names && b) (made.names_added name)
            ∙ absorb (listed name names) (present name topics.topic_map);
        queues_kept = made.queues_kept;
      })

  -- Where the topics are in memory with a free mutex, the bucket is found, the map of topics is
  -- read or not there, its set of topics is not empty, and a map that is stored with one member
  -- more comes back with its set, the synchronisation of the topics returns, leaves exactly the
  -- topics in memory that are named in Riak, and leaves the queues in memory as they are.
  pub sync_topics-HoldsExactly :
      (app : App env) (topics : Topics env) (first : String) (rest : List String)
      → let bucket = riak.new_bucket_type "maps" configuration_bucket app.server in
        let fetched = riak.fetch_map bucket.0 topics_config_name app.server in
        app.topics ≡ some topics
        → app.topics_locked ≡ false
        → bucket.1 ≡ none
        → skips env fetched.1 ≡ false
        → riak.fetch_set fetched.0 topic_set_name ≡ some (first ∷ rest)
        → HoldsExactly env (first ∷ rest) app (sync_topics env app)
  unfolding sync_topics update_config lock_topics unlock_topics
  sync_topics-HoldsExactly app topics first rest there free found proceeds known =
      let config =
        (riak.fetch_map (riak.new_bucket_type "maps" configuration_bucket app.server).0
          topics_config_name app.server).0 in
      let refreshed = record topics { config = config } in
      rw (found, proceeds, there, free, known)
        (sync_names-HoldsExactly (record app { topics = some topics; topics_locked = false })
          refreshed first rest (record { names = first ∷ rest; known = known }))
