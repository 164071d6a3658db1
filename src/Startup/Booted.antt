-- ===== src/Startup/Booted.antt =====
-- What a node that has started has in memory, and when a node does not start.
use dynamiq.Prelude.{
  ◌≡◌, refl, none, some, List, [], String, Option-cases, inl, inr, false, true, ◌⊎◌, Bool-cases,
  sym, ◌∙◌, arith,
}
use dynamiq.Prelude.Int.{ℤ}
use dynamiq.Prelude.Effects.{Outcome, ok, panic}
use dynamiq.App.{Env, App, Queue, Topics}
use dynamiq.Settings.{config_missing, configuration_bucket}
use dynamiq.Registry.{values_of, queue_config_name, queue_set_name}
use dynamiq.Seeds.{seed_servers}
use dynamiq.Topics.{init_topics, topics_config_name, topic_set_name}
use dynamiq.QueueSync.{load_queues}
use dynamiq.Startup.{
  Core, Config, Packages, element, init_riak_pool, load_config, set_client, get_core_config,
  config_file, choose_client,
}

module _ (env : Env) (packages : Packages) where
  open env use {riak}
  open packages use {Level, Pool}

  pub init_riak_pool-ok :
      (core : Core Level) (app : App env)
      → init_riak_pool env packages core app
        ≡ (ok (packages.new_client_pool core.riak_nodes core.backend_connection_pool), app)
  unfolding init_riak_pool element
  init_riak_pool-ok core app =
      let first : packages.intn 1 ≡ 0 = omega (arith, packages.intn-below 1 (omega arith)) in
      rw first refl

  -- What `InitTopics` leaves: topics, of which none is in memory yet.
  pub record HasTopics (app : App env) (r : Outcome (Unit {0}) × App env) : Type 0 where
    pub topics : Topics env
    pub server : riak.Server
    pub done : r ≡ (ok tt, record app { topics = some topics; server = server })
    pub fresh : topics.topic_map ≡ []

  pub init_topics-HasTopics :
      (app : App env)
      → ((config_missing env topics_config_name app.server ≡ true)
          × (init_topics env app ≡ (panic, app)))
        ⊎ ((config_missing env topics_config_name app.server ≡ false)
            × HasTopics app (init_topics env app))
  unfolding init_topics
  init_topics-HasTopics app =
      let bucket = (riak.new_bucket_type "maps" "config" app.server).0 in
      let fetched = (riak.fetch_map bucket topics_config_name app.server).0 in
      elim (Bool-cases (riak.nil_bucket bucket)) [
        | inl b ↦ inl (rw b refl, rw b refl)
        | inr b ↦ elim (Bool-cases (riak.nil_map fetched)) [
          | inl m ↦ inl (rw (b, m) refl, rw (b, m) refl)
          | inr m ↦ inr (
            rw (b, m) refl,
            elim (Option-cases (riak.fetch_set fetched topic_set_name)) [
              | inl e ↦ rw (b, m, e) (record { topics = _; server = _; done = refl; fresh = refl })
              | inr (names, e) ↦
                  rw (b, m, e) (record { topics = _; server = _; done = refl; fresh = refl })
            ],
          )
        ]
      ]

  pub init_topics-there :
      (app : App env)
      → config_missing env topics_config_name app.server ≡ false
      → HasTopics app (init_topics env app)
  init_topics-there app there = elim (init_topics-HasTopics app) [
    | inl (missing, _) ↦ let wrong : true ≡ false = sym missing ∙ there in cc
    | inr (_, has) ↦ has
  ]

  -- The configuration that `GetCoreConfig` returns.
  abbrev pub completed : Config Level Pool → List String → Config Level Pool
  completed cfg servers = record {
    core = record cfg.core {
      seed_servers = servers;
      log_level = (packages.parse_level cfg.core.log_level_string).0;
    };
    stats = cfg.stats;
    riak_pool =
        some (packages.new_client_pool cfg.core.riak_nodes cfg.core.backend_connection_pool);
  }

  module _ (random : ℤ → ℤ) (file : String) (app : App env) where
    abbrev pub read_from : Config Level Pool
    read_from = (packages.read_file_into file).0

    pub get_core_config-loaded :
        (queues : List (String × Queue env)) (servers : List String)
        → load_queues env random app ≡ (ok tt, record app { queues = some queues })
        → (packages.read_file_into file).1 ≡ none
        → seed_servers read_from.core.seed_server read_from.core.seed_port ≡ some servers
        → (packages.parse_level read_from.core.log_level_string).1 ≡ none
        → get_core_config env packages random file app ≡ (
          ok (some (completed read_from servers)),
          record app { queues = some queues; stats = choose_client read_from.stats.kind },
        )
    unfolding get_core_config load_config set_client
    get_core_config-loaded queues servers loaded no_error made level =
        let pool = init_riak_pool-ok (record read_from.core { seed_servers = servers }) app in
        rw (no_error, made, pool, loaded, level) refl

  module _ (random : ℤ → ℤ) (flag : String) (server : riak.Server) where
    -- The configuration as it is read.
    abbrev pub read : Config Level Pool
    read = (packages.read_file_into (config_file flag)).0

    abbrev pub known_queues : List String
    known_queues =
        let bucket = (riak.new_bucket_type "maps" configuration_bucket server).0 in
        values_of (riak.fetch_set (riak.fetch_map bucket queue_config_name server).0 queue_set_name)
