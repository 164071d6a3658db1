-- ===== src/System/Starting.antt =====
-- The queues in memory when a node has started (dynamiq.go, app/config.go).
use dynamiq.Prelude.{refl, sym, ap, subst, Option, none, some, String}
use dynamiq.Prelude.Int.{ℤ}
use dynamiq.App.{Env}
use dynamiq.Stats.{Client}
use dynamiq.Settings.{Method}
use dynamiq.QueueSync.{load_queues}
use dynamiq.Startup.{
  Packages, Config, Core, set_client, unless_ended, fatal_on, init_riak_pool, load_config,
  get_core_config, init_member_list, join_cluster, start, new_app,
}
use dynamiq.Startup.Booted.{init_riak_pool-ok}
use dynamiq.System.Keeps.{Keeps, Keeps-returns, keeps_rules}
use dynamiq.System.Keeps.Topics.{init_topics-Keeps}
use dynamiq.System.Whole.{AllWhole, AllWhole-none, AllWhole-queues}
use dynamiq.System.Loaded.{load_queues-AllWhole}

module _ (env : Env) (packages : Packages) where
  open packages use {Level, Pool}

  fatal_on-Keeps :
      {B : Type 0} (err : Option String) (m : Method env (Option B))
      → Keeps (AllWhole env) (Unit {0}) m
      → Keeps (AllWhole env) (Unit {0}) (fatal_on env packages err m)
  fatal_on-Keeps none m k = k
  fatal_on-Keeps (some e) m k = Keeps-returns _

  unless_ended-Keeps :
      {A B : Type 0} (o : Option A) (m : A → Method env (Option B))
      → ((a : A) → Keeps (AllWhole env) (Unit {0}) (m a))
      → Keeps (AllWhole env) (Unit {0}) (unless_ended env packages o m)
  unless_ended-Keeps none m k = Keeps-returns _
  unless_ended-Keeps (some a) m k = k a

  init_riak_pool-Keeps :
      (core : Core Level) → Keeps (AllWhole env) (Unit {0}) (init_riak_pool env packages core)
  init_riak_pool-Keeps core = record {
    at = λ app h.
        subst (AllWhole env) (sym (ap (λ p. p.1) (init_riak_pool-ok env packages core app))) h;
    stuck = λ app h waits. tt;
  }

  set_client-Keeps :
      (client : Client) → Keeps (AllWhole env) (Unit {0}) (set_client env packages client)
  unfolding set_client
  set_client-Keeps client = record {
    at = λ app h. AllWhole-queues env app _ refl h;
    stuck = λ app h waits. tt;
  }

  module _ (random : ℤ → ℤ) where
    load_queues-Keeps : Keeps (AllWhole env) (Unit {0}) (load_queues env random)
    load_queues-Keeps = record {
      at = λ app h. load_queues-AllWhole env random app h;
      stuck = λ app h waits. tt;
    }

    load_config-Keeps :
        (cfg : Config Level Pool)
        → Keeps (AllWhole env) (Unit {0}) (load_config env packages random cfg)
    unfolding load_config
    load_config-Keeps cfg =
        search
          (keeps_rules, init_riak_pool-Keeps, load_queues-Keeps, set_client-Keeps, fatal_on-Keeps)
          depth 7

    get_core_config-Keeps :
        (file : String) → Keeps (AllWhole env) (Unit {0}) (get_core_config env packages random file)
    unfolding get_core_config
    get_core_config-Keeps file = search (fatal_on-Keeps, unless_ended-Keeps, load_config-Keeps)

    join_cluster-Keeps :
        (cfg : Config Level Pool) → Keeps (AllWhole env) (Unit {0}) (join_cluster env packages cfg)
    unfolding join_cluster init_member_list
    join_cluster-Keeps cfg =
        search (keeps_rules, init_topics-Keeps, fatal_on-Keeps, unless_ended-Keeps, AllWhole-queues)
          depth 7

    start-Keeps : (flag : String) → Keeps (AllWhole env) (Unit {0}) (start env packages random flag)
    unfolding start
    start-Keeps flag =
        search (keeps_rules, get_core_config-Keeps, unless_ended-Keeps, join_cluster-Keeps)

    pub start-AllWhole :
        (flag : String) (server : env.riak.Server)
        → AllWhole env (start env packages random flag (new_app env server)).1
    unfolding new_app
    start-AllWhole flag server =
        (start-Keeps flag).at (new_app env server) (AllWhole-none env (new_app env server) refl)
