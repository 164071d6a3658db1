-- ===== src/Startup.antt =====
-- How a node starts: `main` of dynamiq.go, `GetCoreConfig` and `initRiakPool` of app/config.go,
-- `InitMemberList` of app/members.go, and the clients of app/stats/stats.go that the configuration
-- chooses. What the packages gcfg, logrus, memberlist and goriakpbc do there is a parameter.
-- `logrus.Fatal` ends the process: `none` stands for that.
pub mod Booted
pub mod Ended
use dynamiq.Prelude.{
  ℕ, zero, suc, ◌<◌, Option, none, some, List, [], ◌∷◌, String, Bool, false, str_eq, length,
  if◌then◌else◌,
}
use dynamiq.Prelude.Int.{ℤ}
use dynamiq.Prelude.Effects.{Outcome, ok, panic, returns, modify, ◌>>=◌, ◌>>◌}
use dynamiq.Stats.{Client, statsd, noop}
use dynamiq.App.{Env, App}
use dynamiq.Settings.{Method}
use dynamiq.Seeds.{seed_servers, join_servers}
use dynamiq.QueueSync.{load_queues}
use dynamiq.Topics.{init_topics}

pub record Core (Level : Type 0) : Type 0 where
  pub name : String
  pub port : ℤ
  pub seed_server : String
  pub seed_port : ℤ
  pub seed_servers : List String
  pub http_port : ℤ
  pub riak_nodes : String
  pub backend_connection_pool : ℤ
  pub sync_config_interval : ℤ
  pub log_level : Level
  pub log_level_string : String

-- The client that is chosen stands in the shared state.
pub record Stats : Type 0 where
  pub kind : String
  pub flush_interval : ℤ
  pub address : String
  pub prefix : String

-- The queues, the topics and the compressor stand in the shared state and in its environment.
pub record Config (Level Pool : Type 0) : Type 0 where
  pub core : Core Level
  pub stats : Stats
  pub riak_pool : Option Pool

pub record Packages : Type 1 where
  pub Level : Type 0
  pub Pool : Type 0
  -- `gcfg.ReadFileInto`: what it reads, and the error
  pub read_file_into : String → Config Level Pool × Option String
  -- `logrus.ParseLevel`
  pub parse_level : String → Level × Option String
  -- `riak.NewClientPool`
  pub new_client_pool : String → ℤ → Pool
  -- `rand.Intn`: a number below its argument
  pub intn : ℕ → ℕ
  pub intn-below : (n : ℕ) → 0 < n → intn n < n
  -- the error of `memberlist.Create` with a name and a port
  pub create_memberlist : String → ℤ → Option String

-- What is at a position of a slice; past its end Go panics.
unfoldable pub element : List String → ℕ → Outcome String
element [] n = panic
element (x ∷ l) zero = ok x
element (x ∷ l) (suc n) = element l n

abbrev pub default_config_file : String
default_config_file = "./lib/config.gcfg"

-- The file that `main` reads, from the flag `-c`.
unfoldable pub config_file : String → String
config_file flag = if str_eq flag "" then default_config_file else flag

-- The client that the switch in `GetCoreConfig` chooses.
unfoldable pub choose_client : String → Client
choose_client kind = if str_eq kind "statsd" then statsd else noop

module _ (env : Env) (packages : Packages) where
  open packages use {Level, Pool}

  -- What follows, unless the process has ended.
  abbrev pub unless_ended :
      {A B : Type 0} → Option A → (A → Method env (Option B)) → Method env (Option B)
  unless_ended none next = returns none
  unless_ended (some a) next = next a

  -- `if err != nil { logrus.Fatal(err) }`
  abbrev pub fatal_on : {B : Type 0} → Option String → Method env (Option B) → Method env (Option B)
  fatal_on none next = next
  fatal_on (some e) next = returns none

  unfoldable pub init_riak_pool : Core Level → Method env Pool
  unfolding element
  init_riak_pool core = do
    let hosts = core.riak_nodes ∷ []
    host ← λ app. (element hosts (packages.intn (length hosts)), app)
    returns (packages.new_client_pool host core.backend_connection_pool)

  -- `cfg.Stats.Client = client`
  unfoldable pub set_client : Client → Method env (Unit {0})
  set_client client = modify (λ app. record app { stats = client })

  -- From the connection to Riak on.
  unfoldable pub load_config : (ℤ → ℤ) → Config Level Pool → Method env (Option (Config Level Pool))
  unfolding init_riak_pool load_queues choose_client set_client
  load_config random cfg = do
    pool ← init_riak_pool cfg.core
    load_queues env random
    set_client (choose_client cfg.stats.kind)
    fatal_on (packages.parse_level cfg.core.log_level_string).1 (
        returns (
          some (record cfg {
            core = record cfg.core {
              log_level = (packages.parse_level cfg.core.log_level_string).0;
            };
            riak_pool = some pool;
          })))

  -- `random` draws the priorities of the partitions.
  unfoldable pub get_core_config : (ℤ → ℤ) → String → Method env (Option (Config Level Pool))
  unfolding load_config seed_servers
  get_core_config random file =
      let (cfg, err) = packages.read_file_into file in
      fatal_on err (
        unless_ended (seed_servers cfg.core.seed_server cfg.core.seed_port) (λ servers.
          load_config random (record cfg { core = record cfg.core { seed_servers = servers } })))

  -- The servers that the node joins. That joining fails is only logged.
  unfoldable pub init_member_list : Core Level → Method env (Option (List String))
  unfolding join_servers
  init_member_list core =
      fatal_on (packages.create_memberlist core.name core.port)
        (returns (join_servers core.name core.seed_port core.seed_servers))

  -- What `main` hands to the web server.
  pub record Started : Type 0 where
    pub config : Config Level Pool
    pub joined : List String

  -- From the configuration on.
  unfoldable pub join_cluster : Config Level Pool → Method env (Option Started)
  unfolding init_topics init_member_list
  join_cluster config = do
    init_topics env
    members ← init_member_list config.core
    unless_ended members (λ joined. returns (some (record { config = config; joined = joined })))

  unfoldable pub start : (ℤ → ℤ) → String → Method env (Option Started)
  unfolding config_file get_core_config join_cluster
  start random flag = do
    config ← get_core_config random (config_file flag)
    unless_ended config join_cluster

-- The state of the process before: the clients are chosen later, and nothing is loaded.
unfoldable pub new_app : (env : Env) → env.riak.Server → App env
new_app env server = record {
  server = server;
  queues = none;
  topics = none;
  stats = noop;
  calls = [];
  topics_locked = false;
  drawn = 0;
}
