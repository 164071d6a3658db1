-- ===== src/Tests/Startup.antt =====
-- A node that starts, with a configuration that names three seed servers or only itself.
use dynamiq.Prelude.{none, List, [], ◌∷◌, String, if◌then◌else◌, str_eq}
use dynamiq.Prelude.Int.{pos}
use dynamiq.Seeds.{address}
use dynamiq.Startup.{Config, Packages}

abbrev pub read_config : String → Config String String
read_config seeds = record {
  core = record {
    name = "a";
    port = pos 7000;
    seed_server = seeds;
    seed_port = pos 7000;
    seed_servers = [];
    http_port = pos 8081;
    riak_nodes = "riak";
    backend_connection_pool = pos 16;
    sync_config_interval = pos 2000;
    log_level = "";
    log_level_string = "debug";
  };
  stats = record { kind = "statsd"; flush_interval = pos 2; address = "stats:8125"; prefix = "dq" };
  riak_pool = none;
}

-- The flag names the seed servers.
abbrev pub packages : Packages
packages = record {
  Level = String;
  Pool = String;
  read_file_into = λ file. (read_config file, none);
  parse_level = λ level. (level, none);
  new_client_pool = λ host count. host;
  intn = λ n. 0;
  intn-below = λ n h. h;
  create_memberlist = λ name port. none;
}

-- What Riak knows.
abbrev pub known : String → List String
known key = if str_eq key "queue_config" then "jobs" ∷ "mail" ∷ [] else []
