-- ===== src/Startup/Ended.antt =====
-- When `main` ends the process before it serves requests.
use dynamiq.Prelude.{◌≡◌, Option, none, some, List, [], ◌∷◌, String, true, str_eq, ◌⊎◌}
use dynamiq.Prelude.Int.{ℤ}
use dynamiq.Prelude.Effects.{Outcome, ok, panic}
use dynamiq.App.{Env, App}
use dynamiq.Strings.{split_commas}
use dynamiq.Seeds.{seed_servers}
use dynamiq.Settings.{config_missing}
use dynamiq.Registry.{queue_config_name}
use dynamiq.Topics.{topics_config_name}
use dynamiq.Startup.{Config, Packages, get_core_config, config_file}
use dynamiq.Startup.Booted.{completed}

module _ (env : Env) (packages : Packages) (random : ℤ → ℤ) (flag : String) where
  open packages use {Level, Pool}

  abbrev pub configured : Config Level Pool
  configured = (packages.read_file_into (config_file flag)).0

  -- The reasons for which the process ends, in the order in which they are met.
  pub data Fails : Type 0 where
    unreadable : (e : String) → (packages.read_file_into (config_file flag)).1 ≡ some e → Fails
    no_seed_server :
        (packages.read_file_into (config_file flag)).1 ≡ none
        → str_eq configured.core.seed_server "" ≡ true
        → Fails
    unknown_level :
        (e : String)
        → (packages.read_file_into (config_file flag)).1 ≡ none
        → (packages.parse_level configured.core.log_level_string).1 ≡ some e
        → Fails
    no_memberlist :
        (e : String)
        → (packages.read_file_into (config_file flag)).1 ≡ none
        → packages.create_memberlist configured.core.name configured.core.port ≡ some e
        → Fails
    alone :
        (packages.read_file_into (config_file flag)).1 ≡ none
        → split_commas configured.core.seed_server ≡ configured.core.name ∷ []
        → Fails

  -- That the process ends: by `logrus.Fatal`, or by a panic where a pointer that Riak should have
  -- answered is nil.
  abbrev pub Ends : {A : Type 0} → App env → Outcome (Option A) → Type 0
  Ends app r =
      (r ≡ ok none)
      ⊎ (((config_missing env queue_config_name app.server ≡ true)
            ⊎ (config_missing env topics_config_name app.server ≡ true))
          × (r ≡ panic))

  -- Once the file is read, the configuration is complete or the process ends.
  record Configures (app : App env) : Type 0 where
    servers : List String
    after : App env
    made : seed_servers configured.core.seed_server configured.core.seed_port ≡ some servers
    level : (packages.parse_level configured.core.log_level_string).1 ≡ none
    server_kept : after.server ≡ app.server
    done :
        get_core_config env packages random (config_file flag) app
        ≡ (ok (some (completed env packages configured servers)), after)
