-- ===== src/Settings.antt =====
-- The settings of a queue (app/config.go): read from the configuration in memory, else from Riak,
-- and written to Riak.
pub mod Stored
pub mod Kept
use dynamiq.Prelude.{
  Option, none, some, List, [], ◌∷◌, String, Bool, true, false, str_eq, if◌then◌else◌, ◌||◌,
}
use dynamiq.Prelude.Int.{ℤ}
use dynamiq.Prelude.Effects.{Outcome, ok, Action, returns, panics, gets, continue, ◌>>=◌, ◌>>◌}
use dynamiq.App.{Env, App, Queue, find_queue, ask, tell}
use dynamiq.Strconv.{NumError, atoi, itoa, parse_bool, format_bool}
use Prim.Native.String.{◌++◌}

abbrev pub configuration_bucket : String
configuration_bucket = "config"

abbrev pub visibility_timeout : String
visibility_timeout = "visibility_timeout"

abbrev pub partition_count : String
partition_count = "partition_count"

abbrev pub min_partitions : String
min_partitions = "min_partitions"

abbrev pub max_partitions : String
max_partitions = "max_partitions"

abbrev pub max_partition_age : String
max_partition_age = "max_partition_age"

abbrev pub compressed_messages : String
compressed_messages = "compressed_messages"

abbrev pub settings : List String
settings =
    visibility_timeout ∷ partition_count ∷ min_partitions ∷ max_partitions ∷ max_partition_age
    ∷ compressed_messages ∷ []

-- A name that is not in the map gives the empty string.
unfoldable pub default_settings : String → String
default_settings name =
    if str_eq name visibility_timeout
    then "30"
    else if str_eq name partition_count
    then "5"
    else if str_eq name min_partitions
    then "1"
    else if str_eq name max_partitions
    then "10"
    else if str_eq name max_partition_age
    then "432000"
    else if str_eq name compressed_messages
    then "false"
    else ""

unfoldable pub queue_config_record_name : String → String
queue_config_record_name queue_name = "queue_" ++ (queue_name ++ "_config")

-- The register may have been deleted.
unfoldable pub register_value_to_string : Option String → String × Option String
register_value_to_string none = ("", some "Register is nil.")
register_value_to_string (some value) = (value, none)

module _ (env : Env) where
  abbrev pub Method : Type 0 → Type 0
  Method A = Action (App env) A

  -- A method on a pointer, that panics if the pointer is nil.
  abbrev pub on_pointer : {A : Type 0} → Bool → Method A → Method A
  on_pointer true method = panics
  on_pointer false method = method

  -- Whether the bucket of the configuration or a map in it is a nil pointer.
  abbrev pub config_missing : String → env.riak.Server → Bool
  config_missing key server =
      let bucket = (env.riak.new_bucket_type "maps" configuration_bucket server).0 in
      env.riak.nil_bucket bucket || env.riak.nil_map (env.riak.fetch_map bucket key server).0

  -- What the configuration in memory says; the empty string where it says nothing.
  unfoldable pub cached_setting : String → String → App env → String × Option String
  cached_setting param_name queue_name app = elim (find_queue env queue_name app) [
    | none ↦ ("", none)
    | some queue ↦ elim (env.riak.fetch_register queue.config param_name) [
      | none ↦ (default_settings param_name, none)
      | some value ↦ register_value_to_string (some value)
    ]
  ]

  unfoldable pub is_not_found : Option String → Bool
  is_not_found none = false
  is_not_found (some e) = str_eq e env.riak.not_found

  -- The error of the second conversion is lost: the source assigns it to a variable of its own.
  abbrev or_empty : Option String → String
  or_empty none = ""
  or_empty (some value) = (register_value_to_string (some value)).0

  unfoldable pub read_setting : String → String → Method (String × Option String)
  read_setting param_name queue_name = do
    (bucket, _) ← ask env (env.riak.new_bucket_type "maps" configuration_bucket)
    (obj, err) ← ask env (env.riak.fetch_map bucket (queue_config_record_name queue_name))
    returns (
        if is_not_found err
        then ("", err)
        else (or_empty (env.riak.fetch_register obj param_name), none))

  abbrev is_some : Option String → Bool
  is_some none = false
  is_some (some _) = true

  unfoldable pub get_queue_setting : String → String → Method (String × Option String)
  get_queue_setting param_name queue_name = do
    (value, err) ← gets (cached_setting param_name queue_name)
    if is_some err
        then returns (value, err)
        else if str_eq value ""
        then read_setting param_name queue_name
        else returns (value, err)

  unfoldable pub store_setting :
      String → String → env.riak.RMap → Option String → Method (Option String)
  store_setting param_name value obj err = if is_not_found err then returns err else (do
    (_, stored) ← tell env (env.riak.store_map (env.riak.set_register obj param_name value))
    returns stored)

  unfoldable pub set_queue_setting : String → String → String → Method (Option String)
  set_queue_setting param_name queue_name value = do
    (bucket, _) ← ask env (env.riak.new_bucket_type "maps" configuration_bucket)
    (obj, err) ← ask env (env.riak.fetch_map bucket (queue_config_record_name queue_name))
    store_setting param_name value obj err

  unfoldable pub get_visibility_timeout : String → Method (env.floats.Float × Bool)
  get_visibility_timeout queue_name = do
    (val, _) ← get_queue_setting visibility_timeout queue_name
    returns (env.floats.parse_float val)

  unfoldable pub set_visibility_timeout : String → env.floats.Float → Method (Option String)
  set_visibility_timeout queue_name timeout =
      set_queue_setting visibility_timeout queue_name (env.floats.format_float timeout)

  unfoldable pub get_min_partitions : String → Method (ℤ × Option NumError)
  get_min_partitions queue_name = do
    (val, _) ← get_queue_setting min_partitions queue_name
    returns (atoi val)

  unfoldable pub set_min_partitions : String → ℤ → Method (Option String)
  set_min_partitions queue_name count = set_queue_setting min_partitions queue_name (itoa count)

  unfoldable pub get_max_partitions : String → Method (ℤ × Option NumError)
  get_max_partitions queue_name = do
    (val, _) ← get_queue_setting max_partitions queue_name
    returns (atoi val)

  unfoldable pub set_max_partitions : String → ℤ → Method (Option String)
  set_max_partitions queue_name count = set_queue_setting max_partitions queue_name (itoa count)

  unfoldable pub get_max_partition_age : String → Method (env.floats.Float × Bool)
  get_max_partition_age queue_name = do
    (val, _) ← get_queue_setting max_partition_age queue_name
    returns (env.floats.parse_float val)

  unfoldable pub set_max_partition_age : String → env.floats.Float → Method (Option String)
  set_max_partition_age queue_name age =
      set_queue_setting max_partition_age queue_name (env.floats.format_float age)

  unfoldable pub get_compressed_messages : String → Method (Bool × Option NumError)
  get_compressed_messages queue_name = do
    (val, _) ← get_queue_setting compressed_messages queue_name
    returns (parse_bool val)

  unfoldable pub set_compressed_messages : String → Bool → Method (Option String)
  set_compressed_messages queue_name compressed =
      set_queue_setting compressed_messages queue_name (format_bool compressed)
