-- ===== src/System/Keeps/Settings.antt =====
-- The settings and the statistics of a queue (app/config.go, app/queue.go): reading and writing them
-- leaves the queues in memory as they are.
use dynamiq.Prelude.{◌≡◌, List, String, Bool}
use dynamiq.Prelude.Int.{ℤ}
use dynamiq.App.{Env, App}
use dynamiq.Nodes.{Memberlist}
use dynamiq.Settings.{
  read_setting, get_queue_setting, store_setting, set_queue_setting, get_visibility_timeout,
  set_visibility_timeout, get_min_partitions, set_min_partitions, get_max_partition_age,
  set_max_partition_age, get_compressed_messages, set_compressed_messages,
}
use dynamiq.Counters.{
  increment_message_count, decrement_message_count, increment_receive_count, record_fill_ratio,
  set_queue_depth_apr,
}
use dynamiq.Messages.{partition_settings}
use dynamiq.System.Keeps.{Keeps, keeps_rules}

module _ (env : Env) {P : App env → Type 0} {W : Type 0}
    (frame : (app app' : App env) → app'.queues ≡ app.queues → P app → P app') where
  open env use {riak, floats}

  get_queue_setting-Keeps : (p queue : String) → Keeps P W (get_queue_setting env p queue)
  unfolding get_queue_setting read_setting
  get_queue_setting-Keeps p queue = search keeps_rules depth 7

  set_queue_setting-Keeps : (p queue v : String) → Keeps P W (set_queue_setting env p queue v)
  unfolding set_queue_setting store_setting
  set_queue_setting-Keeps p queue v = search keeps_rules depth 7

  module _ (name : String) where
    pub get_visibility_timeout-Keeps : Keeps P W (get_visibility_timeout env name)
    unfolding get_visibility_timeout
    get_visibility_timeout-Keeps = search (keeps_rules, get_queue_setting-Keeps)

    pub get_min_partitions-Keeps : Keeps P W (get_min_partitions env name)
    unfolding get_min_partitions
    get_min_partitions-Keeps = search (keeps_rules, get_queue_setting-Keeps)

    pub get_max_partition_age-Keeps : Keeps P W (get_max_partition_age env name)
    unfolding get_max_partition_age
    get_max_partition_age-Keeps = search (keeps_rules, get_queue_setting-Keeps)

    pub get_compressed_messages-Keeps : Keeps P W (get_compressed_messages env name)
    unfolding get_compressed_messages
    get_compressed_messages-Keeps = search (keeps_rules, get_queue_setting-Keeps)

    pub set_visibility_timeout-Keeps :
        (v : floats.Float) → Keeps P W (set_visibility_timeout env name v)
    unfolding set_visibility_timeout
    set_visibility_timeout-Keeps v = set_queue_setting-Keeps _ _ _

    pub set_min_partitions-Keeps : (v : ℤ) → Keeps P W (set_min_partitions env name v)
    unfolding set_min_partitions
    set_min_partitions-Keeps v = set_queue_setting-Keeps _ _ _

    pub set_max_partition_age-Keeps :
        (v : floats.Float) → Keeps P W (set_max_partition_age env name v)
    unfolding set_max_partition_age
    set_max_partition_age-Keeps v = set_queue_setting-Keeps _ _ _

    pub set_compressed_messages-Keeps : (v : Bool) → Keeps P W (set_compressed_messages env name v)
    unfolding set_compressed_messages
    set_compressed_messages-Keeps v = set_queue_setting-Keeps _ _ _

    pub partition_settings-Keeps : Keeps P W (partition_settings env name)
    unfolding partition_settings
    partition_settings-Keeps =
        search
          (
            keeps_rules, get_visibility_timeout-Keeps, get_min_partitions-Keeps,
            get_max_partition_age-Keeps,
          )
          depth 7

    pub increment_message_count-Keeps : (n : ℤ) → Keeps P W (increment_message_count env name n)
    unfolding increment_message_count
    increment_message_count-Keeps n = search (keeps_rules, frame)

    pub decrement_message_count-Keeps : (n : ℤ) → Keeps P W (decrement_message_count env name n)
    unfolding decrement_message_count
    decrement_message_count-Keeps n = search (keeps_rules, frame)

    pub increment_receive_count-Keeps : (n : ℤ) → Keeps P W (increment_receive_count env name n)
    unfolding increment_receive_count
    increment_receive_count-Keeps n = search (keeps_rules, frame)

    pub record_fill_ratio-Keeps : (size n : ℤ) → Keeps P W (record_fill_ratio env name size n)
    unfolding record_fill_ratio
    record_fill_ratio-Keeps size n = search (keeps_rules, frame)

    pub set_queue_depth_apr-Keeps :
        (n : ℤ) (list : Memberlist) (ids : List String)
        → Keeps P W (set_queue_depth_apr env name n list ids)
    unfolding set_queue_depth_apr
    set_queue_depth_apr-Keeps n list ids = search (keeps_rules, frame)

  pub ruleset setting_rules = (
    keeps_rules, get_visibility_timeout-Keeps, get_min_partitions-Keeps,
    get_max_partition_age-Keeps, get_compressed_messages-Keeps, set_visibility_timeout-Keeps,
    set_min_partitions-Keeps, set_max_partition_age-Keeps, set_compressed_messages-Keeps,
    partition_settings-Keeps, increment_message_count-Keeps, decrement_message_count-Keeps,
    increment_receive_count-Keeps, record_fill_ratio-Keeps, set_queue_depth_apr-Keeps,
  )
