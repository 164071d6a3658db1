-- ===== src/Tests/Registry.antt =====
-- Runs of `InitializeQueue`, `Exists` and `DeleteQueue` (app/config.go, app/queue.go), the last two
-- on a cluster whose maps hold one set each.
use dynamiq.Prelude.{
  false, ◌≡◌, refl, none, some, [], ◌∷◌, true, not, ◌&&◌, str_eq, if◌then◌else◌, arith,
}
use dynamiq.Prelude.Effects.{ok}
use dynamiq.Stats.{statsd}
use dynamiq.App.{App, Queue, find_queue, lookup, insert}
use dynamiq.Settings.{
  get_min_partitions, get_queue_setting, cached_setting, read_setting, is_not_found,
  queue_config_record_name, register_value_to_string, default_settings,
}
use dynamiq.Strconv.{atoi}
use dynamiq.Registry.{
  listed, exists, add_to_known_queues, delete_queue, initialize_queue, create_config_for_queue,
}
use dynamiq.Registry.Known.{exists-delete_queue}
use dynamiq.Registry.Created.{IsNew, with_config, initialize_queue-IsNew}
use dynamiq.Tests.Sets.{set_env, set_riak-StoresSets}
use dynamiq.Tests.World.{draw}
use dynamiq.Tests.Cluster.{env, empty_app}

abbrev pub two_known : App set_env
two_known = record {
  server = λ key. "jobs" ∷ "mail" ∷ [];
  queues = none;
  topics = none;
  stats = statsd;
  calls = [];
  topics_locked = false;
  drawn = 0;
}

exists-delete_queue_example :
    ((delete_queue set_env "jobs" two_known).0 ≡ ok true)
    × ((exists set_env "mail" (delete_queue set_env "jobs" two_known).1).0
        ≡ ok (not (str_eq "jobs" "mail") && listed "mail" ("jobs" ∷ "mail" ∷ [])))
exists-delete_queue_example =
    exists-delete_queue set_env set_riak-StoresSets "jobs" "mail" two_known ("jobs" ∷ "mail" ∷ [])
      refl refl

abbrev pub no_queues : App env
no_queues = record empty_app { queues = some [] }

abbrev pub news_config : env.riak.RMap
news_config = (
  "queue_news_config",
  ("visibility_timeout", "30")
      ∷ ("partition_count", "5")
      ∷ ("min_partitions", "1")
      ∷ ("max_partitions", "10")
      ∷ ("max_partition_age", "432000")
      ∷ ("compressed_messages", "false")
      ∷ [],
)

initialize_queue-IsNew_example :
    let (r, app') = initialize_queue env draw "news" no_queues in
    (queue : Queue env) × IsNew env 1 queue
    × (r ≡ (add_to_known_queues env "news" (with_config env draw "news" no_queues)).0)
    × (find_queue env "news" app'
        ≡ (if str_eq "news" "news" then some queue else find_queue env "news" no_queues))
unfolding create_config_for_queue get_min_partitions queue_config_record_name insert lookup
    default_settings get_queue_setting cached_setting find_queue add_to_known_queues read_setting
    atoi is_not_found register_value_to_string
initialize_queue-IsNew_example =
    initialize_queue-IsNew env draw "news" no_queues [] news_config 1 none "news" refl refl refl
      (omega arith)
