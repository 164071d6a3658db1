-- ===== src/Tests/Settings.antt =====
-- Runs of the code of app/config.go.
use dynamiq.Prelude.{◌≡◌, refl, none, some, [], ◌∷◌, arith}
use dynamiq.Prelude.Int.{pos}
use dynamiq.Prelude.Effects.{ok}
use dynamiq.App.{App, Queue, find_queue, lookup}
use dynamiq.Settings.{
  get_min_partitions, set_min_partitions, get_queue_setting, set_queue_setting, store_setting,
  is_not_found, queue_config_record_name, min_partitions,
}
use dynamiq.Settings.Stored.{get-set_min_partitions, get_queue_setting-stale}
use dynamiq.Tests.World.{waiting}
use dynamiq.Tests.Cluster.{env, riak-StoresMaps, empty_app}

get-set_min_partitions_example :
    (get_min_partitions env "jobs" (set_min_partitions env "jobs" (pos 42) empty_app).1).0
    ≡ ok (pos 42, none)
unfolding set_min_partitions find_queue set_queue_setting store_setting is_not_found
    queue_config_record_name
get-set_min_partitions_example =
    get-set_min_partitions env riak-StoresMaps "jobs" (pos 42) empty_app (omega arith) (omega arith)
      refl refl

abbrev jobs : Queue env
jobs = record {
  name = "jobs";
  parts = waiting;
  config = ("queue_jobs_config", ("min_partitions", "1") ∷ []);
}

abbrev jobs_in_memory : App env
jobs_in_memory = record empty_app { queues = some (("jobs", jobs) ∷ []) }

abbrev after_write : App env
after_write = (set_queue_setting env min_partitions "jobs" "42" jobs_in_memory).1

get_queue_setting-stale_example :
    (get_queue_setting env min_partitions "jobs" jobs_in_memory ≡ (ok ("1", none), jobs_in_memory))
    × (get_queue_setting env min_partitions "jobs" after_write ≡ (ok ("1", none), after_write))
unfolding find_queue lookup
get_queue_setting-stale_example =
    get_queue_setting-stale env min_partitions "jobs" "1" min_partitions "jobs" "42" jobs_in_memory
      jobs refl refl refl
