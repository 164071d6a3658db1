-- ===== src/Tests/System.antt =====
-- A node that has started and serves a request.
use dynamiq.Prelude.Text.{str_ltb}
use dynamiq.Lane.ListQueue.{pop_list}
use dynamiq.Prelude.Int64.{int64, saturate64}
use dynamiq.Strconv.{atoi}
use dynamiq.Stats.{client_incr, client_set_gauge}
use dynamiq.Counters.{record_fill_ratio, increment_receive_count, set_queue_depth_apr}
use dynamiq.Nodes.Sorting.{sort_strings}
use dynamiq.Partitions.{
  no_partitions_yet, init_partitions, get_partition_position, range_of, get_partition,
  push_partition,
}
use dynamiq.Http.Delivery.{handle_get_messages}
use dynamiq.Settings.{
  read_setting, get_min_partitions, cached_setting, register_value_to_string, get_queue_setting,
  is_not_found, queue_config_record_name, get_max_partition_age, get_compressed_messages,
  get_visibility_timeout,
}
use dynamiq.Prelude.Effects.{blocked, out_of_fuel}
use dynamiq.Prelude.{◌≢◌, if◌then◌else◌, ℕ, ◌≡◌, refl, some, [], ◌∷◌, String, str_eq, Perm, false}
use dynamiq.Prelude.Int.{quot, pos, negsuc, ◌+ℤ◌, ◌-ℤ◌, ◌*ℤ◌}
use dynamiq.Partitions.Whole.{ids, ids_below}
use dynamiq.App.{on_parts, Env, App, Queue, find_queue}
use dynamiq.Startup.{start, new_app}
use dynamiq.Http.Server.{Surroundings, serve, get_messages, queue_of}
use dynamiq.System.{Reach, here, next, request}
use dynamiq.System.Invariant.{queues_stay_whole, requests_never_wait, requests_isolated}
use dynamiq.Tests.World.{all_read_first, draw, lane, node_a, noon}
use dynamiq.Tests.Sets.{set_env, set_riak}
use dynamiq.Tests.Startup.{packages, known}

-- Every queue has two partitions and compresses nothing.
abbrev node_env : Env
node_env = record set_env {
  riak = record set_riak {
    fetch_register = λ m name. some (if str_eq name "compressed_messages" then "false" else "2");
  };
}

abbrev around : Surroundings
around = record {
  list = node_a;
  members = ("a", "10.0.0.1") ∷ [];
  now = pos noon;
  later = pos noon;
  arrive = all_read_first;
  random = draw;
}

-- The node has started, and a client has asked for messages.
abbrev started : App node_env
started = (start node_env packages draw "b,a,c" (new_app node_env known)).1

abbrev asked : App node_env
asked = (serve node_env around (get_messages "jobs" "10") started).1

asked-Reach : Reach node_env started asked
asked-Reach = next here (request around (get_messages "jobs" "10"))

abbrev jobs_now : Queue node_env
jobs_now = record {
  name = "jobs";
  parts = record {
    partitions =
        (record { id = pos 0; last_used = pos 1706090398000000000 }, pos 1706090398000000000)
        ∷ (record { id = pos 1; last_used = negsuc 62135596799999999999 }, pos 1)
        ∷ [];
    partition_count = pos 2;
    locked = false;
  };
  config = ("queue_jobs_config", []);
}

jobs_found : find_queue node_env "jobs" asked ≡ some jobs_now
unfolding find_queue on_parts queue_config_record_name register_value_to_string cached_setting
    is_not_found read_setting get_queue_setting get_visibility_timeout get_min_partitions
    get_max_partition_age get_compressed_messages start new_app no_partitions_yet init_partitions
    get_partition_position range_of get_partition push_partition sort_strings record_fill_ratio
    increment_receive_count set_queue_depth_apr client_incr client_set_gauge atoi serve
    handle_get_messages int64 saturate64 ◌+ℤ◌ ◌-ℤ◌ ◌*ℤ◌ quot pop_list str_ltb
jobs_found = refl

asked_free : asked.topics_locked ≡ false
unfolding find_queue on_parts queue_config_record_name register_value_to_string cached_setting
    is_not_found read_setting get_queue_setting get_visibility_timeout get_min_partitions
    get_max_partition_age get_compressed_messages start new_app no_partitions_yet init_partitions
    get_partition_position range_of get_partition push_partition sort_strings record_fill_ratio
    increment_receive_count set_queue_depth_apr client_incr client_set_gauge atoi serve
    handle_get_messages int64 saturate64 ◌+ℤ◌ ◌-ℤ◌ ◌*ℤ◌ quot pop_list str_ltb
asked_free = refl

queues_stay_whole_example :
    (size : ℕ) × (jobs_now.parts.partition_count ≡ pos size)
    × Perm (ids (lane.contents jobs_now.parts.partitions)) (ids_below size)
queues_stay_whole_example =
    queues_stay_whole node_env packages draw "b,a,c" known asked asked-Reach "jobs" jobs_now
      jobs_found

requests_never_wait_example :
    let (outcome, _) = serve node_env around (get_messages "jobs" "10") asked in
    (outcome ≢ blocked) × (outcome ≢ out_of_fuel)
requests_never_wait_example =
    requests_never_wait node_env packages draw "b,a,c" known asked asked-Reach asked_free around
      (get_messages "jobs" "10")

-- The queue that the request names is not the other one.
unnamed :
    (queue : String)
    → queue_of node_env (get_messages "jobs" "10") ≡ some queue
    → str_eq queue "mail" ≡ false
unfolding queue_of
unnamed queue named = let same : "jobs" ≡ queue = cc named in rw (← same) refl

requests_isolated_example :
    find_queue node_env "mail" (serve node_env around (get_messages "jobs" "10") started).1
    ≡ find_queue node_env "mail" started
requests_isolated_example =
    requests_isolated node_env around (get_messages "jobs" "10") "mail" started unnamed
