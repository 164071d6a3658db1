-- ===== src/Tests/Messages.antt =====
-- Runs of the code of app/queue.go.
use dynamiq.Prelude.{◌≡◌, refl, none, [], ◌∷◌, true, arith}
use dynamiq.Prelude.Effects.{ok}
use dynamiq.App.{App, find_queue}
use dynamiq.Settings.{
  get_compressed_messages, get_queue_setting, read_setting, is_not_found, queue_config_record_name,
  cached_setting, register_value_to_string,
}
use dynamiq.Strconv.{parse_bool, itoa}
use dynamiq.Messages.{put, batch_delete, retrieve_messages}
use dynamiq.Messages.OneByOne.{delete_each, batch_delete-each}
use dynamiq.Messages.Deletion.{BatchDeletes, batch_delete-BatchDeletes}
use dynamiq.Messages.Repair.{put_messages, retrieve_messages-repairs}
use dynamiq.App.{Env}
use dynamiq.Messages.Retrieval.{with_data}
use dynamiq.Messages.{fetch_object}
use dynamiq.Messages.RoundTrip.{retrieve_messages-put}
use dynamiq.Messages.{get, partition_settings}
use dynamiq.Messages.Serving.{Holds, get-Serves}
use dynamiq.Messages.Retrieval.{Returns}
use dynamiq.Partitions.{Settings, Handout, get_partition}
use dynamiq.App.{Queue, lookup}
use dynamiq.Prelude.{List, String, some, true, false}
use dynamiq.Prelude.Int.{pos}
use mathlib.Core.List.Perm
use dynamiq.Tests.World.{all_read_first, floats, lane, node_a, noon, waiting}
use dynamiq.Tests.Cluster.{env, riak, riak-StoresObjects, empty_app}

-- One of the two messages is there.
batch_delete-BatchDeletes_example :
    BatchDeletes env "jobs"
      ("7" ∷ "8" ∷ [])
      empty_app
      (batch_delete env "jobs" ("7" ∷ "8" ∷ []) empty_app)
batch_delete-BatchDeletes_example =
    batch_delete-BatchDeletes env "jobs" ("7" ∷ "8" ∷ []) empty_app (omega arith)

abbrev compressing : App env
compressing = record empty_app {
  server = record {
    maps = ("queue_jobs_config", ("compressed_messages", "true") ∷ []) ∷ [];
    objects = [];
  };
}

-- Two messages are there, in a queue that does not compress them.
abbrev stored : App env
stored = record empty_app {
  server = record {
    maps = ("queue_jobs_config", ("compressed_messages", "false") ∷ []) ∷ [];
    objects = ("7", 104 ∷ []) ∷ ("8", 105 ∷ []) ∷ [];
  };
}

retrieve_messages-put_example :
    let (r, app') = put env "jobs" (104 ∷ 105 ∷ []) compressing in
    (r ≡ ok "40")
    × (o : riak.RObject) × ((retrieve_messages env "jobs" (("40", 0) ∷ []) app').0 ≡ ok (o ∷ []))
    × (riak.object_body o ≡ 104 ∷ 105 ∷ [])
unfolding find_queue get_compressed_messages get_queue_setting cached_setting read_setting
    parse_bool is_not_found queue_config_record_name register_value_to_string itoa
retrieve_messages-put_example =
    retrieve_messages-put env "jobs" (104 ∷ 105 ∷ []) compressing riak-StoresObjects
      (λ m fits. refl) true none refl refl refl refl refl (λ e. cc) 0

-- A cluster in which three messages were stored under one key, of which one is empty.
abbrev conflicting_env : Env
conflicting_env = record env {
  riak = record riak {
    conflict = λ object. true;
    siblings = λ object. (104 ∷ []) ∷ [] ∷ (105 ∷ []) ∷ [];
  };
}

abbrev conflicting : App conflicting_env
conflicting = record {
  server = stored.server;
  queues = none;
  topics = none;
  stats = stored.stats;
  calls = [];
  topics_locked = false;
  drawn = 0;
}

retrieve_messages-repairs_example :
    let object = fetch_object conflicting_env "jobs" false "7" conflicting.server in
    (ids : List String) × (after : App conflicting_env) × (put_messages conflicting_env "jobs"
        ((104 ∷ []) ∷ (105 ∷ []) ∷ [])
        conflicting
      ≡ (ok ids, after))
    × (retrieve_messages conflicting_env "jobs" (("7", 0) ∷ []) conflicting
        ≡ (ok (with_data conflicting_env (object ∷ [])), after))
unfolding find_queue get_compressed_messages get_queue_setting cached_setting read_setting
    parse_bool is_not_found queue_config_record_name register_value_to_string
retrieve_messages-repairs_example =
    retrieve_messages-repairs conflicting_env "jobs" "7" 0 conflicting false none refl refl refl

-- A queue in memory that compresses its messages.
abbrev pub packed_queue : List (String × Queue env)
packed_queue =
    (
      "jobs",
      record {
        name = "jobs";
        parts = waiting;
        config = ("queue_jobs_config", ("compressed_messages", "true") ∷ []);
      },
    )
    ∷ []

abbrev pub packed : App env
packed = record empty_app { queues = some packed_queue }

-- Its one partition waits.
packed_Holds : Holds env "jobs" [] packed
unfolding find_queue lookup
packed_Holds = record {
  queue = record {
    name = "jobs";
    parts = waiting;
    config = ("queue_jobs_config", ("compressed_messages", "true") ∷ []);
  };
  found = refl;
  whole = record { size = 1; counted = refl; fits = omega arith; whole = Perm.refl _ };
}

get-Serves_example :
    let (r, app') = get env "jobs" node_a (pos noon) (pos noon) all_read_first (pos 10) packed in
    Holds env "jobs" [] app'
    × (read : Settings floats) × (partition_settings env "jobs" packed ≡ (ok read, packed))
    × ((handout : Handout)
        → (get_partition lane floats read node_a (pos noon) packed_Holds.queue.parts).0 ≡ ok handout
        → Returns env r)
get-Serves_example =
    get-Serves env "jobs" node_a (pos noon) (pos noon) all_read_first (pos 10) [] packed
      packed_Holds

batch_delete-each_example :
    (batch_delete env "jobs" ("7" ∷ "8" ∷ []) empty_app).1.server
    ≡ (delete_each env "jobs" ("7" ∷ "8" ∷ []) empty_app).server
batch_delete-each_example =
    batch_delete-each env (λ kind name b id s. refl) "jobs" ("7" ∷ "8" ∷ []) empty_app
