-- ===== src/Tests/Http.antt =====
-- Runs of the handlers (app/httpinterface_v1.go).
use dynamiq.Prelude.{
  ◌≡◌, refl, none, some, List, [], ◌∷◌, ◌++◌, String, true, false, not, ◌||◌, ◌&&◌, str_eq, length,
  ◌==◌, arith,
}
use dynamiq.Prelude.Int.{pos}
use dynamiq.Prelude.Effects.{ok}
use dynamiq.App.{Env, App, Queue, find_queue, lookup, insert, present}
use dynamiq.Settings.{
  set_compressed_messages, set_min_partitions, get_compressed_messages, get_min_partitions,
  get_queue_setting, cached_setting, read_setting, is_not_found, queue_config_record_name,
  register_value_to_string, default_settings, set_queue_setting, store_setting,
}
use dynamiq.Strconv.{atoi, itoa, parse_bool}
use dynamiq.Strings.{split_commas}
use dynamiq.Messages.{get}
use dynamiq.Registry.{listed, values_of, create_config_for_queue, add_to_known_queues}
use dynamiq.Registry.Created.{IsNew}
use dynamiq.Topics.{subscriber_set_name}
use dynamiq.Topics.Subscribers.{topic_config}
use dynamiq.Http.Response.{
  deleted, ConfigRequest, Response, json, plain, plain_text, error, objects, messages, subscribers,
}
use dynamiq.Http.Handlers.{
  handle_delete_queue, handle_patch_queue, handle_put_queue, handle_put_topic_queue,
}
use dynamiq.Http.Delivery.{
  handle_put_message, handle_get_message, handle_get_messages, handle_delete_messages, message_list,
}
use dynamiq.Http.Patching.{register_of, or_before, requested, handle_patch_queue-requested}
use dynamiq.Http.Creating.{handle_put_queue-twice, handle_put_queue-refused}
use dynamiq.Http.Reading.{handle_get_message-put, handle_get_messages-once, failed, accepted}
use dynamiq.Http.Deleting.{handle_delete_queue-stays}
use dynamiq.Http.Removing.{Reports, handle_delete_messages-Reports}
use dynamiq.Http.Subscribing.{handle_put_topic_queue-listed}
use dynamiq.Tests.World.{all_read_first, draw, floats, noon, waiting, node_a}
use dynamiq.Tests.Cluster.{env, riak, empty_app, riak-StoresMaps, riak-StoresObjects}
use dynamiq.Tests.Registry.{no_queues, news_config}
use dynamiq.Tests.Messages.{packed, packed_queue}
use dynamiq.Tests.Sets.{set_env, set_riak, set_riak-StoresSets}
use dynamiq.Tests.Topics.{with_news, one_topic, one_queue}

abbrev lower_minimum : ConfigRequest floats
lower_minimum = record {
  visibility_timeout = none;
  min_partitions = some (pos 3);
  max_partitions = some (pos 9);
  max_partition_age = none;
  compressed_messages = some true;
}

-- The maximum of the request is not stored.
handle_patch_queue-requested_example :
    let (_, app') = handle_patch_queue env "jobs" lower_minimum empty_app in
    register_of env "jobs" app' "max_partitions"
    ≡ or_before
        (requested env lower_minimum "max_partitions")
        (register_of env "jobs" empty_app "max_partitions")
unfolding handle_patch_queue set_min_partitions set_queue_setting store_setting is_not_found lookup
    queue_config_record_name insert set_compressed_messages
handle_patch_queue-requested_example =
    handle_patch_queue-requested env riak-StoresMaps "jobs" lower_minimum empty_app "max_partitions"
      refl

handle_put_queue-twice_example :
    let (r, app') = handle_put_queue env draw "news" no_queues in
    (r ≡ ok (json 201 (plain_text "created") ∷ []))
    × (handle_put_queue env draw "news" app'
        ≡ (ok (json 422 (error "Queue already exists.") ∷ []), app'))
    × (q : Queue env) × IsNew env 1 q
    × (find_queue env "news" app' ≡ some q)
unfolding present create_config_for_queue queue_config_record_name insert lookup default_settings
    get_min_partitions get_queue_setting cached_setting find_queue add_to_known_queues read_setting
    atoi is_not_found register_value_to_string
handle_put_queue-twice_example =
    handle_put_queue-twice env draw "news" no_queues [] refl refl news_config 1 none refl refl
      (omega arith)

-- A cluster that stores no map.
abbrev failing_env : Env
failing_env = record env {
  riak = record riak { store_map = λ m server. ((m, some "timeout"), server) };
}

abbrev failing_app : App failing_env
failing_app = record {
  server = empty_app.server;
  queues = some [];
  topics = none;
  stats = empty_app.stats;
  calls = [];
  topics_locked = false;
  drawn = 0;
}

handle_put_queue-refused_example :
    let (r, app') = handle_put_queue failing_env draw "news" failing_app in
    (r ≡ ok (json 201 (plain_text "created") ∷ [])) × (find_queue failing_env "news" app' ≡ none)
unfolding present create_config_for_queue queue_config_record_name insert lookup default_settings
handle_put_queue-refused_example =
    handle_put_queue-refused failing_env draw "news" failing_app [] refl refl news_config "timeout"
      refl

handle_get_message-put_example :
    let (r, app') = handle_put_message env "jobs" (104 ∷ 105 ∷ []) packed in
    (id : String) × (o : riak.RObject) × (r ≡ ok (plain id ∷ []))
    × ((handle_get_message env all_read_first "jobs" id app').0
        ≡ ok (json 200 (objects (o ∷ [])) ∷ []))
    × (riak.object_body o ≡ 104 ∷ 105 ∷ [])
unfolding present get_compressed_messages get_queue_setting cached_setting find_queue
    register_value_to_string parse_bool itoa
handle_get_message-put_example =
    handle_get_message-put env riak-StoresObjects (λ m fits. refl) "jobs" (104 ∷ 105 ∷ []) packed
      packed_queue all_read_first 0 true none refl refl (λ id. refl) refl refl refl refl refl
      (λ e. cc)

handle_delete_messages-Reports_example :
    Reports env "jobs" (split_commas "7,8") packed (handle_delete_messages env "jobs" "7,8" packed)
unfolding present split_commas
handle_delete_messages-Reports_example =
    handle_delete_messages-Reports env "jobs" "7,8" packed packed_queue refl refl (omega arith)

handle_put_topic_queue-listed_example :
    (present "news" one_topic.topic_map ≡ false
      → handle_put_topic_queue set_env "news" "jobs" with_news
        ≡ (ok (json 422 (error "Topic does not exist. Please create it first.") ∷ []), with_news))
    × (present "news" one_topic.topic_map ≡ true
        → present "jobs" one_queue ≡ false
        → handle_put_topic_queue set_env "news" "jobs" with_news
          ≡ (ok (json 422 (error "Queue does not exist. Please create it first") ∷ []), with_news))
    × (present "news" one_topic.topic_map ≡ true
        → present "jobs" one_queue ≡ true
        → (after : List String) × ((handle_put_topic_queue set_env "news" "jobs" with_news).0
            ≡ ok (json 200 (subscribers after) ∷ []))
          × (listed "mail" after ≡ (
              str_eq "jobs" "mail"
              || listed "mail" (
                  values_of (
                    set_riak.fetch_set
                      (topic_config set_env "news" with_news)
                      subscriber_set_name)))))
handle_put_topic_queue-listed_example =
    handle_put_topic_queue-listed set_env "news" "jobs" "mail" with_news one_topic one_queue refl
      refl set_riak-StoresSets refl

-- A cluster without buckets.
abbrev no_bucket_env : Env
no_bucket_env = record env {
  riak = record riak { new_bucket_type = λ kind name server. (name, some "no bucket") };
}

abbrev bare_queue : List (String × Queue no_bucket_env)
bare_queue =
    ("jobs", record { name = "jobs"; parts = waiting; config = ("queue_jobs_config", []) }) ∷ []

abbrev bare : App no_bucket_env
bare = record {
  server = empty_app.server;
  queues = some bare_queue;
  topics = none;
  stats = empty_app.stats;
  calls = [];
  topics_locked = false;
  drawn = 0;
}

-- A batch of no messages is answered three times.
handle_get_messages-once_example :
    (written : List (Response no_bucket_env)) × ((handle_get_messages no_bucket_env node_a
        (pos noon)
        (pos noon)
        all_read_first
        "jobs"
        "0"
        bare).0
      ≡ ok written)
    × ((length written == 1)
        ≡ (accepted no_bucket_env (atoi "0") && not (failed no_bucket_env (some "no bucket"))))
    × (failed no_bucket_env (some "no bucket") ≡ false
        → (before : List (Response no_bucket_env)) × (written
            ≡ before ++ json 200 (messages (message_list no_bucket_env [])) ∷ []))
unfolding present get
handle_get_messages-once_example =
    handle_get_messages-once no_bucket_env node_a (pos noon) (pos noon) all_read_first "jobs" "0"
      bare bare_queue [] (some "no bucket") refl refl refl

handle_delete_queue-stays_example :
    let (r, app') = handle_delete_queue set_env "jobs" with_news in
    (r ≡ ok (json 200 (deleted true) ∷ []))
    × (app'.queues ≡ some one_queue)
    × (handle_put_queue set_env draw "jobs" app'
        ≡ (ok (json 422 (error "Queue already exists.") ∷ []), app'))
unfolding present
handle_delete_queue-stays_example =
    handle_delete_queue-stays set_env "jobs" with_news one_queue ("jobs" ∷ "mail" ∷ []) draw refl
      refl refl
