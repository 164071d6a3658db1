-- ===== src/Registry/Created.antt =====
-- `InitializeQueue` of app/config.go: the queue that it puts into memory.
use dynamiq.Prelude.{
  ℕ, ◌<◌, ◌≡◌, refl, sym, ap, ◌∙◌, Option, none, some, List, Perm, String, false, str_eq,
  if◌then◌else◌,
}
use dynamiq.Prelude.Int.{ℤ, pos, negsuc, ◌≤ℤ◌}
use dynamiq.Prelude.Int64.{half64, max_int64}
use dynamiq.Prelude.Effects.{ok-injective, ok, returns, ◌>>=◌, ◌>>◌}
use dynamiq.Partitions.{Settings, init_partitions, no_partitions_yet}
use dynamiq.Partitions.Whole.{ids, ids_below}
use dynamiq.Partitions.Growth.{init_partitions-Keeps}
use dynamiq.App.{Env, App, Queue, find_queue, insert, lookup-insert}
use dynamiq.Strconv.{NumError, atoi}
use dynamiq.Strconv.Bounds.{atoi-le, atoi-ge}
use dynamiq.Settings.{
  get_min_partitions, get_visibility_timeout, get_max_partition_age, min_partitions,
  visibility_timeout, max_partition_age,
}
use dynamiq.Settings.Kept.{SameSettings, get_queue_setting-Agree}
use dynamiq.Messages.{partition_settings}
use dynamiq.Registry.{
  create_config_for_queue, add_to_known_queues, add_queue, initialize_queue, finish_queue,
  change_known_queues, new_partitions, set_queue,
}

module _ (env : Env) where
  open env use {riak, lane, floats}

  SameSettings-refl : (app : App env) → SameSettings env app app
  SameSettings-refl app = record {
    same_queues = refl;
    same_bucket = refl;
    same_maps = λ b key. refl;
  }

  -- The settings that the partitions of a queue read, in one state.
  pub record Reads (name : String) (app : App env) : Type 0 where
    pub read : Settings floats
    pub answer : partition_settings env name app ≡ (ok read, app)
    pub failure : Option NumError
    pub same_min : (get_min_partitions env name app).0 ≡ ok (read.min_partitions, failure)
    pub low : negsuc max_int64 ≤ℤ read.min_partitions
    pub high : read.min_partitions ≤ℤ pos max_int64

  pub partition_settings-Reads : (name : String) (app : App env) → Reads name app
  unfolding partition_settings get_min_partitions get_visibility_timeout get_max_partition_age
  partition_settings-Reads name app =
      let same = SameSettings-refl app in
      let min = get_queue_setting-Agree env min_partitions name app app same in
      let timeout = get_queue_setting-Agree env visibility_timeout name app app same in
      let age = get_queue_setting-Agree env max_partition_age name app app same in
      record {
        read = record {
          min_partitions = (atoi min.answer.0).0;
          visibility_timeout = (floats.parse_float timeout.answer.0).0;
          max_partition_age = (floats.parse_float age.answer.0).0;
        };
        answer = rw (min.before, timeout.before, age.before) refl;
        same_min = rw min.before refl;
        failure = (atoi min.answer.0).1;
        low = atoi-ge min.answer.0;
        high = atoi-le min.answer.0;
      }

  -- A queue with the partitions 0 to m - 1, all of which wait.
  pub record IsNew (m : ℕ) (queue : Queue env) : Type 0 where
    pub counted : queue.parts.partition_count ≡ pos m
    pub free : queue.parts.locked ≡ false
    pub waiting : Perm (ids (lane.contents queue.parts.partitions)) (ids_below m)

  module _ (random : ℤ → ℤ) (name : String) where
    -- The queue that `add_queue` makes, where the settings are `read`.
    abbrev made_queue : Settings floats → riak.RMap → Queue env
    made_queue read config = record {
      name = name;
      parts = (init_partitions lane floats read random (no_partitions_yet lane)).1;
      config = config;
    }

    add_queue-made_queue :
        (config : riak.RMap) (app : App env) (queues : List (String × Queue env)) (m : ℕ)
        → app.queues ≡ some queues
        → m < half64
        → (r : Reads name app) → r.read.min_partitions ≡ pos m
        → (add_queue env random name config app
            ≡ (ok tt, record app { queues = some (insert name (made_queue r.read config) queues) }))
          × IsNew m (made_queue r.read config)
    unfolding add_queue new_partitions set_queue
    add_queue-made_queue config app queues m there fits r most =
        let made = init_partitions-Keeps lane floats r.read random m most fits in
        (
          rw (r.answer, made.0, there) refl,
          record { counted = made.1; free = made.2; waiting = made.3 },
        )

    -- The states after the queue's settings were written, and after the queue was made known.
    abbrev pub with_config : App env → App env
    with_config app = (create_config_for_queue env name app).1

    abbrev pub made_known : App env → App env
    made_known app = (add_to_known_queues env name (with_config app)).1

    initialize_queue-created :
        (app : App env) (config : riak.RMap)
        → (create_config_for_queue env name app).0 ≡ ok (config, none)
        → initialize_queue env random name app
          ≡ (add_to_known_queues env name >>= λ known.
                (add_queue env random name config >> returns known))
              (with_config app)
    unfolding initialize_queue create_config_for_queue
    initialize_queue-created app config created =
        ap (λ p. finish_queue env random name p (with_config app)) (ok-injective created)
        ∙ unfold finish_queue in refl

    -- Where there are queues in memory, the settings of the new queue are stored, and `m`
    -- partitions are then configured, fewer than 2^63, `InitializeQueue` returns the result of
    -- making the queue known, whether that is stored or not. The queue is in memory then, with the
    -- partitions 0 to m - 1, all of which wait, and a free mutex, and every other queue is in
    -- memory as it was.
    pub initialize_queue-IsNew :
        (app : App env) (queues : List (String × Queue env)) (config : riak.RMap) (m : ℕ)
        (e : Option NumError) (other : String)
        → app.queues ≡ some queues
        → (create_config_for_queue env name app).0 ≡ ok (config, none)
        → (get_min_partitions env name (made_known app)).0 ≡ ok (pos m, e)
        → m < half64
        → let (r, app') = initialize_queue env random name app in
          (queue : Queue env) × IsNew m queue
          × (r ≡ (add_to_known_queues env name (with_config app)).0)
          × (find_queue env other app'
              ≡ (if str_eq name other then some queue else find_queue env other app))
    unfolding create_config_for_queue add_to_known_queues change_known_queues find_queue
    initialize_queue-IsNew app queues config m e other there created configured fits =
        let reads = partition_settings-Reads name (made_known app) in
        let most = ap (λ p. p.0) (ok-injective (sym reads.same_min ∙ configured)) in
        let (ran, is_new) =
          add_queue-made_queue config (made_known app) queues m there fits reads most in
        (
          made_queue reads.read config,
          is_new,
          rw (initialize_queue-created app config created, ran) refl,
          rw (initialize_queue-created app config created, ran, there)
              (lookup-insert name other _ queues),
        )
