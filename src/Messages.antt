-- ===== src/Messages.antt =====
-- The messages of a queue: `Put`, `Delete`, `BatchDelete`, `RetrieveMessages` and `Get` of
-- app/queue.go, as actions on the shared state. A queue is the entry of its name in memory.
pub mod Deletion
pub mod RoundTrip
pub mod Retrieval
pub mod Repair
pub mod Passing
pub mod Serving
pub mod OneByOne
use dynamiq.Prelude.{
  ℕ, zero, suc, ◌%◌, ◌-◌, ◌≡◌, ap, Option, none, some, List, [], ◌∷◌, ◌++◌, String, Bool, true,
  false, length, ltb, take, drop, take-nil, drop-nil, if◌then◌else◌,
}
use dynamiq.Prelude.Int.{ℤ, pos, negsuc}
use dynamiq.Prelude.Int64.{add64, sub64}
use dynamiq.Prelude.Effects.{
  Outcome, ok, Action, returns, panics, gets, when, continue, ◌>>=◌, ◌>>◌, continue-returns,
}
use dynamiq.Riak.{Bytes}
use dynamiq.Clock.{Time}
use dynamiq.Nodes.{Memberlist}
use dynamiq.Partitions.{Settings, Partition, Handout, get_partition, push_partition}
use dynamiq.App.{Env, App, Queue, find_queue, ask, tell, draw_id, on_parts}
use dynamiq.Settings.{
  Method, get_compressed_messages, get_min_partitions, get_visibility_timeout,
  get_max_partition_age,
}
use dynamiq.Counters.{
  increment_message_count, decrement_message_count, increment_receive_count, record_fill_ratio,
  set_queue_depth_apr,
}
use dynamiq.Strconv.{itoa, NumError}

-- `uint32(n)`
abbrev to_uint32 : ℤ → ℕ
to_uint32 (pos n) = n % 4294967296
to_uint32 (negsuc n) = 4294967295 - n % 4294967296

-- How the goroutines of `RetrieveMessages` run: the identifiers in the order in which their objects
-- are read and received, each with how many of the objects that have come before and are not taken
-- up yet the loop that receives them takes up, repairs included, before this one is read.
abbrev pub Arrivals : Type 0
Arrivals = List (String × ℕ)

module _ (env : Env) where
  open env use {riak, compressor}

  abbrev pub is_nil : Option String → Bool
  is_nil none = true
  is_nil (some _) = false

  abbrev unless_failed : Bytes → Bytes × Option String → Bytes
  unless_failed body (compressed, none) = compressed
  unless_failed body (compressed, some _) = body

  -- The body as it is stored: compressed if the queue is configured so and it succeeds.
  unfoldable pub body_to_store : Bool → Bytes → Bytes
  body_to_store true message = unless_failed message (compressor.compress message)
  body_to_store false message = message

  unfoldable pub put : String → Bytes → Method env String
  unfolding body_to_store
  put name message = do
    (bucket, err) ← ask env (riak.new_bucket_type "messages" name)
    if is_nil err
        then (do
          (should_compress, _) ← get_compressed_messages env name
          randy ← draw_id env
          tell env (
              riak.store_object bucket (record {
                key = itoa (pos randy);
                id_int = itoa (pos randy);
                content_type = "application/json";
                body = body_to_store should_compress message;
              }))
          increment_message_count env name (pos 1)
          returns (itoa (pos randy)))
        else returns ""

  unfoldable pub delete : String → String → Method env Bool
  delete name id = do
    (bucket, err) ← ask env (riak.new_bucket_type "messages" name)
    if is_nil err
        then (do
          deleted ← tell env (riak.delete_object bucket id)
          if is_nil deleted
              then (do decrement_message_count env name (pos 1); returns true)
              else returns false)
        else returns false

  abbrev failures : Option String → ℤ → ℤ
  failures none n = n
  failures (some _) n = add64 n (pos 1)

  -- The loop of `BatchDelete`: the number of failures, and the error of the last deletion.
  unfoldable pub delete_all :
      riak.Bucket → List String → ℤ → Option String → Method env (ℤ × Option String)
  delete_all bucket [] errors err app = (ok (errors, err), app)
  delete_all bucket (id ∷ ids) errors err app =
      let (deleted, server) = riak.delete_object bucket id app.server in
      delete_all bucket ids (failures deleted errors) deleted (record app { server = server })

  unfoldable pub batch_delete : String → List String → Method env (ℤ × Option String)
  unfolding delete_all
  batch_delete name ids = do
    (bucket, err) ← ask env (riak.new_bucket_type "messages" name)
    if is_nil err
        then (do
          (errors, last) ← delete_all bucket ids (pos 0) err
          decrement_message_count env name (sub64 (pos (length ids)) errors)
          returns (errors, last))
        else returns (pos 0, err)

  -- What a goroutine of `RetrieveMessages` sends: the object, decompressed if the queue is so.
  unfoldable pub fetch_object : riak.Bucket → Bool → String → riak.Server → riak.RObject
  fetch_object bucket decompress key server =
      let object = (riak.get_object bucket key server).0 in
      if decompress
      then riak.set_body object (compressor.decompress (riak.object_body object)).0
      else object

  abbrev has_data : Bytes → Bool
  has_data [] = false
  has_data (_ ∷ _) = true

  -- Puts each sibling that has data back as a message of its own.
  unfoldable pub put_siblings : String → List Bytes → Method env (Unit {0})
  unfolding put
  put_siblings name [] = returns tt
  put_siblings name (sibling ∷ rest) = do
    when (has_data sibling) (do put name sibling; returns tt)
    put_siblings name rest

  -- Read repair of an object under whose key several messages were stored.
  unfoldable pub repair : String → riak.RObject → Method env (Unit {0})
  unfolding put_siblings
  repair name object = when (riak.conflict object) (do
    put_siblings name (riak.siblings object)
    tell env (riak.destroy_object object)
    returns tt)

  -- The second loop: keeps the objects with data, and repairs the conflicts.
  unfoldable pub collect : String → List riak.RObject → Method env (List riak.RObject)
  unfolding repair
  collect name [] = returns []
  collect name (object ∷ rest) = do
    repair name object
    others ← collect name rest
    returns (if has_data (riak.object_body object) then object ∷ others else others)

  -- The goroutines, which read their objects one after the other, while the second loop takes up
  -- those that have come.
  unfoldable pub fetch_each :
      String → riak.Bucket → Bool → Arrivals → List riak.RObject → Method env (List riak.RObject)
  unfolding collect fetch_object
  fetch_each name bucket decompress [] come = collect name come
  fetch_each name bucket decompress ((key, taken) ∷ rest) come = do
    early ← collect name (take taken come)
    object ← ask env (fetch_object bucket decompress key)
    late ← fetch_each name bucket decompress rest (drop taken come ++ (object ∷ []))
    returns (early ++ late)

  unfoldable pub retrieve_messages : String → Arrivals → Method env (List riak.RObject)
  unfolding fetch_each collect
  retrieve_messages name arrival = do
    (decompress, _) ← get_compressed_messages env name
    (bucket, _) ← ask env (riak.new_bucket_type "messages" name)
    fetch_each name bucket decompress arrival []

  -- For one identifier, the object is read and then taken up.
  pub retrieve_messages-single :
      (name key : String) (taken : ℕ) (app : App env) (compressed : Bool) (e : Option NumError)
      → get_compressed_messages env name app ≡ (ok (compressed, e), app)
      → retrieve_messages name ((key, taken) ∷ []) app
        ≡ collect name
            (fetch_object
                (riak.new_bucket_type "messages" name app.server).0
                compressed
                key
                app.server
              ∷ [])
            app
  unfolding retrieve_messages
  retrieve_messages-single name key taken app compressed e reads =
      rw (reads, take-nil {A = riak.RObject} taken, drop-nil {A = riak.RObject} taken)
        (continue-returns _ _)

  -- The settings that the partitions read during a call. To read them changes nothing, so that it
  -- does not matter that the source reads them one by one, some of them after the pop, or reads
  -- fewer.
  unfoldable pub partition_settings : String → Method env (Settings env.floats)
  partition_settings name = do
    (min, _) ← get_min_partitions env name
    (timeout, _) ← get_visibility_timeout env name
    (age, _) ← get_max_partition_age env name
    returns (record { min_partitions = min; visibility_timeout = timeout; max_partition_age = age })

  -- A method of the partitions of a queue; a queue that is not there is a nil pointer.
  abbrev pub queue_method :
      {A : Type 0} → Option (Queue env) → (Queue env → Method env A) → Method env A
  queue_method none method = panics
  queue_method (some queue) method = method queue

  unfoldable pub with_queue : {A : Type 0} → String → (Queue env → Method env A) → Method env A
  with_queue name method app = queue_method (find_queue env name app) method app

  pub with_queue-lookup :
      {A : Type 0} (name : String) (method : Queue env → Method env A) (app : App env)
      {found : Option (Queue env)}
      → find_queue env name app ≡ found
      → with_queue name method app ≡ queue_method found method app
  unfolding with_queue
  with_queue-lookup name method app e = ap (λ o. queue_method o method app) e

  -- The deferred `PushPartition`: the partition is locked only if there were messages.
  unfoldable pub push_back : String → Time → Option Partition → Bool → Method env (Unit {0})
  unfolding partition_settings with_queue
  push_back name now none used = panics
  push_back name now (some partition) used = do
    settings ← partition_settings name
    with_queue name (λ queue.
        on_parts env name queue (push_partition env.lane env.floats settings now partition used))

  -- The rest of `Get`, with a partition in hand. The deferred calls run last first.
  unfoldable pub serve_partition :
      String
      → Memberlist
      → Time
      → (List String → Arrivals)
      → ℤ
      → riak.Bucket
      → Handout
      → Method env (List riak.RObject × Option String)
  unfolding push_back retrieve_messages
  serve_partition name list later arrive batch_size bucket handout = do
    (message_ids, err) ← ask env (
        riak.index_query_range_page bucket "id_int" (itoa handout.bottom) (itoa handout.top)
          (to_uint32 batch_size))
    messages ← retrieve_messages name (arrive message_ids)
    record_fill_ratio env name batch_size (pos (length message_ids))
    increment_receive_count env name (pos (length message_ids))
    push_back name later handout.partition (ltb 0 (length message_ids))
    with_queue name
        (λ queue. set_queue_depth_apr env name queue.parts.partition_count list message_ids)
    returns (messages, err)

  -- `now` and `later` are the readings of the clock when the partition is taken and when it is
  -- given back; `arrive` says how the goroutines run.
  unfoldable pub get :
      String
      → Memberlist
      → Time
      → Time
      → (List String → Arrivals)
      → ℤ
      → Method env (List riak.RObject × Option String)
  unfolding serve_partition with_queue partition_settings
  get name list now later arrive batch_size = do
    (bucket, err) ← ask env (riak.new_bucket_type "messages" name)
    if is_nil err
        then (do
          settings ← partition_settings name
          handout ← with_queue name (λ queue.
              on_parts env name queue (get_partition env.lane env.floats settings list now))
          if is_nil handout.err
              then serve_partition name list later arrive batch_size bucket handout
              else returns ([], handout.err))
        else returns ([], err)
