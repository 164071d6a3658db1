-- ===== src/Http/Handlers.antt =====
-- The handlers of queues and topics and of their configuration (app/httpinterface_v1.go). `queues`
-- and `topics` there are what `cfg.Queues` and `cfg.Topics` point to.
use dynamiq.Prelude.{ℕ, Option, none, some, List, [], ◌∷◌, String, Bool, true, if◌then◌else◌}
use dynamiq.Prelude.Int.{ℤ}
use dynamiq.Prelude.Effects.{returns, panics, continue, ◌>>=◌, ◌>>◌}
use dynamiq.Riak.{Bytes}
use dynamiq.Nodes.{Memberlist, get_node_partition_range}
use dynamiq.App.{Env, Queue, present}
use dynamiq.Strconv.{itoa}
use dynamiq.Settings.{
  Method, get_visibility_timeout, get_min_partitions, get_max_partition_age,
  get_compressed_messages, set_visibility_timeout, set_min_partitions, set_max_partition_age,
  set_compressed_messages,
}
use dynamiq.Messages.{with_queue}
use dynamiq.Registry.{initialize_queue, delete_queue}
use dynamiq.Topics.{
  with_topics, queue_present, init_topic, init_if_missing, list_queues, subscribe, unsubscribe,
  delete_topic, broadcast,
}
use dynamiq.QueueSync.{keys}
use dynamiq.Http.Response.{
  ConfigRequest, QueueView, Body, Response, plain_text, error, deleted, subscribers, topic_list,
  queue_list, key_range, writes, queue_view, json,
}
use Prim.Native.String.{◌++◌}

module _ (env : Env) where
  open env use {floats}

  abbrev pub Handler : Type 0
  Handler = Method env (List (Response env))

  -- A single `r.JSON`.
  abbrev pub answers : ℕ → Body env → Handler
  answers status body = returns (json status body ∷ [])

  abbrev pub no_queue : String → String
  no_queue queue = "There is no queue named " ++ queue

  -- `_, present = topics.TopicMap[topic]`
  unfoldable pub topic_present : String → Method env Bool
  unfolding present
  topic_present topic = with_topics env (λ topics. returns (present topic topics.topic_map))

  unfoldable pub show_partition_range : Memberlist → Handler
  unfolding get_node_partition_range
  show_partition_range list app =
      continue (get_node_partition_range list)
        (λ (bottom, top). answers 200 (key_range (itoa bottom) (itoa top))) app

  unfoldable pub handle_delete_topic : String → Handler
  unfolding topic_present delete_topic
  handle_delete_topic topic = do
    there ← topic_present topic
    if there
        then (do gone ← delete_topic env topic; answers 200 (deleted gone))
        else answers 404 (error "Topic did not exist.")

  unfoldable pub handle_delete_queue : String → Handler
  unfolding queue_present delete_queue
  handle_delete_queue queue = do
    there ← queue_present env queue
    if there
        then (do delete_queue env queue; answers 200 (deleted true))
        else answers 404 (error "Queue did not exist.")

  unfoldable pub handle_put_queue : (ℤ → ℤ) → String → Handler
  unfolding queue_present initialize_queue
  handle_put_queue random queue = do
    there ← queue_present env queue
    if there
        then answers 422 (error "Queue already exists.")
        else (do initialize_queue env random queue; answers 201 (plain_text "created"))

  unfoldable pub show_subscribers : ℕ → String → Handler
  unfolding list_queues
  show_subscribers status topic = do
    queues ← list_queues env topic
    answers status (subscribers queues)

  unfoldable pub handle_put_topic : String → Handler
  unfolding topic_present init_topic show_subscribers
  handle_put_topic topic = do
    there ← topic_present topic
    if there
        then answers 422 (error "Topic already exists.")
        else (do init_topic env topic; show_subscribers 201 topic)

  unfoldable pub handle_put_topic_queue : String → String → Handler
  unfolding topic_present queue_present subscribe show_subscribers
  handle_put_topic_queue topic queue = do
    topic_there ← topic_present topic
    if topic_there
        then (do
          queue_there ← queue_present env queue
          if queue_there
              then (do subscribe env topic queue; show_subscribers 200 topic)
              else answers 422 (error "Queue does not exist. Please create it first"))
        else answers 422 (error "Topic does not exist. Please create it first.")

  unfoldable pub handle_delete_topic_queue : String → String → Handler
  unfolding init_if_missing unsubscribe show_subscribers
  handle_delete_topic_queue topic queue = do
    init_if_missing env topic
    unsubscribe env topic queue
    show_subscribers 200 topic

  -- `if err != nil { r.JSON(500, ...); return }`
  abbrev pub stop_on : Option String → Handler → Handler
  stop_on none next = next
  stop_on (some e) next = answers 500 (error e)

  -- One setting of the request, if it is there, and what follows it.
  unfoldable pub patch :
      {A : Type 0} → Option A → (A → Method env (Option String)) → Handler → Handler
  patch none set next = next
  patch (some value) set next = do err ← set value; stop_on err next

  -- The minimum is set twice, and the maximum never.
  unfoldable pub handle_patch_queue : String → ConfigRequest floats → Handler
  unfolding patch
  handle_patch_queue queue request =
      patch request.visibility_timeout (set_visibility_timeout env queue) (
        patch request.min_partitions (set_min_partitions env queue) (
          patch request.min_partitions (set_min_partitions env queue) (
            patch request.max_partition_age (set_max_partition_age env queue) (
              patch request.compressed_messages (set_compressed_messages env queue)
                (answers 200 (plain_text "ok"))))))

  unfoldable pub handle_get_topics : Handler
  handle_get_topics =
      with_topics env (λ topics. answers 200 (topic_list (keys env topics.topic_map)))

  unfoldable pub handle_get_topic : String → Handler
  unfolding init_if_missing show_subscribers
  handle_get_topic topic = do init_if_missing env topic; show_subscribers 200 topic

  unfoldable pub handle_put_topic_message : String → Bytes → Handler
  unfolding init_if_missing broadcast
  handle_put_topic_message topic body = do
    init_if_missing env topic
    response ← broadcast env topic body
    answers 200 (writes response)

  abbrev pub queue_names : Option (List (String × Queue env)) → Handler
  queue_names none = panics
  queue_names (some queues) = answers 200 (queue_list (keys env queues))

  unfoldable pub handle_get_queues : Handler
  handle_get_queues app = queue_names app.queues app

  unfoldable pub view_queue : String → Method env (QueueView floats)
  unfolding with_queue
  view_queue queue = do
    (timeout, _) ← get_visibility_timeout env queue
    (min, _) ← get_min_partitions env queue
    (max, _) ← get_min_partitions env queue
    (age, _) ← get_max_partition_age env queue
    (compressed, _) ← get_compressed_messages env queue
    with_queue env queue (λ q. returns (record {
      visibility_timeout = timeout;
      min_partitions = min;
      max_partitions = max;
      max_partition_age = age;
      compressed_messages = compressed;
      partitions = q.parts.partition_count;
    }))

  unfoldable pub handle_get_queue : String → Handler
  unfolding queue_present view_queue
  handle_get_queue queue = do
    there ← queue_present env queue
    if there
        then (do view ← view_queue queue; answers 200 (queue_view view))
        else answers 404 (plain_text (no_queue queue))
