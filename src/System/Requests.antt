-- ===== src/System/Requests.antt =====
-- The handlers of app/httpinterface_v1.go, over all the queues in memory.
use dynamiq.Prelude.{◌≡◌, refl, List, [], ◌∷◌, String, Option, none, some, ℕ}
use dynamiq.Prelude.Int.{ℤ}
use dynamiq.Riak.{Bytes}
use dynamiq.Clock.{Time}
use dynamiq.Nodes.{Memberlist, get_node_partition_range}
use dynamiq.App.{Env, App, Queue}
use dynamiq.Settings.{Method}
use dynamiq.Http.Response.{ConfigRequest}
use dynamiq.Http.Handlers.{
  Handler, topic_present, show_subscribers, stop_on, patch, queue_names, view_queue,
  show_partition_range, handle_delete_topic, handle_delete_queue, handle_put_queue,
  handle_put_topic, handle_put_topic_queue, handle_delete_topic_queue, handle_patch_queue,
  handle_get_topics, handle_get_topic, handle_put_topic_message, handle_get_queues,
  handle_get_queue,
}
use dynamiq.Http.Delivery.{
  show_objects, handle_get_message, handle_get_messages, handle_put_message, handle_delete_message,
  handle_delete_messages,
}
use dynamiq.Http.Server.{
  queue_of, Surroundings, Request, serve, get_status_servers, get_partition_range, get_topics,
  get_queues, get_topic, delete_topic, put_topic, get_queue, put_queue, delete_queue,
  put_topic_queue, delete_topic_queue, patch_queue, put_topic_message, put_message, get_message,
  get_messages, delete_message, delete_messages, show_servers,
}
use dynamiq.Partitions.Free.{get_node_partition_range-Stuck}
use dynamiq.System.Keeps.{Keeps-panics, Keeps, Keeps-continue, Keeps-bind, Keeps-returns}
use dynamiq.System.Keeps.Settings.{setting_rules}
use dynamiq.System.Keeps.Messages.{
  put-Keeps, delete-Keeps, batch_delete-Keeps, retrieve_messages-Keeps,
}
use dynamiq.System.Keeps.Registry.{delete_queue-Keeps}
use dynamiq.System.Keeps.Topics.{
  topic_rules, list_queues-Keeps, unsubscribe-Keeps, subscribe-Keeps, init_topic-Keeps,
  init_if_missing-Keeps, delete_topic-Keeps, broadcast-Keeps,
}
use dynamiq.Messages.{Arrivals, get}
use dynamiq.Registry.{initialize_queue}

-- The two methods of a queue that change the queues in memory.
pub record QueueKeeps (env : Env) (P : App env → Type 0) (W : Type 0) (around : Surroundings)
    (queue : String) : Type 0 where
  pub made : Keeps P W (initialize_queue env around.random queue)
  pub got :
      (size : ℤ) → Keeps P W (get env queue around.list around.now around.later around.arrive size)

module _ (env : Env) {P : App env → Type 0} {W : Type 0}
    (frame : (app app' : App env) → app'.queues ≡ app.queues → P app → P app') where
  open env use {riak, floats}

  topic_present-Keeps : (topic : String) → Keeps P W (topic_present env topic)
  unfolding topic_present
  topic_present-Keeps topic = search topic_rules

  show_subscribers-Keeps :
      (status : ℕ) (topic : String) → Keeps P W (show_subscribers env status topic)
  unfolding show_subscribers
  show_subscribers-Keeps status topic = search (topic_rules, list_queues-Keeps)

  show_partition_range-Keeps : (list : Memberlist) → Keeps P W (show_partition_range env list)
  unfolding show_partition_range
  show_partition_range-Keeps list =
      Keeps-continue (get_node_partition_range list) _
        (λ waits. absurd (get_node_partition_range-Stuck list waits)) (λ range. Keeps-returns _)

  handle_delete_topic-Keeps : W → (topic : String) → Keeps P W (handle_delete_topic env topic)
  unfolding handle_delete_topic
  handle_delete_topic-Keeps waits topic =
      search (topic_rules, topic_present-Keeps, delete_topic-Keeps env frame waits)

  handle_delete_queue-Keeps : (queue : String) → Keeps P W (handle_delete_queue env queue)
  unfolding handle_delete_queue
  handle_delete_queue-Keeps queue = search (topic_rules, delete_queue-Keeps)

  handle_put_topic-Keeps : (topic : String) → Keeps P W (handle_put_topic env topic)
  unfolding handle_put_topic
  handle_put_topic-Keeps topic =
      search (topic_rules, topic_present-Keeps, init_topic-Keeps, show_subscribers-Keeps)

  handle_put_topic_queue-Keeps :
      (topic queue : String) → Keeps P W (handle_put_topic_queue env topic queue)
  unfolding handle_put_topic_queue
  handle_put_topic_queue-Keeps topic queue =
      search (topic_rules, topic_present-Keeps, subscribe-Keeps, show_subscribers-Keeps) depth 9

  handle_delete_topic_queue-Keeps :
      (topic queue : String) → Keeps P W (handle_delete_topic_queue env topic queue)
  unfolding handle_delete_topic_queue
  handle_delete_topic_queue-Keeps topic queue =
      search (topic_rules, init_if_missing-Keeps, unsubscribe-Keeps, show_subscribers-Keeps)

  stop_on-Keeps :
      (err : Option String) (next : Handler env) → Keeps P W next → Keeps P W (stop_on env err next)
  stop_on-Keeps none next k = k
  stop_on-Keeps (some e) next k = Keeps-returns _

  patch-Keeps :
      {A : Type 0} (o : Option A) (set : A → Method env (Option String)) (next : Handler env)
      → ((a : A) → Keeps P W (set a))
      → Keeps P W next
      → Keeps P W (patch env o set next)
  unfolding patch
  patch-Keeps none set next ks k = k
  patch-Keeps (some a) set next ks k = Keeps-bind _ _ (ks a) (λ err. stop_on-Keeps err next k)

  handle_patch_queue-Keeps :
      (queue : String) (request : ConfigRequest floats)
      → Keeps P W (handle_patch_queue env queue request)
  unfolding handle_patch_queue
  handle_patch_queue-Keeps queue request = search (setting_rules, patch-Keeps) depth 9

  handle_get_topics-Keeps : Keeps P W (handle_get_topics env)
  unfolding handle_get_topics
  handle_get_topics-Keeps = search topic_rules

  handle_get_topic-Keeps : (topic : String) → Keeps P W (handle_get_topic env topic)
  unfolding handle_get_topic
  handle_get_topic-Keeps topic = search (topic_rules, init_if_missing-Keeps, show_subscribers-Keeps)

  handle_put_topic_message-Keeps :
      (topic : String) (body : Bytes) → Keeps P W (handle_put_topic_message env topic body)
  unfolding handle_put_topic_message
  handle_put_topic_message-Keeps topic body =
      search (topic_rules, init_if_missing-Keeps, broadcast-Keeps)

  queue_names-Keeps : (o : Option (List (String × Queue env))) → Keeps P W (queue_names env o)
  queue_names-Keeps none = Keeps-panics
  queue_names-Keeps (some queues) = Keeps-returns _

  handle_get_queues-Keeps : Keeps P W (handle_get_queues env)
  unfolding handle_get_queues
  handle_get_queues-Keeps = record {
    at = λ app. (queue_names-Keeps app.queues).at app;
    stuck = λ app. (queue_names-Keeps app.queues).stuck app;
  }

  view_queue-Keeps : (queue : String) → Keeps P W (view_queue env queue)
  unfolding view_queue
  view_queue-Keeps queue = search setting_rules depth 12

  handle_get_queue-Keeps : (queue : String) → Keeps P W (handle_get_queue env queue)
  unfolding handle_get_queue
  handle_get_queue-Keeps queue = search (topic_rules, view_queue-Keeps)

  show_objects-Keeps : (found : List riak.RObject) → Keeps P W (show_objects env found)
  show_objects-Keeps [] = Keeps-returns _
  show_objects-Keeps (o ∷ rest) = Keeps-returns _

  handle_get_message-Keeps :
      (arrive : List String → Arrivals) (queue id : String)
      → Keeps P W (handle_get_message env arrive queue id)
  unfolding handle_get_message
  handle_get_message-Keeps arrive queue id =
      search (topic_rules, retrieve_messages-Keeps, show_objects-Keeps)

  handle_put_message-Keeps :
      (queue : String) (body : Bytes) → Keeps P W (handle_put_message env queue body)
  unfolding handle_put_message
  handle_put_message-Keeps queue body = search (topic_rules, put-Keeps)

  handle_delete_messages-Keeps :
      (queue ids : String) → Keeps P W (handle_delete_messages env queue ids)
  unfolding handle_delete_messages
  handle_delete_messages-Keeps queue ids = search (topic_rules, batch_delete-Keeps)

  handle_put_queue-Keeps :
      (random : ℤ → ℤ) (queue : String)
      → Keeps P W (initialize_queue env random queue)
      → Keeps P W (handle_put_queue env random queue)
  unfolding handle_put_queue
  handle_put_queue-Keeps random queue made = search topic_rules

  handle_delete_message-Keeps :
      (random : ℤ → ℤ) (queue id : String)
      → Keeps P W (initialize_queue env random queue)
      → Keeps P W (handle_delete_message env random queue id)
  unfolding handle_delete_message
  handle_delete_message-Keeps random queue id made = search (topic_rules, delete-Keeps) depth 9

  handle_get_messages-Keeps :
      (list : Memberlist) (now later : Time) (arrive : List String → Arrivals) (queue size : String)
      → ((n : ℤ) → Keeps P W (get env queue list now later arrive n))
      → Keeps P W (handle_get_messages env list now later arrive queue size)
  unfolding handle_get_messages
  handle_get_messages-Keeps list now later arrive queue size got = search topic_rules

  -- A request keeps what the methods of the queue that it names keep, however it ends. What deletes
  -- a topic may wait for the mutex of the topics.
  pub serve-Keeps :
      (around : Surroundings) (request : Request env)
      → ((topic : String) → request ≡ delete_topic topic → W)
      → ((queue : String) → queue_of env request ≡ some queue → QueueKeeps env P W around queue)
      → Keeps P W (serve env around request)
  unfolding serve queue_of
  serve-Keeps around get_status_servers waits k = unfold show_servers in Keeps-returns _
  serve-Keeps around get_partition_range waits k = show_partition_range-Keeps around.list
  serve-Keeps around (delete_topic topic) waits k =
      handle_delete_topic-Keeps (waits topic refl) topic
  serve-Keeps around (delete_queue queue) waits k = handle_delete_queue-Keeps queue
  serve-Keeps around (put_queue queue) waits k =
      handle_put_queue-Keeps around.random queue (k queue refl).made
  serve-Keeps around (put_topic topic) waits k = handle_put_topic-Keeps topic
  serve-Keeps around (put_topic_queue topic queue) waits k =
      handle_put_topic_queue-Keeps topic queue
  serve-Keeps around (delete_topic_queue topic queue) waits k =
      handle_delete_topic_queue-Keeps topic queue
  serve-Keeps around (patch_queue queue request) waits k = handle_patch_queue-Keeps queue request
  serve-Keeps around get_topics waits k = handle_get_topics-Keeps
  serve-Keeps around (get_topic topic) waits k = handle_get_topic-Keeps topic
  serve-Keeps around (put_topic_message topic body) waits k =
      handle_put_topic_message-Keeps topic body
  serve-Keeps around get_queues waits k = handle_get_queues-Keeps
  serve-Keeps around (get_queue queue) waits k = handle_get_queue-Keeps queue
  serve-Keeps around (get_message queue id) waits k =
      handle_get_message-Keeps around.arrive queue id
  serve-Keeps around (get_messages queue size) waits k =
      handle_get_messages-Keeps around.list around.now around.later around.arrive queue size
        (k queue refl).got
  serve-Keeps around (put_message queue body) waits k = handle_put_message-Keeps queue body
  serve-Keeps around (delete_message queue id) waits k =
      handle_delete_message-Keeps around.random queue id (k queue refl).made
  serve-Keeps around (delete_messages queue ids) waits k = handle_delete_messages-Keeps queue ids
