-- ===== src/Http/Server.antt =====
-- The routes of `InitWebserver` (app/httpinterface_v1.go): a request goes to the handler of its
-- route. The router itself is the package martini; a request stands here for what it matched, with
-- the parameters of the route and what is read from the body.
use dynamiq.Prelude.{Option, none, some, List, [], ◌∷◌, String}
use dynamiq.Prelude.Int.{ℤ}
use dynamiq.Prelude.Effects.{returns}
use dynamiq.Riak.{Bytes}
use dynamiq.Clock.{Time}
use dynamiq.Nodes.{Memberlist}
use dynamiq.Messages.{Arrivals}
use dynamiq.App.{Env}
use dynamiq.Http.Response.{ConfigRequest, plain}
use dynamiq.Http.Handlers.{
  Handler, show_partition_range, handle_delete_topic, handle_delete_queue, handle_put_queue,
  handle_put_topic, handle_put_topic_queue, handle_delete_topic_queue, handle_patch_queue,
  handle_get_topics, handle_get_topic, handle_put_topic_message, handle_get_queues,
  handle_get_queue,
}
use dynamiq.Http.Delivery.{
  handle_get_message, handle_get_messages, handle_put_message, handle_delete_message,
  handle_delete_messages,
}
use Prim.Native.String.{◌++◌}

-- What a request meets outside of the node's own state: the members of the cluster with their
-- names and addresses, the clock when a partition is taken and when it is given back, how the
-- goroutines of a request run, and the priorities that are drawn.
pub record Surroundings : Type 0 where
  pub list : Memberlist
  pub members : List (String × String)
  pub now : Time
  pub later : Time
  pub arrive : List String → Arrivals
  pub random : ℤ → ℤ

-- `fmt.Sprintf("Member: %s %s\n", member.Name, member.Addr)`, for each member
unfoldable pub member_lines : List (String × String) → String
member_lines [] = ""
member_lines ((name, addr) ∷ rest) =
    ("Member: " ++ (name ++ (" " ++ (addr ++ "\n")))) ++ member_lines rest

module _ (env : Env) where
  open env use {floats}

  pub data Request : Type 0 where
    get_status_servers get_partition_range get_topics get_queues : Request
    get_topic delete_topic put_topic get_queue put_queue delete_queue : String → Request
    put_topic_queue delete_topic_queue : String → String → Request
    patch_queue : String → ConfigRequest floats → Request
    put_topic_message put_message : String → Bytes → Request
    -- the queue, and an identifier, a number of messages or several identifiers
    get_message get_messages delete_message delete_messages : String → String → Request

  -- The queue that a request names.
  unfoldable pub queue_of : Request → Option String
  queue_of get_status_servers = none
  queue_of get_partition_range = none
  queue_of get_topics = none
  queue_of get_queues = none
  queue_of (get_topic topic) = none
  queue_of (delete_topic topic) = none
  queue_of (put_topic topic) = none
  queue_of (put_topic_message topic body) = none
  queue_of (get_queue queue) = some queue
  queue_of (put_queue queue) = some queue
  queue_of (delete_queue queue) = some queue
  queue_of (put_topic_queue topic queue) = some queue
  queue_of (delete_topic_queue topic queue) = some queue
  queue_of (patch_queue queue request) = some queue
  queue_of (put_message queue body) = some queue
  queue_of (get_message queue id) = some queue
  queue_of (get_messages queue size) = some queue
  queue_of (delete_message queue id) = some queue
  queue_of (delete_messages queue ids) = some queue

  unfoldable pub show_servers : List (String × String) → Handler env
  unfolding member_lines
  show_servers members = returns (plain (member_lines members) ∷ [])

  unfoldable pub serve : Surroundings → Request → Handler env
  unfolding show_servers show_partition_range
  serve around get_status_servers = show_servers around.members
  serve around get_partition_range = show_partition_range env around.list
  serve around (delete_topic topic) = handle_delete_topic env topic
  serve around (delete_queue queue) = handle_delete_queue env queue
  serve around (put_queue queue) = handle_put_queue env around.random queue
  serve around (put_topic topic) = handle_put_topic env topic
  serve around (put_topic_queue topic queue) = handle_put_topic_queue env topic queue
  serve around (delete_topic_queue topic queue) = handle_delete_topic_queue env topic queue
  serve around (patch_queue queue request) = handle_patch_queue env queue request
  serve around get_topics = handle_get_topics env
  serve around (get_topic topic) = handle_get_topic env topic
  serve around (put_topic_message topic body) = handle_put_topic_message env topic body
  serve around get_queues = handle_get_queues env
  serve around (get_queue queue) = handle_get_queue env queue
  serve around (get_message queue id) = handle_get_message env around.arrive queue id
  serve around (get_messages queue size) =
      handle_get_messages env around.list around.now around.later around.arrive queue size
  serve around (put_message queue body) = handle_put_message env queue body
  serve around (delete_message queue id) = handle_delete_message env around.random queue id
  serve around (delete_messages queue ids) = handle_delete_messages env queue ids
