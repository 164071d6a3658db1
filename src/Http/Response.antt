-- ===== src/Http/Response.antt =====
-- What the handlers read and write (app/httpinterface_v1.go).
use dynamiq.Prelude.{ℕ, Option, List, String, Bool}
use dynamiq.Prelude.Int.{ℤ}
use dynamiq.Riak.{Bytes}
use dynamiq.Clock.{Floats}
use dynamiq.App.{Env}
use dynamiq.Strconv.{NumError}

-- `ConfigRequest`: a setting that the body of the request does not name is nil.
pub record ConfigRequest (floats : Floats) : Type 0 where
  pub visibility_timeout : Option floats.Float
  pub min_partitions : Option ℤ
  pub max_partitions : Option ℤ
  pub max_partition_age : Option floats.Float
  pub compressed_messages : Option Bool

-- What is shown of a queue.
pub record QueueView (floats : Floats) : Type 0 where
  pub visibility_timeout : floats.Float
  pub min_partitions : ℤ
  pub max_partitions : ℤ
  pub max_partition_age : floats.Float
  pub compressed_messages : Bool
  pub partitions : ℤ

-- What is written as JSON: a value, or an object, whose key the constructor names.
pub data Body (env : Env) : Type 0 where
  plain_text : String → Body env
  flag : Bool → Body env
  error : String → Body env
  deleted : Bool → Body env
  deleted_count : ℤ → Body env
  subscribers : List String → Body env
  topic_list : List String → Body env
  queue_list : List String → Body env
  key_range : String → String → Body env
  writes : List (String × String) → Body env
  queue_view : QueueView env.floats → Body env
  objects : List env.riak.RObject → Body env
  -- the key and the body of each message
  messages : List (String × Bytes) → Body env
  -- the error of `ParseInt` for a text
  parse_failure : String → NumError → Body env

-- One `r.JSON(status, body)`, or the text that a handler returns.
pub data Response (env : Env) : Type 0 where
  json : ℕ → Body env → Response env
  plain : String → Response env
