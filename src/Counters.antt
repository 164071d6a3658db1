-- ===== src/Counters.antt =====
-- The statistics of a queue (the helpers at the top of app/queue.go).
use dynamiq.Prelude.{Option, List, [], ◌∷◌, String, length}
use dynamiq.Prelude.Int.{ℤ, pos}
use dynamiq.Prelude.Int64.{max_int64, sub64, mul64}
use dynamiq.Prelude.Effects.{Action, ◌>>◌}
use dynamiq.App.{Env, App, record_call}
use dynamiq.Nodes.{Memberlist}
use dynamiq.Stats.{client_incr, client_incr_gauge, client_decr_gauge, client_set_gauge}
use dynamiq.Strconv.{atoi}
use Prim.Native.String.{◌++◌}

abbrev pub sent_suffix : String
sent_suffix = "sent.count"

abbrev pub received_suffix : String
received_suffix = "received.count"

abbrev pub deleted_suffix : String
deleted_suffix = "deleted.count"

abbrev pub depth_suffix : String
depth_suffix = "depth.count"

abbrev pub approximate_depth_suffix : String
approximate_depth_suffix = "approximate_depth.count"

abbrev pub fill_suffix : String
fill_suffix = "fill.count"

-- `fmt.Sprintf("%s.%s", queueName, suffix)`
unfoldable pub stats_key : String → String → String
stats_key queue_name suffix = queue_name ++ ("." ++ suffix)

module _ (env : Env) where
  open env use {floats}

  unfoldable pub record_fill_ratio : String → ℤ → ℤ → Action (App env) (Option String)
  unfolding stats_key record_call
  record_fill_ratio queue_name batch_size message_count =
      let ratio = floats.div (floats.of_int message_count) (floats.of_int batch_size) in
      let rate = floats.to_int (floats.floor (floats.mul ratio (floats.of_int (pos 100)))) in
      record_call env client_set_gauge (stats_key queue_name fill_suffix) rate

  -- The error of the first call is overwritten.
  unfoldable pub increment_message_count : String → ℤ → Action (App env) (Option String)
  unfolding stats_key record_call
  increment_message_count queue_name number_of_messages = do
    record_call env client_incr (stats_key queue_name sent_suffix) number_of_messages
    record_call env client_incr_gauge (stats_key queue_name depth_suffix) number_of_messages

  unfoldable pub decrement_message_count : String → ℤ → Action (App env) (Option String)
  unfolding stats_key record_call
  decrement_message_count queue_name number_of_messages = do
    record_call env client_incr (stats_key queue_name deleted_suffix) number_of_messages
    record_call env client_decr_gauge (stats_key queue_name depth_suffix) number_of_messages

  unfoldable pub increment_receive_count : String → ℤ → Action (App env) (Option String)
  unfolding stats_key record_call
  increment_receive_count queue_name number_of_messages =
      record_call env client_incr (stats_key queue_name received_suffix) number_of_messages

  abbrev last_of : String → List String → String
  last_of x [] = x
  last_of x (y ∷ l) = last_of y l

  -- The approximate depth: from the density of the identifiers, if there are two at least.
  unfoldable pub depth_of : ℤ → Memberlist → List String → ℤ
  depth_of partition_count list (first ∷ second ∷ rest) =
      let ids = first ∷ second ∷ rest in
      let difference = sub64 (atoi (last_of second rest)).0 (atoi first).0 in
      let density = floats.div (floats.of_int (pos (length ids))) (floats.of_int difference) in
      floats.to_int (floats.mul density (floats.of_int (pos max_int64)))
  depth_of partition_count list ids =
      mul64 (pos (length ids)) (mul64 partition_count (pos (length list.members)))

  unfoldable pub set_queue_depth_apr :
      String → ℤ → Memberlist → List String → Action (App env) (Option String)
  unfolding stats_key record_call depth_of
  set_queue_depth_apr queue_name partition_count list ids =
      record_call env client_set_gauge (stats_key queue_name approximate_depth_suffix)
        (depth_of partition_count list ids)
