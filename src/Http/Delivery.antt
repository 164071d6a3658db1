-- ===== src/Http/Delivery.antt =====
-- The handlers of messages (app/httpinterface_v1.go). What is read from the body of a request is an
-- argument.
use dynamiq.Prelude.{
  Option, none, some, List, [], ◌∷◌, ◌++◌, String, not, str_eq, length, if◌then◌else◌,
}
use dynamiq.Prelude.Int.{ℤ, pos, ltb_ℤ}
use dynamiq.Prelude.Int64.{sub64}
use dynamiq.Prelude.Effects.{returns, when, ◌>>=◌, ◌>>◌}
use dynamiq.Riak.{Bytes}
use dynamiq.Clock.{Time}
use dynamiq.Nodes.{Memberlist}
use dynamiq.Partitions.{no_partitions}
use dynamiq.App.{Env}
use dynamiq.Strconv.{NumError, atoi}
use dynamiq.Strings.{split_commas, fields}
use dynamiq.Messages.{Arrivals, with_queue, put, delete, batch_delete, retrieve_messages, get}
use dynamiq.Registry.{initialize_queue}
use dynamiq.Topics.{queue_present}
use dynamiq.Http.Response.{
  Response, plain_text, flag, error, deleted_count, objects, messages, parse_failure, json, plain,
}
use dynamiq.Http.Handlers.{Handler, answers, no_queue}

module _ (env : Env) where
  open env use {riak}

  -- The text names a parameter that the route does not have.
  abbrev pub show_objects : List riak.RObject → Handler env
  show_objects [] = answers env 404 (error "Messages with id:  not found.")
  show_objects (o ∷ rest) = answers env 200 (objects (o ∷ rest))

  -- `arrive` says how the goroutines run.
  unfoldable pub handle_get_message : (List String → Arrivals) → String → String → Handler env
  unfolding queue_present retrieve_messages fields
  handle_get_message arrive queue message_id = do
    there ← queue_present env queue
    if there
        then (do
          found ← retrieve_messages env queue (arrive (fields message_id))
          show_objects found)
        else answers env 404 (error (no_queue env queue))

  unfoldable pub size_complaint : ℤ → List (Response env)
  size_complaint n =
      if ltb_ℤ (pos 0) n
      then []
      else json 422 (plain_text "Batchsizes must be non-negative integers greater than 0") ∷ []

  -- The answers before the messages are read; none of them ends the handler.
  unfoldable pub complaints : String → ℤ × Option NumError → List (Response env)
  unfolding size_complaint
  complaints batch_size (n, none) = size_complaint n
  complaints batch_size (n, some e) = json 422 (parse_failure batch_size e) ∷ size_complaint n

  abbrev pub message_list : List riak.RObject → List (String × Bytes)
  message_list [] = []
  message_list (o ∷ rest) = (riak.object_key o, riak.object_body o) ∷ message_list rest

  -- The answers after: an error is written twice, unless it is that no partition is available.
  unfoldable pub batch_answers : List riak.RObject → Option String → List (Response env)
  batch_answers found none = json 200 (messages (message_list found)) ∷ []
  batch_answers found (some e) =
      if str_eq e no_partitions
      then json 200 (messages (message_list found)) ∷ []
      else json 204 (plain_text e) ∷ json 500 (plain_text e) ∷ []

  -- `ParseInt(s, 10, 64)` is `Atoi` where an `int` has 64 bits.
  unfoldable pub handle_get_messages :
      Memberlist → Time → Time → (List String → Arrivals) → String → String → Handler env
  unfolding queue_present complaints get batch_answers
  handle_get_messages list now later arrive queue batch_size = do
    there ← queue_present env queue
    if there
        then (do
          (found, err) ← get env queue list now later arrive (atoi batch_size).0
          returns (complaints batch_size (atoi batch_size) ++ batch_answers found err))
        else answers env 404 (plain_text (no_queue env queue))

  unfoldable pub handle_put_message : String → Bytes → Handler env
  unfolding queue_present put
  handle_put_message queue body = do
    there ← queue_present env queue
    if there
        then (do uuid ← put env queue body; returns (plain uuid ∷ []))
        else returns (plain "" ∷ [])

  -- A queue that is not there is created.
  unfoldable pub handle_delete_message : (ℤ → ℤ) → String → String → Handler env
  unfolding queue_present initialize_queue with_queue delete
  handle_delete_message random queue message_id = do
    there ← queue_present env queue
    when (not there) (do initialize_queue env random queue; returns tt)
    gone ← with_queue env queue (λ _. delete env queue message_id)
    answers env 200 (flag gone)

  -- The error of `BatchDelete` is ignored.
  unfoldable pub handle_delete_messages : String → String → Handler env
  unfolding queue_present batch_delete split_commas
  handle_delete_messages queue message_ids = do
    there ← queue_present env queue
    if there
        then (do
          (error_count, _) ← batch_delete env queue (split_commas message_ids)
          answers env 200
              (deleted_count (sub64 (pos (length (split_commas message_ids))) error_count)))
        else answers env 404 (error (no_queue env queue))
