-- ===== src/Http/Reading.antt =====
-- The handlers that put and get messages (app/httpinterface_v1.go).
use dynamiq.Prelude.{
  ℕ, ◌≡◌, ◌≢◌, refl, sym, ap, ◌∙◌, Option, none, some, List, [], ◌∷◌, ◌++◌, String, Bool, true,
  false, not, ◌&&◌, str_eq, length, ◌==◌, ◌⊎◌, arith, Bool-cases, inl, inr,
}
use dynamiq.Prelude.Int.{ℤ, pos, ltb_ℤ}
use dynamiq.Prelude.Effects.{ok}
use dynamiq.Riak.{Bytes}
use dynamiq.Clock.{Time}
use dynamiq.Nodes.{Memberlist}
use dynamiq.Partitions.{no_partitions}
use dynamiq.App.{Env, App, Queue, present}
use dynamiq.Strconv.{NumError, atoi}
use dynamiq.Strings.{fields}
use dynamiq.Strings.Words.{fields-itoa}
use dynamiq.Settings.{get_compressed_messages}
use dynamiq.Messages.{Arrivals, put, get, retrieve_messages}
use dynamiq.Messages.Retrieval.{put-kept}
use dynamiq.Messages.RoundTrip.{
  StoresObjects, IsInverse, message_id, message_object, messages_bucket, retrieve_messages-put,
}
use dynamiq.Topics.{queue_present}
use dynamiq.Http.Response.{Response, json, plain, objects, messages, plain_text}
use dynamiq.Http.Delivery.{
  handle_put_message, handle_get_message, handle_get_messages, complaints, size_complaint,
  batch_answers, message_list,
}
use dynamiq.Http.Creating.{queue_present-queues}

module _ (env : Env) where
  open env use {riak, compressor}

  put_there :
      (queue id : String) (body : Bytes) (app : App env)
      → queue_present env queue app ≡ (ok true, app)
      → (put env queue body app).0 ≡ ok id
      → handle_put_message env queue body app ≡ (ok (plain id ∷ []), (put env queue body app).1)
  unfolding handle_put_message
  put_there queue id body app there e = rw (there, e) refl

  get_there :
      (arrive : List String → Arrivals) (queue id : String) (taken : ℕ) (o : riak.RObject)
      (app : App env)
      → queue_present env queue app ≡ (ok true, app)
      → arrive (fields id) ≡ (id, taken) ∷ []
      → (retrieve_messages env queue ((id, taken) ∷ []) app).0 ≡ ok (o ∷ [])
      → (handle_get_message env arrive queue id app).0 ≡ ok (json 200 (objects (o ∷ [])) ∷ [])
  unfolding handle_get_message
  get_there arrive queue id taken o app there order found = rw (there, order, found) refl

  -- Where the queue is in memory, the bucket is found, the identifier that is drawn is free, the
  -- compression succeeds and is undone by the decompression, the cluster stores the object, and the
  -- body is not empty, a PUT of a message answers an identifier, and a GET of that identifier then
  -- answers 200 with one object, whose body is the one that was put.
  pub handle_get_message-put :
      StoresObjects riak
      → IsInverse compressor
      → (queue : String) (body : Bytes) (app : App env) (queues : List (String × Queue env))
        (arrive : List String → Arrivals) (taken : ℕ) (compressed : Bool) (e : Option NumError)
      → app.queues ≡ some queues
      → present queue queues ≡ true
      → ((id : String) → arrive (id ∷ []) ≡ (id, taken) ∷ [])
      → (get_compressed_messages env queue app).0 ≡ ok (compressed, e)
      → (riak.new_bucket_type "messages" queue app.server).1 ≡ none
      → (riak.get_object
          (messages_bucket env queue body app)
          (message_id env queue body app)
          app.server).1
        ≡ some riak.not_found
      → (compressor.compress body).1 ≡ none
      → (riak.store_object
          (messages_bucket env queue body app)
          (message_object env queue body app compressed)
          app.server).0
        ≡ none
      → body ≢ []
      → let (r, app') = handle_put_message env queue body app in
        (id : String) × (o : riak.RObject) × (r ≡ ok (plain id ∷ []))
        × ((handle_get_message env arrive queue id app').0 ≡ ok (json 200 (objects (o ∷ [])) ∷ []))
        × (riak.object_body o ≡ body)
  handle_get_message-put stores inverse queue body app queues arrive taken compressed e there known
        order reads bucket fresh fits stored some-data =
      let (ran, o, found, same) =
        retrieve_messages-put env queue body app stores inverse compressed e reads bucket fresh fits
          stored some-data taken in
      let id = message_id env queue body app in
      let answered =
        put_there queue id body app (queue_present-queues env queue true app queues there known)
          ran in
      let still =
        queue_present-queues env queue true (put env queue body app).1 queues
          ((put-kept env queue body app).0 ∙ there) known in
      let one = ap arrive (fields-itoa (env.draw app.drawn)) ∙ order id in
      rw answered (id, o, refl, get_there arrive queue id taken o _ still one found, same)

  -- An error that is not the one that no partition is available.
  abbrev pub failed : Option String → Bool
  failed none = false
  failed (some e) = not (str_eq e no_partitions)

  -- A batch size that is a number above 0.
  abbrev pub accepted : ℤ × Option NumError → Bool
  accepted (n, none) = ltb_ℤ (pos 0) n
  accepted (n, some _) = false

  get_messages_there :
      (list : Memberlist) (now later : Time) (arrive : List String → Arrivals)
      (queue batch_size : String) (app : App env) (found : List riak.RObject) (err : Option String)
      → queue_present env queue app ≡ (ok true, app)
      → (get env queue list now later arrive (atoi batch_size).0 app).0 ≡ ok (found, err)
      → (handle_get_messages env list now later arrive queue batch_size app).0
        ≡ ok (complaints env batch_size (atoi batch_size) ++ batch_answers env found err)
  unfolding handle_get_messages
  get_messages_there list now later arrive queue batch_size app found err there e =
      rw (there, e) refl

  more_than_one :
      (a b : Response env) (rest others : List (Response env))
      → (length (a ∷ rest ++ b ∷ others) == 1) ≡ false
  more_than_one a b [] others = ground arith
  more_than_one a b (c ∷ rest) others = ground arith

  complaints-cases :
      (batch_size : String) (size : ℤ × Option NumError)
      → ((complaints env batch_size size ≡ []) × (accepted size ≡ true))
        ⊎ ((c : Response env) × (rest : List (Response env)) × (complaints env batch_size size
              ≡ c ∷ rest)
            × (accepted size ≡ false))
  unfolding complaints size_complaint
  complaints-cases batch_size (n, none) = elim (Bool-cases (ltb_ℤ (pos 0) n)) [
    | inl e ↦ inl (rw e refl, e)
    | inr e ↦ inr (
      json 422 (plain_text "Batchsizes must be non-negative integers greater than 0"),
      [],
      rw e refl,
      e,
    )
  ]
  complaints-cases batch_size (n, some e) = inr (_, _, refl, refl)

  batch_answers-cases :
      (found : List riak.RObject) (err : Option String)
      → ((batch_answers env found err ≡ json 200 (messages (message_list env found)) ∷ [])
          × (failed err ≡ false))
        ⊎ ((e : String) × (batch_answers env found err
              ≡ json 204 (plain_text e) ∷ json 500 (plain_text e) ∷ [])
            × (failed err ≡ true))
  unfolding batch_answers
  batch_answers-cases found none = inl (refl, refl)
  batch_answers-cases found (some e) = elim (Bool-cases (str_eq e no_partitions)) [
    | inl same ↦ inl (rw same refl, rw same refl)
    | inr other ↦ inr (e, rw other refl, rw other refl)
  ]

  -- Where the queue is in memory and `Get` returns messages and an error, the handler writes
  -- exactly one answer if and only if the batch size is a number above 0 and the error is none or
  -- that no partition is available; the last answer is 200 with the messages wherever the error is
  -- so, also for a batch size that is not accepted.
  pub handle_get_messages-once :
      (list : Memberlist) (now later : Time) (arrive : List String → Arrivals)
      (queue batch_size : String) (app : App env) (queues : List (String × Queue env))
      (found : List riak.RObject) (err : Option String)
      → app.queues ≡ some queues
      → present queue queues ≡ true
      → (get env queue list now later arrive (atoi batch_size).0 app).0 ≡ ok (found, err)
      → (written : List (Response env)) × ((handle_get_messages env list now later arrive queue
            batch_size app).0
          ≡ ok written)
        × ((length written == 1) ≡ (accepted (atoi batch_size) && not (failed err)))
        × (failed err ≡ false
            → (before : List (Response env)) × (written
                ≡ before ++ json 200 (messages (message_list env found)) ∷ []))
  handle_get_messages-once list now later arrive queue batch_size app queues found err there known
        e =
      let ran =
        get_messages_there list now later arrive queue batch_size app found err
          (queue_present-queues env queue true app queues there known) e in
      elim (complaints-cases batch_size (atoi batch_size)) [
        | inl (none_yet, good) ↦ elim (batch_answers-cases found err) [
          | inl (all, fine) ↦ (_, rw (none_yet, all) at ran, rw (good, fine) refl, λ h. ([], refl))
          | inr (e', all, bad) ↦
              (_, rw (none_yet, all) at ran, rw (good, bad) refl, λ h. absurd_false (sym bad ∙ h))
        ]
        | inr (c, rest, complained, bad_size) ↦ elim (batch_answers-cases found err) [
          | inl (all, fine) ↦ (
            _,
            rw (complained, all) at ran,
            rw bad_size (more_than_one c _ rest []),
            λ h. (c ∷ rest, refl),
          )
          | inr (e', all, bad) ↦ (
            _,
            rw (complained, all) at ran,
            rw bad_size (more_than_one c _ rest _),
            λ h. absurd_false (sym bad ∙ h),
          )
        ]
      ]
    where
      absurd_false : {A : Type 0} → true ≡ false → A
      absurd_false h = cc
