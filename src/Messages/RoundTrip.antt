-- ===== src/Messages/RoundTrip.antt =====
-- `Put` and `RetrieveMessages` of app/queue.go: a message that was put and comes back.
use dynamiq.Prelude.{
  ℕ, suc, ◌≡◌, ◌≢◌, refl, ap, ◌∙◌, Option, none, some, List, [], ◌∷◌, ◌++◌, String, Bool, true,
  false,
}
use dynamiq.Prelude.Int.{pos}
use dynamiq.Prelude.Effects.{ok-injective, ok}
use dynamiq.Riak.{Riak, Bytes, NewObject}
use dynamiq.Stats.{
  Client, StatsdCall, client_incr, client_incr_gauge, incr, gauge_delta, statsd, noop,
}
use dynamiq.App.{Env, App, Compressor, record_call, draw_id}
use dynamiq.Counters.{increment_message_count, stats_key, sent_suffix, depth_suffix}
use dynamiq.Settings.Kept.{SameSettings, Agree, get_compressed_messages-Agree}
use dynamiq.Strconv.{itoa, NumError}
use dynamiq.Settings.{get_compressed_messages}
use dynamiq.Messages.{
  body_to_store, put, fetch_object, retrieve_messages, retrieve_messages-single, collect, repair,
  has_data,
}

-- What the program relies on when it stores a new message: nothing else changes, and the object
-- that is then fetched under its key, if that was free, has the body that was stored.
pub record StoresObjects (r : Riak) : Type 0 where
  pub buckets_kept :
      (kind name : String) (b : r.Bucket) (object : NewObject) (s : r.Server)
      → r.new_bucket_type kind name (r.store_object b object s).1 ≡ r.new_bucket_type kind name s
  pub maps_kept :
      (b b' : r.Bucket) (key : String) (object : NewObject) (s : r.Server)
      → r.fetch_map b' key (r.store_object b object s).1 ≡ r.fetch_map b' key s
  pub object_stored :
      (b : r.Bucket) (object : NewObject) (s : r.Server)
      → (r.get_object b object.key s).1 ≡ some r.not_found
      → (r.store_object b object s).0 ≡ none
      → let o = (r.get_object b object.key (r.store_object b object s).1).0 in
        (r.object_body o ≡ object.body) × (r.conflict o ≡ false)
  pub body_set : (o : r.RObject) (body : Bytes) → r.object_body (r.set_body o body) ≡ body
  pub conflict_kept : (o : r.RObject) (body : Bytes) → r.conflict (r.set_body o body) ≡ r.conflict o

-- What was compressed without an error is decompressed to what it was.
abbrev pub IsInverse : Compressor → Type 0
IsInverse c = (m : Bytes) → (c.compress m).1 ≡ none → (c.decompress (c.compress m).0).0 ≡ m

module _ (env : Env) where
  has_data-true : (message : Bytes) → message ≢ [] → has_data env message ≡ true
  has_data-true [] h = absurd (h refl)
  has_data-true (b ∷ rest) h = refl

  open env use {riak, compressor}

  -- The calls of the statistics client for a message that was sent, the last one first.
  abbrev pub sent_calls : Client → String → List StatsdCall
  sent_calls statsd name =
      gauge_delta (stats_key name depth_suffix) (pos 1)
      ∷ incr (stats_key name sent_suffix) (pos 1)
      ∷ []
  sent_calls noop name = []

  counts-sent :
      (name : String) (app : App env)
      → let (r, app') = increment_message_count env name (pos 1) app in
        (e : Option String) × (r ≡ ok e)
        × (app' ≡ record app { calls = sent_calls app.stats name ++ app.calls })
  unfolding increment_message_count record_call client_incr client_incr_gauge
  counts-sent name app = counts app.stats
    where
      counts :
          (client : Client)
          → let (r, app') =
              increment_message_count env name (pos 1) (record app { stats = client }) in
            (e : Option String) × (r ≡ ok e)
            × (app' ≡ record app { stats = client; calls = sent_calls client name ++ app.calls })
      counts statsd = (_, refl, refl)
      counts noop = (_, refl, refl)

  module _ (name : String) (message : Bytes) (app : App env) where
    abbrev pub message_id : String
    message_id = itoa (pos (env.draw app.drawn))

    abbrev pub messages_bucket : riak.Bucket
    messages_bucket = (riak.new_bucket_type "messages" name app.server).0

    -- The object that `Put` stores.
    abbrev pub message_object : Bool → NewObject
    message_object compressed = record {
      key = message_id;
      id_int = message_id;
      content_type = "application/json";
      body = body_to_store env compressed message;
    }

    abbrev pub stored_in : Bool → riak.Server
    stored_in compressed =
        (riak.store_object messages_bucket (message_object compressed) app.server).1

    abbrev pub after_put : Bool → App env
    after_put compressed = record app {
      server = stored_in compressed;
      drawn = suc app.drawn;
      calls = sent_calls app.stats name ++ app.calls;
    }

    same-after_put :
        StoresObjects riak → (compressed : Bool) → SameSettings env app (after_put compressed)
    same-after_put stores compressed = record {
      same_queues = refl;
      same_bucket = stores.buckets_kept _ _ _ _ _;
      same_maps = λ b key. stores.maps_kept _ _ _ _ _;
    }

    -- What `Put` does where there is a bucket, whether the cluster stores the object or not.
    pub put-after_put :
        {e : Option NumError} (compressed : Bool)
        → (riak.new_bucket_type "messages" name app.server).1 ≡ none
        → get_compressed_messages env name app ≡ (ok (compressed, e), app)
        → put env name message app ≡ (ok message_id, after_put compressed)
    unfolding put draw_id
    put-after_put compressed found before =
        let counted =
          counts-sent name (record app { server = stored_in compressed; drawn = suc app.drawn }) in
        rw (found, before, counted.1) (ap (λ a. (ok message_id, a)) counted.2)

    body_to_store-fits :
        (compressor.compress message).1 ≡ none
        → body_to_store env true message ≡ (compressor.compress message).0
    unfolding body_to_store
    body_to_store-fits fits = rw fits refl

    fetch_object-stored :
        StoresObjects riak
        → IsInverse compressor
        → (riak.get_object messages_bucket message_id app.server).1 ≡ some riak.not_found
        → (compressor.compress message).1 ≡ none
        → (compressed : Bool)
        → (riak.store_object messages_bucket (message_object compressed) app.server).0 ≡ none
        → let o = fetch_object env messages_bucket compressed message_id (stored_in compressed) in
          (riak.object_body o ≡ message) × (riak.conflict o ≡ false)
    unfolding fetch_object
    fetch_object-stored stores inverse fresh fits true stored =
        let there =
          stores.object_stored messages_bucket (message_object true) app.server fresh stored in
        (
          stores.body_set _ _
              ∙ ap (λ body. (compressor.decompress body).0) (there.0 ∙ body_to_store-fits fits)
              ∙ inverse message fits,
          stores.conflict_kept _ _ ∙ there.1,
        )
    fetch_object-stored stores inverse fresh fits false stored =
        let there =
          stores.object_stored messages_bucket (message_object false) app.server fresh stored in
        (there.0 ∙ unfold body_to_store in refl, there.1)

    collect-single :
        (o : riak.RObject) (state : App env)
        → riak.object_body o ≡ message
        → message ≢ []
        → riak.conflict o ≡ false
        → (collect env name (o ∷ []) state).0 ≡ ok (o ∷ [])
    unfolding collect repair
    collect-single o state body some-data single =
        rw (single, body, has_data-true message some-data)

    -- Where the bucket is found, the identifier that is drawn is free, the compression succeeds and
    -- is undone by the decompression, the cluster stores the object, and the message is not empty,
    -- `Put` returns that identifier, and `RetrieveMessages` of it then returns one object, with the
    -- message that was put, whether the queue compresses its messages or not.
    pub retrieve_messages-put :
        StoresObjects riak
        → IsInverse compressor
        → (compressed : Bool) (e : Option NumError)
        → (get_compressed_messages env name app).0 ≡ ok (compressed, e)
        → (riak.new_bucket_type "messages" name app.server).1 ≡ none
        → (riak.get_object messages_bucket message_id app.server).1 ≡ some riak.not_found
        → (compressor.compress message).1 ≡ none
        → (riak.store_object messages_bucket (message_object compressed) app.server).0 ≡ none
        → message ≢ []
        → (taken : ℕ)
        → let (r, app') = put env name message app in
          (r ≡ ok message_id)
          × (o : riak.RObject) × ((retrieve_messages env name ((message_id, taken) ∷ []) app').0
              ≡ ok (o ∷ []))
          × (riak.object_body o ≡ message)
    retrieve_messages-put stores inverse compressed e reads found fresh fits stored some-data
          taken =
        rw ran (refl, o, retrieved, there.0)
      where
        agree : Agree env (get_compressed_messages env name) app (after_put compressed)
        agree =
            get_compressed_messages-Agree env name app (after_put compressed)
              (same-after_put stores compressed)

        answer : agree.answer ≡ (compressed, e)
        answer = ok-injective (rw agree.before at reads)

        ran : put env name message app ≡ (ok message_id, after_put compressed)
        ran = put-after_put compressed found (rw answer at agree.before)

        after :
            get_compressed_messages env name (after_put compressed)
            ≡ (ok (compressed, e), after_put compressed)
        after = rw answer at agree.after

        same_messages :
            riak.new_bucket_type "messages" name (stored_in compressed)
            ≡ riak.new_bucket_type "messages" name app.server
        same_messages = stores.buckets_kept "messages" name _ _ _

        o : riak.RObject
        o = fetch_object env messages_bucket compressed message_id (stored_in compressed)

        there : (riak.object_body o ≡ message) × (riak.conflict o ≡ false)
        there = fetch_object-stored stores inverse fresh fits compressed stored

        retrieved :
            (retrieve_messages env name ((message_id, taken) ∷ []) (after_put compressed)).0
            ≡ ok (o ∷ [])
        retrieved =
            ap (λ r. r.0)
              (retrieve_messages-single env name message_id taken (after_put compressed) compressed
                e after)
            ∙ rw same_messages (collect-single o _ there.0 some-data there.1)
