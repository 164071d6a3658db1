-- ===== src/Compression/Hidden.antt =====
-- `RetrieveMessages` of app/queue.go in a queue that compresses its messages by zlib, where what is
-- stored was not compressed.
use dynamiq.Prelude.{◌≡◌, refl, ap, ◌∙◌, Option, some, List, [], ◌∷◌, String, true, false, map, All}
use dynamiq.Prelude.Effects.{ok}
use dynamiq.Messages.RoundTrip.{StoresObjects}
use dynamiq.App.{Env, App}
use dynamiq.Strconv.{NumError}
use dynamiq.Settings.{get_compressed_messages}
use dynamiq.Messages.{Arrivals, fetch_object, retrieve_messages}
use dynamiq.Messages.Retrieval.{with_data, IsSingle, read_order, retrieve_messages-fetched}
use dynamiq.Compression.{Zlib, zlib_decompress, new_zlib_compressor}

module _ (env : Env) (zlib : Zlib) (uses : env.compressor ≡ new_zlib_compressor zlib) where
  open env use {riak}

  -- The bytes of one message are stored under an identifier, and have no header of zlib.
  pub record IsRefused (bucket : riak.Bucket) (server : riak.Server) (id : String) : Type 0 where
    pub text : String
    pub refused :
        (zlib.new_reader (riak.object_body (riak.get_object bucket id server).0)).1 ≡ some text
    pub single : riak.conflict (riak.get_object bucket id server).0 ≡ false

  module _ (stores : StoresObjects riak) (bucket : riak.Bucket) (server : riak.Server) where
    fetch_object-empty :
        (id : String)
        → IsRefused bucket server id
        → riak.object_body (fetch_object env bucket true id server) ≡ []
    unfolding fetch_object new_zlib_compressor zlib_decompress
    fetch_object-empty id h =
        let stored = riak.object_body (riak.get_object bucket id server).0 in
        stores.body_set _ _ ∙ ap (λ c. (c.decompress stored).0) uses ∙ rw h.refused refl

    fetch_object-single :
        (id : String)
        → IsRefused bucket server id
        → riak.conflict (fetch_object env bucket true id server) ≡ false
    unfolding fetch_object
    fetch_object-single id h = stores.conflict_kept _ _ ∙ h.single

    -- What is fetched has no data and no conflicts.
    with_data-none :
        (ids : List String)
        → All (IsRefused bucket server) ids
        → let objects = map (λ id. fetch_object env bucket true id server) ids in
          (with_data env objects ≡ []) × All (IsSingle env) objects
    with_data-none [] h = (refl, tt)
    with_data-none (id ∷ rest) h =
        let (others, single) = with_data-none rest h.1 in
        (rw (fetch_object-empty id h.0) others, (fetch_object-single id h.0, single))

  -- Where Riak replaces the body of an object as it is told, the compressor is the one for zlib,
  -- and the queue compresses its messages, `RetrieveMessages` returns nothing for identifiers under
  -- each of which the bytes of one message are stored that zlib refuses, as those of messages from
  -- before the queue compressed: it returns no error, and the messages stay hidden.
  pub retrieve_messages-refused :
      StoresObjects riak
      → (name : String) (arrival : Arrivals) (app : App env) (e : Option NumError)
      → (get_compressed_messages env name app).0 ≡ ok (true, e)
      → All
          (IsRefused (riak.new_bucket_type "messages" name app.server).0 app.server)
          (read_order env arrival)
      → (retrieve_messages env name arrival app).0 ≡ ok []
  retrieve_messages-refused stores name arrival app e compresses refused =
      let bucket = (riak.new_bucket_type "messages" name app.server).0 in
      let (none_there, single) =
        with_data-none stores bucket app.server (read_order env arrival) refused in
      ap (λ r. r.0) (retrieve_messages-fetched env name arrival app true e compresses single)
      ∙ ap ok none_there
