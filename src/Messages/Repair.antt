-- ===== src/Messages/Repair.antt =====
-- The read repair of `RetrieveMessages` (app/queue.go).
use dynamiq.Prelude.{◌≡◌, refl, ◌∙◌, Option, none, List, [], ◌∷◌, String, ℕ, Bool, true}
use dynamiq.Prelude.Effects.{Outcome, ok, ok-injective, returns, ◌>>=◌}
use dynamiq.Riak.{Bytes}
use dynamiq.App.{Env, App}
use dynamiq.Strconv.{NumError}
use dynamiq.Settings.{Method, get_compressed_messages}
use dynamiq.Messages.{
  put, put_siblings, repair, collect, retrieve_messages, retrieve_messages-single, fetch_object,
}
use dynamiq.Messages.Retrieval.{put-Returns, with_data, reads_compressed}

module _ (env : Env) where
  open env use {riak}

  -- `Put` of several messages, one after the other: the identifiers that it returns.
  abbrev pub put_messages : String → List Bytes → Method env (List String)
  put_messages name [] = returns []
  put_messages name (message ∷ rest) = do
    id ← put env name message
    others ← put_messages name rest
    returns (id ∷ others)

  -- The messages that are not empty.
  abbrev pub not_empty : List Bytes → List Bytes
  not_empty [] = []
  not_empty ([] ∷ rest) = not_empty rest
  not_empty ((byte ∷ message) ∷ rest) = (byte ∷ message) ∷ not_empty rest

  record Puts (name : String) (messages : List Bytes) (app : App env)
      (r : Outcome (Unit {0}) × App env) : Type 0 where
    ids : List String
    after : App env
    puts : put_messages name messages app ≡ (ok ids, after)
    done : r ≡ (ok tt, after)

  put_siblings-Puts :
      (name : String) (siblings : List Bytes) (app : App env)
      → Puts name (not_empty siblings) app (put_siblings env name siblings app)
  unfolding put_siblings
  put_siblings-Puts name [] app = record { ids = []; after = app; puts = refl; done = refl }
  put_siblings-Puts name ([] ∷ rest) app = put_siblings-Puts name rest app
  put_siblings-Puts name ((b ∷ bytes) ∷ rest) app =
      let (id, e) = put-Returns env name (b ∷ bytes) app in
      let others = put_siblings-Puts name rest (put env name (b ∷ bytes) app).1 in
      record {
        ids = id ∷ others.ids;
        after = others.after;
        puts = rw (e, others.puts) refl;
        done = rw e others.done;
      }

  -- Where the bucket is found and several messages were stored under an identifier,
  -- `RetrieveMessages` of that identifier leaves the state that `Put` of each of these messages
  -- that is not empty leaves, one after the other and in their order, with the object then
  -- destroyed; and it returns the object exactly if it has data, decompressed if the queue
  -- compresses its messages.
  pub retrieve_messages-repairs :
      (name key : String) (taken : ℕ) (app : App env) (compressed : Bool) (e : Option NumError)
      → let bucket = (riak.new_bucket_type "messages" name app.server).0 in
        let object = fetch_object env bucket compressed key app.server in
        (riak.new_bucket_type "messages" name app.server).1 ≡ none
        → (get_compressed_messages env name app).0 ≡ ok (compressed, e)
        → riak.conflict object ≡ true
        → (ids : List String) × (after : App env) × (put_messages name
              (not_empty (riak.siblings object))
              app
            ≡ (ok ids, after))
          × (retrieve_messages env name ((key, taken) ∷ []) app ≡ (
            ok (with_data env (object ∷ [])),
            record after { server = (riak.destroy_object object after.server).1 },
          ))
  unfolding collect repair
  retrieve_messages-repairs name key taken app compressed e there reads conflict =
      let bucket = (riak.new_bucket_type "messages" name app.server).0 in
      let object = fetch_object env bucket compressed key app.server in
      let read = reads_compressed env name app in
      let answer : read.answer ≡ (compressed, e) = ok-injective (rw read.before at reads) in
      let repaired = put_siblings-Puts name (riak.siblings object) app in
      (
        repaired.ids,
        repaired.after,
        repaired.puts,
        retrieve_messages-single env name key taken app compressed e (rw answer at read.before)
            ∙ rw (conflict, repaired.done) refl,
      )
