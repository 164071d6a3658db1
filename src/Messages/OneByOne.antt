-- ===== src/Messages/OneByOne.antt =====
-- `BatchDelete` of app/queue.go against `Delete` of each message.
use dynamiq.Prelude.{
  ◌≡◌, refl, sym, ap, ◌∙◌, Option, none, some, List, [], ◌∷◌, String, length, Option-cases, inl,
  inr,
}
use dynamiq.Prelude.Int.{ℤ, pos}
use dynamiq.Prelude.Effects.{ok}
use dynamiq.Riak.{Riak}
use dynamiq.Stats.{Client, StatsdCall, client_incr, client_decr_gauge}
use dynamiq.App.{Env, App, record_call}
use dynamiq.Counters.{decrement_message_count, stats_key, deleted_suffix, depth_suffix}
use dynamiq.Messages.Retrieval.{Returns}
use dynamiq.Prelude.Int64.{sub64}
use dynamiq.Messages.{delete, delete_all, batch_delete}

-- What the program relies on when it deletes a message: the buckets are where they were.
abbrev pub KeepsBuckets : Riak → Type 0
KeepsBuckets r =
    (kind name : String) (b : r.Bucket) (id : String) (s : r.Server)
    → r.new_bucket_type kind name (r.delete_object b id s).1 ≡ r.new_bucket_type kind name s

module _ (env : Env) where
  open env use {riak}

  -- `Delete` of each message, one after the other.
  abbrev pub delete_each : String → List String → App env → App env
  delete_each name [] app = app
  delete_each name (id ∷ rest) app = delete_each name rest (delete env name id app).1

  record_call-server :
      (method : Client → String → ℤ → Option StatsdCall) (key : String) (value : ℤ) (app : App env)
      → (e : Option String) × (after : App env) × (record_call env method key value app
          ≡ (ok e, after))
        × (after.server ≡ app.server)
  unfolding record_call
  record_call-server method key value app = elim (Option-cases (method app.stats key value)) [
    | inl e ↦ (none, app, rw e refl, refl)
    | inr (call, e) ↦
        (env.statsd_answer call, record app { calls = call ∷ app.calls }, rw e refl, refl)
  ]

  counted :
      (name : String) (n : ℤ) (app : App env)
      → (e : Option String) × (after : App env) × (decrement_message_count env name n app
          ≡ (ok e, after))
        × (after.server ≡ app.server)
  unfolding decrement_message_count
  counted name n app =
      let (e, middle, ran, kept) =
        record_call-server client_incr (stats_key name deleted_suffix) n app in
      let (e', after, ran', kept') =
        record_call-server client_decr_gauge (stats_key name depth_suffix) n middle in
      (e', after, rw (ran, ran') refl, kept' ∙ kept)

  delete-server :
      (name id : String) (app : App env)
      → (riak.new_bucket_type "messages" name app.server).1 ≡ none
      → (delete env name id app).1.server
        ≡ (riak.delete_object (riak.new_bucket_type "messages" name app.server).0 id app.server).1
  unfolding delete
  delete-server name id app found =
      let bucket = (riak.new_bucket_type "messages" name app.server).0 in
      let (answer, server) = riak.delete_object bucket id app.server in
      elim (Option-cases answer) [
        | inl e ↦
            let (_, after, ran, kept) = counted name (pos 1) (record app { server = server }) in
            rw (found, e, ran) kept
        | inr (text, e) ↦ rw (found, e) refl
      ]

  -- The loop of `BatchDelete` makes the same requests.
  delete_all-each :
      KeepsBuckets riak
      → (name : String) (bucket : riak.Bucket) (ids : List String) (errors : ℤ)
        (err : Option String) (app app' : App env)
      → riak.new_bucket_type "messages" name app'.server ≡ (bucket, none)
      → app'.server ≡ app.server
      → (delete_all env bucket ids errors err app).1.server ≡ (delete_each name ids app').server
  unfolding delete_all
  delete_all-each keeps name bucket [] errors err app app' found same = sym same
  delete_all-each keeps name bucket (id ∷ rest) errors err app app' found same =
      let once =
        delete-server name id app' (ap (λ b. b.1) found)
        ∙ ap (λ b. (riak.delete_object b.0 id app'.server).1) found in
      delete_all-each keeps name bucket rest _ _ _ (delete env name id app').1
        (ap (riak.new_bucket_type "messages" name) once
          ∙ keeps "messages" name bucket id app'.server
          ∙ found)
        (once ∙ ap (λ s. (riak.delete_object bucket id s).1) same)

  delete_all-Returns :
      (bucket : riak.Bucket) (ids : List String) (errors : ℤ) (err : Option String) (app : App env)
      → Returns env (delete_all env bucket ids errors err app).0
  unfolding delete_all
  delete_all-Returns bucket [] errors err app = ((errors, err), refl)
  delete_all-Returns bucket (id ∷ rest) errors err app = delete_all-Returns bucket rest _ _ _

  -- Without a bucket nothing is deleted.
  delete_each-none :
      (name : String) (ids : List String) (app : App env) (text : String)
      → (riak.new_bucket_type "messages" name app.server).1 ≡ some text
      → delete_each name ids app ≡ app
  delete_each-none name [] app text e = refl
  delete_each-none name (id ∷ rest) app text e =
      ap (delete_each name rest) (nothing id) ∙ delete_each-none name rest app text e
    where
      nothing : (id : String) → (delete env name id app).1 ≡ app
      nothing id = unfold delete in rw e refl

  -- Where the deletion of a message leaves the buckets where they were, `BatchDelete` of any
  -- identifiers leaves the cluster in the same state as `Delete` of each of them, one after the
  -- other, with a bucket and without.
  pub batch_delete-each :
      KeepsBuckets riak
      → (name : String) (ids : List String) (app : App env)
      → (batch_delete env name ids app).1.server ≡ (delete_each name ids app).server
  unfolding batch_delete
  batch_delete-each keeps name ids app =
      let (bucket, failure) = riak.new_bucket_type "messages" name app.server in
      elim (Option-cases failure) [
        | inl e ↦
            let ((errors, last), returned) = delete_all-Returns bucket ids (pos 0) none app in
            let (_, after, ran, kept) =
              counted name (sub64 (pos (length ids)) errors)
                (delete_all env bucket ids (pos 0) none app).1 in
            rw (e, returned, ran)
              (kept
                ∙ delete_all-each keeps name bucket ids (pos 0) none app app
                    (ap (λ o. (bucket, o)) e) refl)
        | inr (text, e) ↦ rw e (sym (ap (λ a. a.server) (delete_each-none name ids app text e)))
      ]
