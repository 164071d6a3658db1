-- ===== src/Http/Deleting.antt =====
-- The handler that deletes a queue (app/httpinterface_v1.go).
use dynamiq.Prelude.{◌≡◌, refl, ◌∙◌, some, List, [], ◌∷◌, String, Bool, true, not}
use dynamiq.Prelude.Int.{ℤ}
use dynamiq.Prelude.Effects.{ok}
use dynamiq.App.{Env, App, Queue, present}
use dynamiq.Settings.{configuration_bucket, queue_config_record_name}
use dynamiq.Registry.{
  listed, values_of, delete_queue, remove_queue, exists, queue_config_name, queue_set_name,
}
use dynamiq.Topics.{queue_present}
use dynamiq.Http.Response.{json, deleted, error}
use dynamiq.Http.Handlers.{handle_delete_queue, handle_put_queue}
use dynamiq.Http.Creating.{queue_present-queues, put_present}

module _ (env : Env) where
  open env use {riak}

  delete_there :
      (queue : String) (app after : App env) (gone : Bool)
      → queue_present env queue app ≡ (ok true, app)
      → delete_queue env queue app ≡ (ok gone, after)
      → handle_delete_queue env queue app ≡ (ok (json 200 (deleted true) ∷ []), after)
  unfolding handle_delete_queue
  delete_there queue app after gone e f = rw (e, f) refl

  -- `DeleteQueue` changes the state of Riak only.
  delete_queue-kept :
      (queue : String) (app : App env) (values : List String)
      → riak.fetch_set
          (riak.fetch_map
            (riak.new_bucket_type "maps" configuration_bucket app.server).0
            queue_config_name
            app.server).0
          queue_set_name
        ≡ some values
      → (gone : Bool) × (after : App env) × (delete_queue env queue app ≡ (ok gone, after))
        × (after.queues ≡ app.queues)
  unfolding delete_queue remove_queue exists
  delete_queue-kept queue app values known =
      let bucket = (riak.new_bucket_type "maps" configuration_bucket app.server).0 in
      let config = (riak.fetch_map bucket queue_config_name app.server).0 in
      let s1 = (riak.store_map (riak.remove_from_set config queue_set_name queue) app.server).1 in
      let s2 =
        (riak.destroy_map (riak.fetch_map bucket (queue_config_record_name queue) s1).0 s1).1 in
      let left =
        (riak.fetch_map (riak.new_bucket_type "maps" configuration_bucket s2).0 queue_config_name
          s2).0 in
      (
        not (listed queue (values_of (riak.fetch_set left queue_set_name))),
        record app { server = s2 },
        rw known refl,
        refl,
      )

  -- For a queue in memory, where there is a set of known queues, a DELETE of the queue answers that
  -- it was deleted, whatever `DeleteQueue` returns; the queues in memory stay as they are, and a
  -- PUT of the queue then answers 422 and changes nothing.
  pub handle_delete_queue-stays :
      (queue : String) (app : App env) (queues : List (String × Queue env)) (values : List String)
      (random : ℤ → ℤ)
      → app.queues ≡ some queues
      → present queue queues ≡ true
      → riak.fetch_set
          (riak.fetch_map
            (riak.new_bucket_type "maps" configuration_bucket app.server).0
            queue_config_name
            app.server).0
          queue_set_name
        ≡ some values
      → let (r, app') = handle_delete_queue env queue app in
        (r ≡ ok (json 200 (deleted true) ∷ []))
        × (app'.queues ≡ some queues)
        × (handle_put_queue env random queue app'
            ≡ (ok (json 422 (error "Queue already exists.") ∷ []), app'))
  handle_delete_queue-stays queue app queues values random there known found =
      let (gone, after, ran, kept) = delete_queue-kept queue app values found in
      let here = queue_present-queues env queue true app queues there known in
      let still = queue_present-queues env queue true after queues (kept ∙ there) known in
      rw (delete_there queue app after gone here ran)
        (refl, kept ∙ there, put_present env random queue after still)
