-- ===== src/System/Loaded.antt =====
-- `loadQueuesConfig` of app/config.go: every queue that it loads is whole.
use dynamiq.Prelude.{◌≡◌, refl, List, [], ◌∷◌, String, Bool-cases, inl, inr}
use dynamiq.Prelude.Int.{ℤ}
use dynamiq.Prelude.Effects.{ok}
use dynamiq.App.{Env, App, Queue, find_queue, lookup, insert}
use dynamiq.Settings.{configuration_bucket, queue_config_record_name}
use dynamiq.Registry.{values_of, queue_config_name, queue_set_name}
use dynamiq.QueueSync.{load_each, load_queues}
use dynamiq.QueueSync.Reconciled.{in_memory}
use dynamiq.System.Whole.{AllWhole, AllWhole-insert, new_partitions-IsWhole}

module _ (env : Env) (random : ℤ → ℤ) where
  open env use {riak}

  load_each-whole :
      (bucket : riak.Bucket) (names : List String) (loaded : List (String × Queue env))
      (app : App env)
      → AllWhole env (in_memory env app loaded)
      → (queues : List (String × Queue env)) × (load_each env random bucket names loaded app
          ≡ (ok queues, app))
        × AllWhole env (in_memory env app queues)
  unfolding load_each
  load_each-whole bucket [] loaded app h = (loaded, refl, h)
  load_each-whole bucket (name ∷ rest) loaded app h =
      let (parts, made, v, free) = new_partitions-IsWhole env random name app in
      let config = (riak.fetch_map bucket (queue_config_record_name name) app.server).0 in
      let queue : Queue env = record { name = name; parts = parts; config = config } in
      let h' =
        AllWhole-insert env name (in_memory env app loaded) loaded refl h queue
          (record { waiting = v; free = free }) (in_memory env app (insert name queue loaded))
          refl in
      let (queues, done, whole) = load_each-whole bucket rest (insert name queue loaded) app h' in
      (queues, rw made done, whole)

  pub load_queues-AllWhole :
      (app : App env) → AllWhole env app → AllWhole env (load_queues env random app).1
  unfolding load_queues find_queue lookup
  load_queues-AllWhole app h =
      let bucket = (riak.new_bucket_type "maps" configuration_bucket app.server).0 in
      let config = (riak.fetch_map bucket queue_config_name app.server).0 in
      let none_yet : AllWhole env (in_memory env app []) = record {
        whole = λ name queue found. cc;
      } in
      let (queues, done, whole) =
        load_each-whole bucket (values_of (riak.fetch_set config queue_set_name)) [] app none_yet in
      elim (Bool-cases (riak.nil_bucket bucket)) [
        | inl e ↦ rw e h
        | inr e ↦ elim (Bool-cases (riak.nil_map config)) [
          | inl e' ↦ rw (e, e') h
          | inr e' ↦ rw (e, e', done) whole
        ]
      ]
