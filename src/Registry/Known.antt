-- ===== src/Registry/Known.antt =====
-- The set of known queues (app/config.go and app/queue.go), as `Exists` reads it.
use dynamiq.Prelude.{
  ◌≡◌, refl, ap, ◌∙◌, Option, none, some, List, String, Bool, true, false, not, ◌||◌, ◌&&◌, str_eq,
  arith,
}
use dynamiq.Prelude.Effects.{ok-injective, ok}
use dynamiq.Riak.{Riak}
use dynamiq.App.{Env, App}
use dynamiq.Settings.{configuration_bucket, queue_config_record_name}
use dynamiq.Registry.{
  listed, values_of, change_known_queues, add_to_known_queues, exists, delete_queue, remove_queue,
  queue_config_name, queue_set_name,
}
use dynamiq.Prelude.Text.{wrapped-differs}
use text.Mathlib.TextPositions.{eq_refl}

-- What the program relies on when it stores or destroys a map with a set: the buckets are where
-- they were, the set that is fetched then has the change, and a map under another key is kept.
pub record StoresSets (r : Riak) : Type 0 where
  pub bucket_kept :
      (kind name : String) (m : r.RMap) (s : r.Server)
      → r.new_bucket_type kind name (r.store_map m s).1 ≡ r.new_bucket_type kind name s
  pub member_added :
      (b : r.Bucket) (key set member other : String) (s : r.Server)
      → let before = r.fetch_map b key s in
        let m = r.add_to_set before.0 set member in
        (r.store_map m s).0.1 ≡ none
        → listed other (values_of (r.fetch_set (r.fetch_map b key (r.store_map m s).1).0 set))
          ≡ (str_eq member other || listed other (values_of (r.fetch_set before.0 set)))
  pub member_removed :
      (b : r.Bucket) (key set member other : String) (s : r.Server)
      → let before = r.fetch_map b key s in
        let m = r.remove_from_set before.0 set member in
        (r.store_map m s).0.1 ≡ none
        → listed other (values_of (r.fetch_set (r.fetch_map b key (r.store_map m s).1).0 set))
          ≡ (not (str_eq member other) && listed other (values_of (r.fetch_set before.0 set)))
  pub bucket_left :
      (kind name : String) (m : r.RMap) (s : r.Server)
      → r.new_bucket_type kind name (r.destroy_map m s).1 ≡ r.new_bucket_type kind name s
  pub others_left :
      (b : r.Bucket) (key other : String) (s : r.Server)
      → str_eq key other ≡ false
      → r.fetch_map b other (r.destroy_map (r.fetch_map b key s).0 s).1 ≡ r.fetch_map b other s

-- The record of a queue has another key than the set of queues: it is longer.
record_name-differs :
    (name : String) → str_eq (queue_config_record_name name) queue_config_name ≡ false
unfolding queue_config_record_name
record_name-differs name = wrapped-differs "queue_" name "_config" queue_config_name (omega arith)

module _ (env : Env) (stores : StoresSets env.riak) where
  open env use {riak}

  abbrev config_bucket : App env → riak.Bucket
  config_bucket app = (riak.new_bucket_type "maps" configuration_bucket app.server).0

  -- Whether a queue is in the set of known queues.
  abbrev pub is_known : String → App env → Bool
  is_known name app = listed name (
      values_of (
        riak.fetch_set (riak.fetch_map (config_bucket app) queue_config_name app.server).0
          queue_set_name))

  exists-is_known :
      (name : String) (app : App env) → exists env name app ≡ (ok (is_known name app), app)
  unfolding exists
  exists-is_known name app = refl

  -- A state of the cluster whose buckets are those of another one.
  is_known-same :
      (name : String) (app app' : App env)
      → riak.new_bucket_type "maps" configuration_bucket app'.server
        ≡ riak.new_bucket_type "maps" configuration_bucket app.server
      → is_known name app'
        ≡ listed name (
            values_of (
              riak.fetch_set
                (riak.fetch_map (config_bucket app) queue_config_name app'.server).0
                queue_set_name))
  is_known-same name app app' same =
      ap
        (λ b. listed name (
          values_of
            (riak.fetch_set (riak.fetch_map b.0 queue_config_name app'.server).0 queue_set_name)))
        same

  -- On a cluster that stores maps as documented, where the change is stored, a queue that is added
  -- to the known queues exists then, and every other queue exists exactly if it did.
  pub exists-add_to_known_queues :
      (name other : String) (app : App env)
      → (add_to_known_queues env name app).0 ≡ ok none
      → (before after : Bool) × ((exists env other app).0 ≡ ok before)
        × ((exists env other (add_to_known_queues env name app).1).0 ≡ ok after)
        × (after ≡ (str_eq name other || before))
  unfolding add_to_known_queues
  exists-add_to_known_queues name other app h = (
    is_known other app,
    is_known other (add_to_known_queues env name app).1,
    ap (λ r. r.0) (exists-is_known other app),
    ap (λ r. r.0) (exists-is_known other (add_to_known_queues env name app).1),
    unfold change_known_queues in
        is_known-same other app (add_to_known_queues env name app).1 (stores.bucket_kept _ _ _ _)
        ∙ stores.member_added (config_bucket app) queue_config_name queue_set_name name other
            app.server (ok-injective h),
  )

  -- On a cluster that stores and destroys maps as documented, where there is a set of known queues
  -- and the change of it is stored, `DeleteQueue` returns true, and then exactly the other queues
  -- exist that did.
  pub exists-delete_queue :
      (name other : String) (app : App env) (values : List String)
      → let config = riak.fetch_map (config_bucket app) queue_config_name app.server in
        riak.fetch_set config.0 queue_set_name ≡ some values
        → (riak.store_map (riak.remove_from_set config.0 queue_set_name name) app.server).0.1 ≡ none
        → ((delete_queue env name app).0 ≡ ok true)
          × ((exists env other (delete_queue env name app).1).0
              ≡ ok (not (str_eq name other) && listed other values))
  unfolding delete_queue remove_queue exists
  exists-delete_queue name other app values found stored = rw found (
    ap (λ t. ok (not t)) (gone name ∙ ap (λ t. not t && listed name values) (eq_refl name)),
    ap ok (gone other),
  )
    where
      config : riak.RMap × Option String
      config = riak.fetch_map (config_bucket app) queue_config_name app.server

      removed : riak.Server
      removed = (riak.store_map (riak.remove_from_set config.0 queue_set_name name) app.server).1

      destroyed : riak.Server
      destroyed =
          (riak.destroy_map
            (riak.fetch_map (config_bucket app) (queue_config_record_name name) removed).0
            removed).1

      gone :
          (wanted : String)
          → is_known wanted (record app { server = destroyed })
            ≡ (not (str_eq name wanted) && listed wanted values)
      gone wanted =
          is_known-same wanted app (record app { server = destroyed })
            (stores.bucket_left _ _ _ _ ∙ stores.bucket_kept _ _ _ _)
          ∙ ap (λ m. listed wanted (values_of (riak.fetch_set m.0 queue_set_name)))
              (stores.others_left (config_bucket app) (queue_config_record_name name)
                queue_config_name removed (record_name-differs name))
          ∙ stores.member_removed (config_bucket app) queue_config_name queue_set_name name wanted
              app.server stored
          ∙ ap (λ v. not (str_eq name wanted) && listed wanted (values_of v)) found
