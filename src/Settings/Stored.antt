-- ===== src/Settings/Stored.antt =====
-- Reading a setting of a queue after a setting was written (app/config.go).
use dynamiq.Prelude.{
  Option, none, some, String, false, str_eq, ◌≡◌, ◌≢◌, refl, ◌∙◌, arith, Bool-cases, inl, inr,
  eq_iff,
}
use dynamiq.Prelude.Int.{ℤ, pos, negsuc, ◌≤ℤ◌}
use dynamiq.Prelude.Int64.{max_int64}
use dynamiq.Prelude.Effects.{ok-injective, ok}
use text.Mathlib.TextPositions.{eq_refl}
use dynamiq.Riak.{StoresMaps}
use dynamiq.App.{Env, App, Queue, find_queue}
use dynamiq.Strconv.{itoa, atoi-itoa}
use dynamiq.Settings.{
  cached_setting, read_setting, get_queue_setting, set_queue_setting, store_setting, is_not_found,
  get_min_partitions, set_min_partitions, min_partitions, configuration_bucket,
  queue_config_record_name, register_value_to_string,
}

module _ (env : Env) where
  pub not_found-false :
      {err : Option String} → is_not_found env err ≡ false → err ≢ some env.riak.not_found
  unfolding is_not_found
  not_found-false {err} h e = let same = eq_refl env.riak.not_found in cc (same, rw e at h)

  not_found-true :
      {err : Option String} → err ≢ some env.riak.not_found → is_not_found env err ≡ false
  unfolding is_not_found
  not_found-true {err = none} h = refl
  not_found-true {err = some e} h = ground (arith, eq_iff e env.riak.not_found)

  pub find_queue-queues :
      (name : String) (a b : App env)
      → a.queues ≡ b.queues
      → find_queue env name a ≡ find_queue env name b
  unfolding find_queue
  find_queue-queues name a b e = rw e

  cached_setting-none :
      (param queue : String) (app : App env)
      → find_queue env queue app ≡ none
      → cached_setting env param queue app ≡ ("", none)
  unfolding cached_setting
  cached_setting-none param queue app e = rw (cached_setting, e)

  cached_setting-some :
      (param queue value : String) (app : App env) (q : Queue env)
      → find_queue env queue app ≡ some q
      → env.riak.fetch_register q.config param ≡ some value
      → cached_setting env param queue app ≡ (value, none)
  unfolding cached_setting register_value_to_string
  cached_setting-some param queue value app q e f = rw (cached_setting, e, f)

  get_queue_setting-uncached :
      (param queue : String) (app : App env)
      → find_queue env queue app ≡ none
      → get_queue_setting env param queue app ≡ read_setting env param queue app
  unfolding get_queue_setting
  get_queue_setting-uncached param queue app e = rw (cached_setting-none param queue app e)

  get_queue_setting-cached :
      (param queue value : String) (app : App env) (q : Queue env)
      → find_queue env queue app ≡ some q
      → env.riak.fetch_register q.config param ≡ some value
      → str_eq value "" ≡ false
      → get_queue_setting env param queue app ≡ (ok (value, none), app)
  unfolding get_queue_setting
  get_queue_setting-cached param queue value app q e f g =
      rw (cached_setting-some param queue value app q e f, g)

  -- A write that succeeded found the queue's record.
  pub store_setting-ok :
      (param value : String) (obj : env.riak.RMap) (err : Option String) (app : App env)
      → (store_setting env param value obj err app).0 ≡ ok none
      → let (r, server) = env.riak.store_map (env.riak.set_register obj param value) app.server in
        (is_not_found env err ≡ false)
        × (r.1 ≡ none)
        × ((store_setting env param value obj err app).1 ≡ record app { server = server })
  unfolding store_setting is_not_found
  store_setting-ok param value obj none app h = (refl, ok-injective h, refl)
  store_setting-ok param value obj (some e) app h = elim (Bool-cases (is_not_found env (some e))) [
    | inl missing ↦ let stopped = rw missing at h in cc (ok-injective stopped)
    | inr found ↦ (found, ok-injective (rw found at h), rw found)
  ]

  queues-store_setting :
      (param value : String) (obj : env.riak.RMap) (err : Option String) (app : App env)
      → (store_setting env param value obj err app).1.queues ≡ app.queues
  unfolding store_setting
  queues-store_setting param value obj err app = elim (Bool-cases (is_not_found env err)) [
    | inl e ↦ rw e
    | inr e ↦ rw e
  ]

  -- A write changes the state of Riak only.
  queues-set_queue_setting :
      (param queue value : String) (app : App env)
      → (set_queue_setting env param queue value app).1.queues ≡ app.queues
  unfolding set_queue_setting
  queues-set_queue_setting param queue value app = queues-store_setting param value _ _ app

  -- What was written successfully is what Riak then answers, in the state that the write left.
  read_setting-set :
      StoresMaps env.riak
      → (param queue value : String) (app : App env)
      → (set_queue_setting env param queue value app).0 ≡ ok none
      → read_setting env param queue (set_queue_setting env param queue value app).1
        ≡ (ok (value, none), (set_queue_setting env param queue value app).1)
  unfolding set_queue_setting read_setting register_value_to_string
  read_setting-set stores param queue value app h =
      let bucket = env.riak.new_bucket_type "maps" configuration_bucket app.server in
      let key = queue_config_record_name queue in
      let obj = env.riak.fetch_map bucket.0 key app.server in
      let changed = env.riak.set_register obj.0 param value in
      let (found, stored, after) = store_setting-ok param value obj.0 obj.1 app h in
      let there = stores.map_found bucket.0 key changed app.server (not_found-false found) in
      let read = stores.register_stored bucket.0 key param value param app.server stored in
      simp (
        after,
        stores.bucket_kept "maps" configuration_bucket changed app.server,
        not_found-true there,
        read,
        eq_refl,
      )

  -- Where the queue is not in memory, the cluster stores maps as documented and the write succeeds,
  -- `GetMinPartitions` then returns the number that `SetMinPartitions` was given, for every 64-bit
  -- `int`.
  pub get-set_min_partitions :
      StoresMaps env.riak
      → (queue : String) (count : ℤ) (app : App env) → negsuc max_int64 ≤ℤ count
      → count ≤ℤ pos max_int64
      → find_queue env queue app ≡ none
      → (set_min_partitions env queue count app).0 ≡ ok none
      → (get_min_partitions env queue (set_min_partitions env queue count app).1).0
        ≡ ok (count, none)
  unfolding get_min_partitions set_min_partitions
  get-set_min_partitions stores queue count app low high absent h =
      let app' = (set_queue_setting env min_partitions queue (itoa count) app).1 in
      let kept = queues-set_queue_setting min_partitions queue (itoa count) app in
      let still = find_queue-queues queue app' app kept ∙ absent in
      simp (
        get_queue_setting-uncached min_partitions queue app' still,
        read_setting-set stores min_partitions queue (itoa count) app h,
        atoi-itoa count low high,
      )

  -- Where the queue is in memory with a value for the setting that is not empty, no write of a
  -- setting changes what is read, whether it succeeds or not: the value in memory is answered
  -- before and after.
  pub get_queue_setting-stale :
      (param queue value written_param written_queue written : String) (app : App env)
      (q : Queue env)
      → find_queue env queue app ≡ some q
      → env.riak.fetch_register q.config param ≡ some value
      → str_eq value "" ≡ false
      → let app' = (set_queue_setting env written_param written_queue written app).1 in
        (get_queue_setting env param queue app ≡ (ok (value, none), app))
        × (get_queue_setting env param queue app' ≡ (ok (value, none), app'))
  get_queue_setting-stale param queue value param' queue' written app q e f g =
      let app' = (set_queue_setting env param' queue' written app).1 in
      let kept = queues-set_queue_setting param' queue' written app in
      (
        get_queue_setting-cached param queue value app q e f g,
        get_queue_setting-cached param queue value app' q
            (find_queue-queues queue app' app kept ∙ e) f g,
      )
