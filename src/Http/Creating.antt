-- ===== src/Http/Creating.antt =====
-- The handler that creates a queue (app/httpinterface_v1.go).
use dynamiq.Prelude.{
  ℕ, ◌<◌, ◌≡◌, refl, sym, ap, ◌∙◌, Option, none, some, List, [], ◌∷◌, String, Bool, true, false,
  inl, inr,
}
use dynamiq.Prelude.Int.{ℤ, pos}
use dynamiq.Prelude.Int64.{half64}
use dynamiq.Prelude.Effects.{ok-injective, ok}
use dynamiq.App.{Env, App, Queue, find_queue, present, present-lookup}
use dynamiq.Strconv.{NumError}
use dynamiq.Settings.{get_min_partitions}
use dynamiq.Registry.{
  create_config_for_queue, initialize_queue, finish_queue, add_to_known_queues, change_known_queues,
}
use dynamiq.Registry.Created.{IsNew, made_known, initialize_queue-IsNew}
use dynamiq.Topics.{queue_in, queue_present}
use dynamiq.Http.Response.{json, plain_text, error}
use dynamiq.Http.Handlers.{handle_put_queue}
use text.Mathlib.TextPositions.{eq_refl}

module _ (env : Env) where
  open env use {riak}

  pub queue_present-queues :
      (name : String) (there : Bool) (app : App env) (queues : List (String × Queue env))
      → app.queues ≡ some queues
      → present name queues ≡ there
      → queue_present env name app ≡ (ok there, app)
  unfolding queue_present
  queue_present-queues name there app queues e p =
      ap (λ o. queue_in env o name app) e ∙ ap (λ b. (ok b, app)) p

  -- A queue that is found is there.
  pub queue_present-found :
      (name : String) (queue : Queue env) (app : App env)
      → find_queue env name app ≡ some queue
      → queue_present env name app ≡ (ok true, app)
  unfolding find_queue
  queue_present-found name queue app found = by_queues app.queues refl
    where
      by_queues :
          (o : Option (List (String × Queue env)))
          → o ≡ app.queues
          → queue_present env name app ≡ (ok true, app)
      by_queues none e = let contra = rw (sym e) at found in cc
      by_queues (some queues) e = elim (present-lookup name queues) [
        | inl (missing, _) ↦ let contra = rw (sym e, missing) at found in cc
        | inr (_, _, p) ↦ queue_present-queues name true app queues (sym e) p
      ]

  pub put_present :
      (random : ℤ → ℤ) (queue : String) (app : App env)
      → queue_present env queue app ≡ (ok true, app)
      → handle_put_queue env random queue app
        ≡ (ok (json 422 (error "Queue already exists.") ∷ []), app)
  unfolding handle_put_queue
  put_present random queue app e = rw e refl

  -- Whatever `InitializeQueue` returns, the answer is the same.
  put_missing :
      (random : ℤ → ℤ) (queue : String) (app : App env) (known : Option String)
      → queue_present env queue app ≡ (ok false, app)
      → (initialize_queue env random queue app).0 ≡ ok known
      → handle_put_queue env random queue app
        ≡ (ok (json 201 (plain_text "created") ∷ []), (initialize_queue env random queue app).1)
  unfolding handle_put_queue
  put_missing random queue app known e r = rw (e, r) refl

  module _ (random : ℤ → ℤ) (queue : String) (app : App env) (queues : List (String × Queue env))
      (there : app.queues ≡ some queues) (absent : present queue queues ≡ false) where
    -- For a queue that is not in memory beside queues that are, where its settings are stored and
    -- `m` partitions are then configured, fewer than 2^63, a PUT of the queue answers 201, the
    -- queue is then in memory with the partitions 0 to m - 1, all of which wait, and a second PUT
    -- answers 422 and changes nothing.
    pub handle_put_queue-twice :
        (config : riak.RMap) (m : ℕ) (e : Option NumError)
        → (create_config_for_queue env queue app).0 ≡ ok (config, none)
        → (get_min_partitions env queue (made_known env random queue app)).0 ≡ ok (pos m, e)
        → m < half64
        → let (r, app') = handle_put_queue env random queue app in
          (r ≡ ok (json 201 (plain_text "created") ∷ []))
          × (handle_put_queue env random queue app'
              ≡ (ok (json 422 (error "Queue already exists.") ∷ []), app'))
          × (q : Queue env) × IsNew env m q
          × (find_queue env queue app' ≡ some q)
    unfolding add_to_known_queues change_known_queues
    handle_put_queue-twice config m e created configured fits =
        let (q, is_new, made, found) =
          initialize_queue-IsNew env random queue app queues config m e queue there created
            configured fits in
        let missing = queue_present-queues queue false app queues there absent in
        let after = (initialize_queue env random queue app).1 in
        let here : find_queue env queue after ≡ some q = found ∙ (rw (eq_refl queue) refl) in
        let ran = put_missing random queue app _ missing made in
        rw ran (
          refl,
          put_present random queue after (queue_present-found queue q after here),
          q,
          is_new,
          here,
        )

    refused :
        (config : riak.RMap) (e : String)
        → (create_config_for_queue env queue app).0 ≡ ok (config, some e)
        → let (r, app') = initialize_queue env random queue app in
          (r ≡ ok (some e)) × (find_queue env queue app' ≡ none)
    unfolding initialize_queue finish_queue create_config_for_queue find_queue
    refused config e created = elim (present-lookup queue queues) [
      | inl (missing, _) ↦
          (rw (ok-injective created) refl, rw (ok-injective created, there) missing)
      | inr (_, _, p) ↦ let contra = sym absent ∙ p in cc
    ]

    -- For a queue that is not in memory beside queues that are, where its settings are not stored,
    -- a PUT of the queue still answers that it was created, and it is not in memory.
    pub handle_put_queue-refused :
        (config : riak.RMap) (e : String)
        → (create_config_for_queue env queue app).0 ≡ ok (config, some e)
        → let (r, app') = handle_put_queue env random queue app in
          (r ≡ ok (json 201 (plain_text "created") ∷ [])) × (find_queue env queue app' ≡ none)
    handle_put_queue-refused config e created =
        let missing = queue_present-queues queue false app queues there absent in
        let ran = put_missing random queue app (some e) missing (refused config e created).0 in
        rw ran (refl, (refused config e created).1)
