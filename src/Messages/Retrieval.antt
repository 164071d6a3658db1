-- ===== src/Messages/Retrieval.antt =====
-- `RetrieveMessages` of app/queue.go where no read repair is needed.
use dynamiq.Prelude.{
  ◌≡◌, refl, ap, Option, List, [], ◌∷◌, ◌++◌, take, drop, take-drop, All, All-take, All-drop,
  All-append, sym, ◌∙◌, false, map, String, Bool, if◌then◌else◌, Bool-cases, inl, inr, Option-cases,
}
use mathlib.Core.List.{append-nil, append_assoc}
use dynamiq.Prelude.Effects.{Outcome, ok, ok-injective}
use dynamiq.Riak.{Bytes}
use dynamiq.App.{Env, App, draw_id}
use dynamiq.Strconv.{NumError}
use dynamiq.Settings.{get_compressed_messages}
use dynamiq.Settings.Kept.{Agree, get_compressed_messages-Agree}
use dynamiq.Messages.{
  put, repair, collect, retrieve_messages, fetch_object, fetch_each, Arrivals, has_data,
}
use dynamiq.Messages.RoundTrip.{message_id, put-after_put}

module _ (env : Env) where
  open env use {riak}

  -- That a method returns, with what it answers.
  abbrev pub Returns : {A : Type 0} → Outcome A → Type 0
  Returns {A} r = (a : A) × (r ≡ ok a)

  pub reads_compressed :
      (name : String) (app : App env) → Agree env (get_compressed_messages env name) app app
  reads_compressed name app =
      get_compressed_messages-Agree env name app app
        (record { same_queues = refl; same_bucket = refl; same_maps = λ b key. refl })

  pub put-Returns :
      (name : String) (message : Bytes) (app : App env) → Returns (put env name message app).0
  unfolding put draw_id
  put-Returns name message app =
      elim (Option-cases (riak.new_bucket_type "messages" name app.server).1) [
        | inr (text, e) ↦ ("", rw e refl)
        | inl e ↦
            let read = reads_compressed name app in
            (
              message_id env name message app,
              ap (λ r. r.0) (put-after_put env name message app read.answer.0 e read.before),
            )
      ]

  -- `Put` leaves the queues and the topics in memory as they are.
  pub put-kept :
      (name : String) (message : Bytes) (app : App env)
      → ((put env name message app).1.queues ≡ app.queues)
        × ((put env name message app).1.topics ≡ app.topics)
  unfolding put
  put-kept name message app =
      elim (Option-cases (riak.new_bucket_type "messages" name app.server).1) [
        | inr (text, e) ↦ (rw e refl, rw e refl)
        | inl e ↦
            let read = reads_compressed name app in
            let ran =
              ap (λ r. r.1) (put-after_put env name message app read.answer.0 e read.before) in
            (ap (λ a. a.queues) ran, ap (λ a. a.topics) ran)
      ]

  -- The objects that have data.
  abbrev pub with_data : List riak.RObject → List riak.RObject
  with_data [] = []
  with_data (object ∷ rest) =
      let others = with_data rest in
      if has_data env (riak.object_body object) then object ∷ others else others

  with_data-append :
      (xs ys : List riak.RObject) → with_data (xs ++ ys) ≡ with_data xs ++ with_data ys
  with_data-append [] ys = refl
  with_data-append (x ∷ xs) ys = elim (Bool-cases (has_data env (riak.object_body x))) [
    | inl e ↦ rw e (ap (λ l. x ∷ l) (with_data-append xs ys))
    | inr e ↦ rw e (with_data-append xs ys)
  ]

  -- Only one message was stored under the key of an object.
  abbrev pub IsSingle : riak.RObject → Type 0
  IsSingle object = riak.conflict object ≡ false

  collect-with_data :
      (name : String) (objects : List riak.RObject) (app : App env)
      → All IsSingle objects
      → collect env name objects app ≡ (ok (with_data objects), app)
  unfolding collect repair
  collect-with_data name [] app h = refl
  collect-with_data name (object ∷ rest) app h = rw (h.0, collect-with_data name rest app h.1) refl

  -- The identifiers, in the order in which their objects are read.
  abbrev pub read_order : Arrivals → List String
  read_order [] = []
  read_order ((key, _) ∷ rest) = key ∷ read_order rest

  module _ (name : String) (bucket : riak.Bucket) (compressed : Bool) (app : App env) where
    -- What the goroutines read in one state of the cluster.
    abbrev pub fetched : List String → List riak.RObject
    fetched ids = map (λ id. fetch_object env bucket compressed id app.server) ids

    fetch_each-with_data :
        (arrival : Arrivals) (come : List riak.RObject)
        → All IsSingle come
        → All IsSingle (fetched (read_order arrival))
        → fetch_each env name bucket compressed arrival come app
          ≡ (ok (with_data (come ++ fetched (read_order arrival))), app)
    unfolding fetch_each
    fetch_each-with_data [] come h single =
        collect-with_data name come app h
        ∙ ap (λ l. (ok (with_data l), app)) (sym (append-nil come))
    fetch_each-with_data ((key, taken) ∷ rest) come h single =
        let object = fetch_object env bucket compressed key app.server in
        let left = drop taken come ++ (object ∷ []) in
        let early = collect-with_data name (take taken come) app (All-take IsSingle taken come h) in
        let late =
          fetch_each-with_data rest left
            (All-append IsSingle (drop taken come) (object ∷ []) (All-drop IsSingle taken come h)
              (single.0, tt))
            single.1 in
        rw (early, late)
          (ap (λ l. (ok l, app))
            (sym (with_data-append (take taken come) (left ++ fetched (read_order rest)))
              ∙ ap with_data (
                  ap (λ l. take taken come ++ l)
                    (append_assoc (drop taken come) (object ∷ []) (fetched (read_order rest)))
                  ∙ sym (
                      append_assoc (take taken come) (drop taken come)
                        (object ∷ fetched (read_order rest)))
                  ∙ ap (λ l. l ++ (object ∷ fetched (read_order rest))) (take-drop taken come))))

  -- Where no object that is read has conflicts, `RetrieveMessages` changes nothing, and returns those
  -- that have data, in whatever way the goroutines run.
  pub retrieve_messages-fetched :
      (name : String) (arrival : Arrivals) (app : App env) (compressed : Bool) (e : Option NumError)
      → let bucket = (riak.new_bucket_type "messages" name app.server).0 in
        (get_compressed_messages env name app).0 ≡ ok (compressed, e)
        → All IsSingle (fetched name bucket compressed app (read_order arrival))
        → retrieve_messages env name arrival app
          ≡ (ok (with_data (fetched name bucket compressed app (read_order arrival))), app)
  unfolding retrieve_messages
  retrieve_messages-fetched name arrival app compressed e reads single =
      let read = reads_compressed name app in
      let bucket = (riak.new_bucket_type "messages" name app.server).0 in
      let answer : read.answer ≡ (compressed, e) = ok-injective (rw read.before at reads) in
      rw (read.before, answer)
        (fetch_each-with_data name bucket compressed app arrival [] tt single)
