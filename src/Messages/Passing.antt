-- ===== src/Messages/Passing.antt =====
-- The methods of app/queue.go that leave the queues in memory as they are: `Put`,
-- `RetrieveMessages` with its read repair, and the statistics.
use dynamiq.Prelude.{
  ◌≡◌, refl, ap, ◌∙◌, Option, none, List, [], ◌∷◌, ◌++◌, take, drop, Bool, String, if◌then◌else◌,
  Bool-cases, Option-cases, inl, inr,
}
use dynamiq.Prelude.Int.{ℤ}
use dynamiq.Prelude.Effects.{Outcome, ok}
use dynamiq.Riak.{Bytes}
use dynamiq.Stats.{Client, StatsdCall}
use dynamiq.App.{Env, App, record_call}
use dynamiq.Settings.Kept.{get_compressed_messages-Agree}
use dynamiq.Messages.{
  put, put_siblings, repair, collect, retrieve_messages, fetch_object, fetch_each, Arrivals,
  has_data,
}
use dynamiq.Messages.Retrieval.{put-Returns, put-kept}

module _ (env : Env) where
  open env use {riak}

  -- A method that returns and leaves the queues in memory.
  pub record Passes {A : Type 0} (app : App env) (r : Outcome A × App env) : Type 0 where
    pub answer : A
    pub after : App env
    pub done : r ≡ (ok answer, after)
    pub kept : after.queues ≡ app.queues

  put-Passes :
      (name : String) (message : Bytes) (app : App env) → Passes app (put env name message app)
  put-Passes name message app =
      let (id, e) = put-Returns env name message app in
      record {
        answer = id;
        after = (put env name message app).1;
        done = ap (λ o. (o, (put env name message app).1)) e;
        kept = (put-kept env name message app).0;
      }

  put_siblings-Passes :
      (name : String) (siblings : List Bytes) (app : App env)
      → Passes app (put_siblings env name siblings app)
  unfolding put_siblings
  put_siblings-Passes name [] app = record { answer = tt; after = app; done = refl; kept = refl }
  put_siblings-Passes name ([] ∷ rest) app = put_siblings-Passes name rest app
  put_siblings-Passes name ((b ∷ bytes) ∷ rest) app =
      let one = put-Passes name (b ∷ bytes) app in
      let others = put_siblings-Passes name rest one.after in
      record {
        answer = tt;
        after = others.after;
        done = rw one.done others.done;
        kept = others.kept ∙ one.kept;
      }

  repair-Passes :
      (name : String) (object : riak.RObject) (app : App env)
      → Passes app (repair env name object app)
  unfolding repair
  repair-Passes name object app = elim (Bool-cases (riak.conflict object)) [
    | inl e ↦
        let puts = put_siblings-Passes name (riak.siblings object) app in
        record {
          answer = tt;
          after = record puts.after { server = (riak.destroy_object object puts.after.server).1 };
          done = rw (e, puts.done) refl;
          kept = puts.kept;
        }
    | inr e ↦ record { answer = tt; after = app; done = rw e refl; kept = refl }
  ]

  collect-Passes :
      (name : String) (objects : List riak.RObject) (app : App env)
      → Passes app (collect env name objects app)
  unfolding collect
  collect-Passes name [] app = record { answer = []; after = app; done = refl; kept = refl }
  collect-Passes name (object ∷ rest) app =
      let one = repair-Passes name object app in
      let others = collect-Passes name rest one.after in
      record {
        answer =
            if has_data env (riak.object_body object)
            then object ∷ others.answer
            else others.answer;
        after = others.after;
        done = rw (one.done, others.done) refl;
        kept = others.kept ∙ one.kept;
      }

  fetch_each-Passes :
      (name : String) (bucket : riak.Bucket) (compressed : Bool) (arrival : Arrivals)
      (come : List riak.RObject) (app : App env)
      → Passes app (fetch_each env name bucket compressed arrival come app)
  unfolding fetch_each
  fetch_each-Passes name bucket compressed [] come app = collect-Passes name come app
  fetch_each-Passes name bucket compressed ((key, taken) ∷ rest) come app =
      let early = collect-Passes name (take taken come) app in
      let object = fetch_object env bucket compressed key early.after.server in
      let late =
        fetch_each-Passes name bucket compressed rest (drop taken come ++ (object ∷ []))
          early.after in
      record {
        answer = early.answer ++ late.answer;
        after = late.after;
        done = rw (early.done, late.done) refl;
        kept = late.kept ∙ early.kept;
      }

  pub retrieve_messages-Passes :
      (name : String) (arrival : Arrivals) (app : App env)
      → Passes app (retrieve_messages env name arrival app)
  unfolding retrieve_messages
  retrieve_messages-Passes name arrival app =
      let read =
        get_compressed_messages-Agree env name app app
          (record { same_queues = refl; same_bucket = refl; same_maps = λ b key. refl }) in
      let bucket = (riak.new_bucket_type "messages" name app.server).0 in
      let found = fetch_each-Passes name bucket read.answer.0 arrival [] app in
      record {
        answer = found.answer;
        after = found.after;
        done = rw read.before found.done;
        kept = found.kept;
      }

  pub record_call-Passes :
      (method : Client → String → ℤ → Option StatsdCall) (key : String) (value : ℤ) (app : App env)
      → Passes app (record_call env method key value app)
  unfolding record_call
  record_call-Passes method key value app = elim (Option-cases (method app.stats key value)) [
    | inl e ↦ record { answer = none; after = app; done = rw e refl; kept = refl }
    | inr (call, e) ↦ record {
      answer = env.statsd_answer call;
      after = record app { calls = call ∷ app.calls };
      done = rw e refl;
      kept = refl;
    }
  ]
