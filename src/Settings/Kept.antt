-- ===== src/Settings/Kept.antt =====
-- Reading a setting of a queue in two states of the program that agree on what it is read from
-- (app/config.go).
use dynamiq.Prelude.{◌≡◌, refl, Option, String, str_eq, Bool-cases, inl, inr}
use dynamiq.Prelude.Effects.{Outcome, ok}
use dynamiq.App.{Env, App, find_queue}
use dynamiq.Strconv.{parse_bool}
use dynamiq.Settings.{
  cached_setting, read_setting, get_queue_setting, is_some, get_compressed_messages,
  configuration_bucket, compressed_messages,
}

module _ (env : Env) where
  open env use {riak}

  -- The states agree on all that a setting is read from.
  pub record SameSettings (app app' : App env) : Type 0 where
    pub same_queues : app'.queues ≡ app.queues
    pub same_bucket :
        riak.new_bucket_type "maps" configuration_bucket app'.server
        ≡ riak.new_bucket_type "maps" configuration_bucket app.server
    pub same_maps :
        (b : riak.Bucket) (key : String)
        → riak.fetch_map b key app'.server ≡ riak.fetch_map b key app.server

  -- What a method that only reads answers in two states.
  pub record Agree {A : Type 0} (method : App env → Outcome A × App env) (app app' : App env)
      : Type 0 where
    pub answer : A
    pub before : method app ≡ (ok answer, app)
    pub after : method app' ≡ (ok answer, app')

  read_setting-Agree :
      (param queue : String) (app app' : App env)
      → SameSettings app app'
      → Agree (read_setting env param queue) app app'
  unfolding read_setting
  read_setting-Agree param queue app app' same = record {
    answer = _;
    before = refl;
    after = rw (same.same_bucket, same.same_maps) refl;
  }

  pub get_queue_setting-Agree :
      (param queue : String) (app app' : App env)
      → SameSettings app app'
      → Agree (get_queue_setting env param queue) app app'
  unfolding get_queue_setting
  get_queue_setting-Agree param queue app app' same = go (cached_setting env param queue app) refl
    where
      cached : cached_setting env param queue app' ≡ cached_setting env param queue app
      cached = unfold cached_setting find_queue in rw same.same_queues refl

      go :
          (c : String × Option String)
          → cached_setting env param queue app ≡ c
          → Agree (get_queue_setting env param queue) app app'
      go (value, err) e = elim (Bool-cases (is_some env err)) [
        | inl f ↦ record {
          answer = (value, err);
          before = rw (e, f) refl;
          after = rw (cached, e, f) refl;
        }
        | inr f ↦ elim (Bool-cases (str_eq value "")) [
          | inl g ↦
              let read = read_setting-Agree param queue app app' same in
              record {
                answer = read.answer;
                before = rw (e, f, g) read.before;
                after = rw (cached, e, f, g) read.after;
              }
          | inr g ↦ record {
            answer = (value, err);
            before = rw (e, f, g) refl;
            after = rw (cached, e, f, g) refl;
          }
        ]
      ]

  pub get_compressed_messages-Agree :
      (queue : String) (app app' : App env)
      → SameSettings app app'
      → Agree (get_compressed_messages env queue) app app'
  unfolding get_compressed_messages
  get_compressed_messages-Agree queue app app' same =
      let read = get_queue_setting-Agree compressed_messages queue app app' same in
      record {
        answer = parse_bool read.answer.0;
        before = rw read.before refl;
        after = rw read.after refl;
      }
