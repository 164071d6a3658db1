-- ===== src/Messages/Deletion.antt =====
-- `BatchDelete` of app/queue.go: which messages are deleted, and what is counted.
use dynamiq.Prelude.{
  ℕ, suc, ◌+◌, ◌<◌, ◌≡◌, refl, ap, ◌∙◌, Option, none, some, List, [], ◌∷◌, ◌++◌, String, length,
  arith, Option-cases, inl, inr,
}
use dynamiq.Prelude.Int.{ℤ, pos}
use dynamiq.Prelude.Int64.{half64, sub64, add64-pos, sub64-pos}
use dynamiq.Prelude.Effects.{Outcome, ok}
use dynamiq.Stats.{
  Client, StatsdCall, incr, gauge_delta, client_incr, client_decr_gauge, statsd, noop,
}
use dynamiq.App.{Env, App, record_call}
use dynamiq.Counters.{decrement_message_count, stats_key, deleted_suffix, depth_suffix}
use dynamiq.Messages.{batch_delete, delete_all}

sum_zero : (n : ℕ) → n + 0 ≡ n
sum_zero n = omega arith

zero_sum : (n : ℕ) → 0 + n ≡ n
zero_sum n = omega arith

sum_suc : (n k : ℕ) → n + suc k ≡ n + 1 + k
sum_suc n k = omega arith

module _ (env : Env) where
  open env use {riak}

  -- The cluster deletes the messages one after the other: how many of them, how many deletions
  -- fail, and the state at the end.
  pub data Deletes (bucket : riak.Bucket)
      : riak.Server → List String → ℕ → ℕ → riak.Server → Type 0 where
    none_left : (s : riak.Server) → Deletes bucket s [] 0 0 s
    gone :
        {s s' : riak.Server} {ids : List String} {deleted failed : ℕ} (id : String)
        → (riak.delete_object bucket id s).0 ≡ none
        → Deletes bucket (riak.delete_object bucket id s).1 ids deleted failed s'
        → Deletes bucket s (id ∷ ids) (suc deleted) failed s'
    kept :
        {s s' : riak.Server} {ids : List String} {deleted failed : ℕ} (id e : String)
        → (riak.delete_object bucket id s).0 ≡ some e
        → Deletes bucket (riak.delete_object bucket id s).1 ids deleted failed s'
        → Deletes bucket s (id ∷ ids) deleted (suc failed) s'

  length-Deletes :
      {bucket : riak.Bucket} {s s' : riak.Server} {ids : List String} {deleted failed : ℕ}
      → Deletes bucket s ids deleted failed s'
      → deleted + failed ≡ length ids
  length-Deletes (none_left s) = refl
  length-Deletes (gone id e rest) = omega (arith, length-Deletes rest)
  length-Deletes (kept id e' e rest) = omega (arith, length-Deletes rest)

  -- What the loop does: it goes through all messages, and counts the failures.
  record LoopDeletes (bucket : riak.Bucket) (ids : List String) (errors : ℕ) (app : App env)
      (r : Outcome (ℤ × Option String) × App env) : Type 0 where
    deleted : ℕ
    failed : ℕ
    last : Option String
    server : riak.Server
    steps : Deletes bucket app.server ids deleted failed server
    result : r ≡ (ok (pos (errors + failed), last), record app { server = server })

  delete_all-LoopDeletes :
      (bucket : riak.Bucket) (ids : List String) (errors : ℕ) (err : Option String) (app : App env)
      → errors + length ids < half64
      → LoopDeletes bucket ids errors app (delete_all env bucket ids (pos errors) err app)
  unfolding delete_all
  delete_all-LoopDeletes bucket [] errors err app fits = record {
    deleted = 0;
    failed = 0;
    last = err;
    server = app.server;
    steps = none_left app.server;
    result = rw (sum_zero errors) refl;
  }
  delete_all-LoopDeletes bucket (id ∷ ids) errors err app fits =
      let (answer, server) = riak.delete_object bucket id app.server in
      elim (Option-cases answer) [
        | inl e ↦
            let rest =
              delete_all-LoopDeletes bucket ids errors none (record app { server = server })
                (omega arith) in
            record {
              deleted = suc rest.deleted;
              failed = rest.failed;
              last = rest.last;
              server = rest.server;
              steps = gone id e rest.steps;
              result = rw e rest.result;
            }
        | inr (text, e) ↦
            let rest =
              delete_all-LoopDeletes bucket ids (errors + 1) (some text)
                (record app { server = server }) (omega arith) in
            record {
              deleted = rest.deleted;
              failed = suc rest.failed;
              last = rest.last;
              server = rest.server;
              steps = kept id text e rest.steps;
              result =
                  rw (e, add64-pos errors 1 (omega arith), sum_suc errors rest.failed) rest.result;
            }
      ]

  -- The calls of the statistics client for deleted messages, the last one first.
  abbrev pub deletion_calls : Client → String → ℕ → List StatsdCall
  deletion_calls statsd name deleted =
      gauge_delta (stats_key name depth_suffix) (sub64 (pos 0) (pos deleted))
      ∷ incr (stats_key name deleted_suffix) (pos deleted)
      ∷ []
  deletion_calls noop name deleted = []

  counts-deletion :
      (name : String) (deleted : ℕ) (app : App env)
      → let (r, app') = decrement_message_count env name (pos deleted) app in
        (e : Option String) × (r ≡ ok e)
        × (app' ≡ record app { calls = deletion_calls app.stats name deleted ++ app.calls })
  unfolding decrement_message_count record_call client_incr client_decr_gauge
  counts-deletion name deleted app = counts app.stats
    where
      counts :
          (client : Client)
          → let (r, app') =
              decrement_message_count env name (pos deleted) (record app { stats = client }) in
            (e : Option String) × (r ≡ ok e)
            × (app' ≡ record app {
              stats = client;
              calls = deletion_calls client name deleted ++ app.calls;
            })
      counts statsd = (_, refl, refl)
      counts noop = (_, refl, refl)

  -- What `BatchDelete` does.
  pub data BatchDeletes (name : String) (ids : List String) (app : App env)
      (r : Outcome (ℤ × Option String) × App env) : Type 0 where
    -- Without a bucket nothing is deleted, and no failure is counted.
    no_bucket :
        (e : String)
        → (riak.new_bucket_type "messages" name app.server).1 ≡ some e
        → r ≡ (ok (pos 0, some e), app)
        → BatchDeletes name ids app r
    -- All the messages are tried, the failures are returned, and the others are counted.
    tried :
        (deleted failed : ℕ) (last : Option String) (server : riak.Server)
        → Deletes
            (riak.new_bucket_type "messages" name app.server).0
            app.server
            ids
            deleted
            failed
            server
        → deleted + failed ≡ length ids
        → r ≡ (
          ok (pos failed, last),
          record app {
            server = server;
            calls = deletion_calls app.stats name deleted ++ app.calls;
          },
        )
        → BatchDeletes name ids app r

  -- For fewer than 2^63 identifiers `BatchDelete` returns. Without a bucket it changes nothing and
  -- returns no failures and the error. With one it tries to delete every message, whatever happens
  -- to the others, returns how many deletions failed, and counts exactly the others as deleted in
  -- the statistics.
  pub batch_delete-BatchDeletes :
      (name : String) (ids : List String) (app : App env)
      → length ids < half64
      → BatchDeletes name ids app (batch_delete env name ids app)
  unfolding batch_delete
  batch_delete-BatchDeletes name ids app fits =
      elim (Option-cases (riak.new_bucket_type "messages" name app.server).1) [
        | inr (text, e) ↦ no_bucket text e (rw e refl)
        | inl e ↦
            let bucket = (riak.new_bucket_type "messages" name app.server).0 in
            let loop = delete_all-LoopDeletes bucket ids 0 none app (omega arith) in
            let total = length-Deletes loop.steps in
            let ran = rw (zero_sum loop.failed) at loop.result in
            let left : sub64 (pos (length ids)) (pos loop.failed) ≡ pos loop.deleted =
              sub64-pos (length ids) loop.failed (omega (arith, total)) fits
              ∙ ap pos (omega (arith, total)) in
            let counted = counts-deletion name loop.deleted (record app { server = loop.server }) in
            tried loop.deleted loop.failed loop.last loop.server loop.steps total (
              rw (e, ran, left, counted.1)
                (ap (λ a. (ok (pos loop.failed, loop.last), a)) counted.2))
      ]
