-- ===== src/Http/Removing.antt =====
-- The handler that deletes a list of messages (app/httpinterface_v1.go).
use dynamiq.Prelude.{
  ℕ, ◌-◌, ◌<◌, ◌≡◌, refl, ap, ◌∙◌, Option, some, List, [], ◌∷◌, String, true, length, arith,
}
use dynamiq.Prelude.Int.{ℤ, pos}
use dynamiq.Prelude.Int64.{half64, sub64, sub64-pos}
use dynamiq.Prelude.Effects.{Outcome, ok}
use dynamiq.App.{Env, App, Queue, present}
use dynamiq.Strings.{split_commas}
use dynamiq.Messages.{batch_delete}
use dynamiq.Messages.Deletion.{Deletes, batch_delete-BatchDeletes, no_bucket, tried}
use dynamiq.Topics.{queue_present}
use dynamiq.Http.Response.{Response, json, deleted_count}
use dynamiq.Http.Delivery.{handle_delete_messages}
use dynamiq.Http.Creating.{queue_present-queues}

minus_zero : (n : ℕ) → n - 0 ≡ n
minus_zero n = omega arith

module _ (env : Env) where
  open env use {riak}

  delete_there :
      (queue ids : String) (failed : ℤ) (err : Option String) (app after : App env)
      → queue_present env queue app ≡ (ok true, app)
      → batch_delete env queue (split_commas ids) app ≡ (ok (failed, err), after)
      → handle_delete_messages env queue ids app ≡ (
        ok (json 200 (deleted_count (sub64 (pos (length (split_commas ids))) failed)) ∷ []),
        after,
      )
  unfolding handle_delete_messages
  delete_there queue ids failed err app after there e = rw (there, e) refl

  -- What the handler reports, and what happened.
  pub data Reports (queue : String) (ids : List String) (app : App env)
      (r : Outcome (List (Response env)) × App env) : Type 0 where
    -- Without a bucket nothing is deleted, and everything is reported.
    nothing_deleted :
        (e : String)
        → (riak.new_bucket_type "messages" queue app.server).1 ≡ some e
        → r ≡ (ok (json 200 (deleted_count (pos (length ids))) ∷ []), app)
        → Reports queue ids app r
    -- All are tried, and the deletions that succeed are reported.
    counted :
        (deleted failed : ℕ)
        → Deletes env
            (riak.new_bucket_type "messages" queue app.server).0
            app.server
            ids
            deleted
            failed
            r.1.server
        → r.0 ≡ ok (json 200 (deleted_count (pos deleted)) ∷ [])
        → Reports queue ids app r

  -- For a queue in memory and fewer than 2^63 identifiers between the commas, the handler that
  -- deletes messages reports as deleted exactly the number of deletions that succeed, all having
  -- been tried, if there is a bucket; without one it deletes nothing, changes nothing and reports
  -- all of them as deleted.
  pub handle_delete_messages-Reports :
      (queue ids : String) (app : App env) (queues : List (String × Queue env))
      → app.queues ≡ some queues
      → present queue queues ≡ true
      → length (split_commas ids) < half64
      → Reports queue (split_commas ids) app (handle_delete_messages env queue ids app)
  handle_delete_messages-Reports queue ids app queues there known fits =
      let here = queue_present-queues env queue true app queues there known in
      let size = length (split_commas ids) in
      elim (batch_delete-BatchDeletes env queue (split_commas ids) app fits) [
        | no_bucket e missing ran ↦ nothing_deleted e missing (
            delete_there queue ids _ _ app _ here ran
            ∙ ap (λ n. (ok (json 200 (deleted_count n) ∷ []), app))
                (sub64-pos size 0 (omega arith) fits ∙ ap pos (minus_zero size)))
        | tried deleted failed last server steps total ran ↦
            let answered = delete_there queue ids _ _ app _ here ran in
            let left : sub64 (pos size) (pos failed) ≡ pos deleted =
              sub64-pos size failed (omega (arith, total)) fits ∙ ap pos (omega (arith, total)) in
            rw answered (counted deleted failed steps (rw left refl))
      ]
