-- ===== src/System.antt =====
-- A running node: the requests that it serves (app/httpinterface_v1.go), and the goroutines that
-- `scheduleSync` of app/queue.go and of app/topic.go starts, one event after the other, beside the
-- other nodes that write to the same cluster.
pub mod Keeps
pub mod Whole
pub mod Others
pub mod Unlocked
pub mod KeepsOk
pub mod Synced
pub mod Loaded
pub mod Requests
pub mod Serving
pub mod Starting
pub mod Invariant
use dynamiq.Prelude.{ℕ, ◌≡◌}
use dynamiq.Prelude.Int.{ℤ}
use dynamiq.Prelude.Effects.{ok}
use dynamiq.Clock.{Time}
use dynamiq.App.{Env, App}
use dynamiq.Topics.{sync_topics}
use dynamiq.QueueSync.{sync_queues}
use dynamiq.Http.Server.{Surroundings, Request, serve}

module _ (env : Env) where
  open env use {riak}

  -- A request may also panic: `martini.Recovery` takes that up, and the node runs on. A tick that
  -- panics ends the process, and one that does not return ends its goroutine's loop, so that only
  -- the ticks that return are steps. `syncKiller` is never made: no case of the loop's `select`
  -- but the tick is ever taken.
  pub data Step (app : App env) : App env → Type 0 where
    request : (around : Surroundings) (r : Request env) → Step app (serve env around r app).1
    queue_tick :
        (fuel : ℕ) (now : Time) (random : ℤ → ℤ)
        → (sync_queues env fuel now random app).0 ≡ ok tt
        → Step app (sync_queues env fuel now random app).1
    topic_tick : (sync_topics env app).0 ≡ ok tt → Step app (sync_topics env app).1
    -- what the other nodes write to the cluster
    elsewhere : (server : riak.Server) → Step app (record app { server = server })

  pub data Reach (start : App env) : App env → Type 0 where
    here : Reach start start
    next : {app app' : App env} → Reach start app → Step app app' → Reach start app'
