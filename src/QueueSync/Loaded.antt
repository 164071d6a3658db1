-- ===== src/QueueSync/Loaded.antt =====
-- `loadQueuesConfig` of app/config.go.
use dynamiq.Prelude.{◌≡◌, List, String, ◌||◌}
use dynamiq.Prelude.Int.{ℤ}
use dynamiq.Prelude.Effects.{Outcome, ok}
use dynamiq.App.{Env, App, Queue, present}
use dynamiq.Registry.{listed}

module _ (env : Env) (random : ℤ → ℤ) where
  open env use {riak}

  -- What the loop returns, from the queues that it has loaded before.
  record Loads (names : List String) (loaded : List (String × Queue env)) (app : App env)
      (r : Outcome (List (String × Queue env)) × App env) : Type 0 where
    queues : List (String × Queue env)
    done : r ≡ (ok queues, app)
    exact : (name : String) → present name queues ≡ (listed name names || present name loaded)
