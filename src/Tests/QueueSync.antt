-- ===== src/Tests/QueueSync.antt =====
-- A run of the synchronisation of all queues (app/queue.go).
use dynamiq.Prelude.{◌≡◌, refl, some, List, [], ◌∷◌, String}
use dynamiq.Prelude.Int.{pos}
use dynamiq.App.{App, Queue, present}
use dynamiq.Registry.{listed}
use dynamiq.Topics.{skips}
use dynamiq.QueueSync.{sync_queues}
use dynamiq.QueueSync.Exact.{sync_queues-listed}
use dynamiq.Tests.World.{draw, noon}
use dynamiq.Tests.Sets.{set_env}
use dynamiq.Tests.Topics.{with_news, one_topic, jobs_queue}

-- A queue that is not known is in memory, and no topic lists it.
abbrev two_queues : List (String × Queue set_env)
two_queues = ("old", record jobs_queue { name = "old" }) ∷ ("jobs", jobs_queue) ∷ []

abbrev with_old : App set_env
with_old = record with_news { queues = some two_queues }

sync_queues-listed_example :
    let (_, app') = sync_queues set_env 1 (pos noon) draw with_old in
    (after : List (String × Queue set_env)) × (app'.queues ≡ some after)
    × ((name : String) → present name after ≡ listed name ("jobs" ∷ "mail" ∷ []))
unfolding skips
sync_queues-listed_example =
    sync_queues-listed set_env 1 (pos noon) draw with_old two_queues one_topic "jobs" ("mail" ∷ [])
      (λ queue unlisted. (unlisted, tt)) refl refl (refl, refl, refl)
