-- ===== src/System/Invariant.antt =====
-- What holds in every state that a node reaches.
use dynamiq.Prelude.{◌≢◌, ℕ, ◌≡◌, refl, subst, str_eq, false, some, String, Perm}
use dynamiq.Prelude.Effects.{blocked, out_of_fuel, Stuck}
use dynamiq.Prelude.Int.{ℤ, pos}
use dynamiq.Partitions.Whole.{ids, ids_below, IsWhole-waiting}
use dynamiq.App.{Env, App, Queue, find_queue}
use dynamiq.Startup.{Packages, start, new_app}
use dynamiq.System.Starting.{start-AllWhole}
use dynamiq.System.{Step, request, queue_tick, topic_tick, elsewhere, Reach, here, next}
use dynamiq.System.Keeps.{Keeps, Keeps-weaken}
use dynamiq.System.Whole.{AllWhole, AllWhole-queues, initialize_queue-Keeps}
use dynamiq.System.Serving.{get-Keeps}
use dynamiq.System.Others.{Same-queues, get-Keeps_others, initialize_queue-Keeps_others}
use dynamiq.Http.Server.{Surroundings, Request, delete_topic, queue_of, serve}
use dynamiq.Http.Releasing.{handle_delete_topic-runs}
use dynamiq.System.Synced.{sync_queues-KeepsOk}
use dynamiq.System.Keeps.Topics.{sync_topics-Keeps}
use dynamiq.System.Requests.{serve-Keeps}

module _ (env : Env) where
  open env use {riak, lane}

  -- That a request deletes a topic.
  abbrev Deletes : Request env → Type 0
  Deletes r = (topic : String) × (r ≡ delete_topic topic)

  request-Keeps :
      (around : Surroundings) (r : Request env)
      → Keeps (AllWhole env) (Deletes r) (serve env around r)
  request-Keeps around r =
      serve-Keeps env (AllWhole-queues env) around r (λ topic e. (topic, e))
        (λ queue named. record {
          made = Keeps-weaken _ (λ v. absurd v) (initialize_queue-Keeps env around.random queue);
          got = λ size.
              Keeps-weaken _ (λ v. absurd v)
                (get-Keeps env queue around.list around.now around.later around.arrive size);
        })

  Step-AllWhole : {app app' : App env} → Step env app app' → AllWhole env app → AllWhole env app'
  Step-AllWhole {app} (request around r) h = (request-Keeps around r).at app h
  Step-AllWhole {app} (queue_tick fuel now random returned) h =
      (sync_queues-KeepsOk env random fuel now).at app tt returned h
  Step-AllWhole {app} (topic_tick returned) h =
      (sync_topics-Keeps env {W = Unit {0}} (AllWhole-queues env) tt).at app h
  Step-AllWhole {app} (elsewhere server) h = AllWhole-queues env app _ refl h

  pub Reach-AllWhole :
      {start app : App env} → AllWhole env start → Reach env start app → AllWhole env app
  Reach-AllWhole h here = h
  Reach-AllWhole h (next r step) = Step-AllWhole step (Reach-AllWhole h r)

  -- Take a node that has started by `main`, and any sequence of events after that: requests of any
  -- route that end in any way, a panic included, runs of the synchronisations of the queues and of
  -- the topics that return, and changes of the cluster by others, one after the other. Then in each
  -- state that is reached, every queue in memory has as many partitions as its partition count
  -- says, and they all wait, under the identifiers from 0 up to, not including, that count: no
  -- partition is lost, and none is there twice.
  pub queues_stay_whole :
      (packages : Packages) (random : ℤ → ℤ) (flag : String) (server : riak.Server) (app : App env)
      → Reach env (start env packages random flag (new_app env server)).1 app
      → (name : String) (queue : Queue env) → find_queue env name app ≡ some queue
      → (size : ℕ) × (queue.parts.partition_count ≡ pos size)
        × Perm (ids (lane.contents queue.parts.partitions)) (ids_below size)
  queues_stay_whole packages random flag server app r name queue found =
      let v =
        (Reach-AllWhole (start-AllWhole env packages random flag server) r).whole name queue
          found in
      let w = v.waiting in (w.size, w.counted, IsWhole-waiting lane _ _ w.size w w.counted)

  request-runs :
      (around : Surroundings) (r : Request env) (app : App env)
      → AllWhole env app
      → app.topics_locked ≡ false
      → Stuck (serve env around r app).0
      → ⊥
  unfolding serve
  request-runs around r app h free waits =
      let (topic, e) = (request-Keeps around r).stuck app h waits in
      handle_delete_topic-runs env topic app free
        (subst (λ q. Stuck (serve env around q app).0) e waits)

  -- Take a node that has started by `main`, and any sequence of events after that: requests of any
  -- route that end in any way, a panic included, runs of the synchronisations of the queues and of
  -- the topics that return, and changes of the cluster by others, one after the other. Then in each
  -- state that is reached and in which the mutex of the topics is free, a request of any route
  -- ends, with an answer or with a panic: it does not wait for that mutex, nor for the mutex of a
  -- queue's partitions, though a queue without partitions may be left with a mutex that is held,
  -- and it has no loop that does not end.
  pub requests_never_wait :
      (packages : Packages) (random : ℤ → ℤ) (flag : String) (server : riak.Server) (app : App env)
      → Reach env (start env packages random flag (new_app env server)).1 app
      → app.topics_locked ≡ false
      → (around : Surroundings) (r : Request env)
      → let (outcome, _) = serve env around r app in (outcome ≢ blocked) × (outcome ≢ out_of_fuel)
  requests_never_wait packages random flag server app reach free around r =
      let h = Reach-AllWhole (start-AllWhole env packages random flag server) reach in
      let runs = request-runs around r app h free in ((λ e. runs (rw e tt)), (λ e. runs (rw e tt)))

  -- A request of any route leaves every queue in memory whose name it does not contain as it was,
  -- with its partitions and its configuration, or leaves it missing, however the request ends.
  pub requests_isolated :
      (around : Surroundings) (r : Request env) (other : String) (app : App env)
      → ((queue : String) → queue_of env r ≡ some queue → str_eq queue other ≡ false)
      → find_queue env other (serve env around r app).1 ≡ find_queue env other app
  requests_isolated around r other app unnamed =
      (serve-Keeps env (Same-queues env other (find_queue env other app)) around r (λ _ _. tt)
          (λ queue named. record {
            made =
                initialize_queue-Keeps_others env queue other (unnamed queue named)
                  (find_queue env other app) around.random;
            got =
                get-Keeps_others env queue other (unnamed queue named) (find_queue env other app)
                  around.list around.now around.later around.arrive;
          })).at
        app refl
