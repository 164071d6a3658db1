-- ===== src/System/Whole.antt =====
-- The queues in memory, each with all its partitions waiting, over the methods that put a queue into
-- memory or take one out (app/config.go, app/queue.go).
use dynamiq.Prelude.{
  ◌≡◌, refl, sym, ◌∙◌, subst, List, [], String, Option, none, some, str_eq, if◌then◌else◌,
  Bool-cases, inl, inr,
}
use dynamiq.Prelude.Int.{ℤ}
use dynamiq.Prelude.Effects.{Stuck, ok}
use dynamiq.Partitions.{Partitions, init_partitions, no_partitions_yet}
use dynamiq.Partitions.Whole.{IsWhole}
use dynamiq.Partitions.Growth.{init_partitions-IsWhole, init_partitions-free}
use dynamiq.Partitions.Free.{IsFree}
use dynamiq.App.{
  Env, App, Queue, find_queue, lookup, insert, delete_key, lookup-insert, lookup-delete_key,
}
use dynamiq.Settings.Stored.{find_queue-queues}
use dynamiq.Registry.{
  new_partitions, queue_into, set_queue, add_queue, init_queue_from_riak, finish_queue,
  initialize_queue,
}
use dynamiq.Registry.Created.{partition_settings-Reads}
use dynamiq.System.Keeps.{Keeps, Keeps-bind, keeps_rules}
use dynamiq.System.Keeps.Registry.{add_to_known_queues-Keeps, create_config_for_queue-Keeps}

module _ (env : Env) where
  open env use {riak, lane, floats}

  -- All the partitions of a queue wait, and its mutex is free or there are none.
  pub record QueueIsWhole (queue : Queue env) : Type 0 where
    pub waiting : IsWhole lane queue.parts.partitions queue.parts.partition_count []
    pub free : IsFree lane queue.parts

  -- Every queue in memory is whole.
  pub record AllWhole (app : App env) : Type 0 where
    pub whole :
        (name : String) (queue : Queue env)
        → find_queue env name app ≡ some queue
        → QueueIsWhole queue

  pub AllWhole-queues :
      (app app' : App env) → app'.queues ≡ app.queues → AllWhole app → AllWhole app'
  AllWhole-queues app app' e h = record {
    whole = λ name queue found.
        h.whole name queue (find_queue-queues env name app app' (sym e) ∙ found);
  }

  -- Before `loadQueuesConfig`.
  pub AllWhole-none : (app : App env) → app.queues ≡ none → AllWhole app
  unfolding find_queue
  AllWhole-none app e = record { whole = λ name queue found. let missing = rw e at found in cc }

  module _ (name : String) (app : App env) (queues : List (String × Queue env))
      (there : app.queues ≡ some queues) (h : AllWhole app) where
    -- A queue that is put into memory.
    pub AllWhole-insert :
        (new : Queue env)
        → QueueIsWhole new
        → (app' : App env) → app'.queues ≡ some (insert name new queues)
        → AllWhole app'
    unfolding find_queue
    AllWhole-insert new v app' e = record {
      whole = λ other queue found.
          let found' : (if str_eq name other then some new else lookup other queues) ≡ some queue =
            sym (lookup-insert name other new queues) ∙ rw e at found in
          elim (Bool-cases (str_eq name other)) [
            | inl same ↦
                let found_new : some new ≡ some queue = rw same at found' in
                let is_new : new ≡ queue = cc found_new in subst QueueIsWhole is_new v
            | inr different ↦ h.whole other queue (rw there (rw different at found'))
          ];
    }

    -- A queue that is taken out.
    pub AllWhole-delete :
        (app' : App env) → app'.queues ≡ some (delete_key name queues) → AllWhole app'
    unfolding find_queue
    AllWhole-delete app' e = record {
      whole = λ other queue found.
          let found' : (if str_eq name other then none else lookup other queues) ≡ some queue =
            sym (lookup-delete_key name other queues) ∙ rw e at found in
          elim (Bool-cases (str_eq name other)) [
            | inl same ↦ let missing : none ≡ some queue = rw same at found' in cc
            | inr different ↦ h.whole other queue (rw there (rw different at found'))
          ];
    }

  queue_into-whole :
      (o : Option (List (String × Queue env))) (name : String) (queue : Queue env) (app : App env)
      → app.queues ≡ o
      → QueueIsWhole queue
      → AllWhole app
      → AllWhole (queue_into env o name queue app).1
  queue_into-whole none name queue app e v h = h
  queue_into-whole (some queues) name queue app e v h =
      AllWhole-insert name app queues e h queue v _ refl

  queue_into-Stuck :
      (o : Option (List (String × Queue env))) (name : String) (queue : Queue env) (app : App env)
      → Stuck (queue_into env o name queue app).0
      → ⊥
  queue_into-Stuck none name queue app waits = waits
  queue_into-Stuck (some queues) name queue app waits = waits

  module _ (random : ℤ → ℤ) where
    -- The partitions that `InitPartitions` makes for a queue.
    pub new_partitions-IsWhole :
        (name : String) (app : App env)
        → (parts : Partitions lane) × (new_partitions env random name app ≡ (ok parts, app))
          × IsWhole lane parts.partitions parts.partition_count []
          × IsFree lane parts
    unfolding new_partitions init_partitions no_partitions_yet
    new_partitions-IsWhole name app =
        let reads = partition_settings-Reads env name app in
        (
          (init_partitions lane floats reads.read random (no_partitions_yet lane)).1,
          rw reads.answer refl,
          init_partitions-IsWhole lane floats reads.read random reads.low reads.high,
          inl ((init_partitions-free lane floats reads.read random).1),
        )

  module _ {W : Type 0} where
    pub set_queue-Keeps :
        (name : String) (queue : Queue env)
        → QueueIsWhole queue
        → Keeps AllWhole W (set_queue env name queue)
    unfolding set_queue
    set_queue-Keeps name queue v = record {
      at = λ app h. queue_into-whole app.queues name queue app refl v h;
      stuck = λ app h waits. absurd (queue_into-Stuck app.queues name queue app waits);
    }

    module _ (random : ℤ → ℤ) where
      add_queue-Keeps :
          (name : String) (config : riak.RMap) → Keeps AllWhole W (add_queue env random name config)
      unfolding add_queue
      add_queue-Keeps name config = record {
        at = λ app h.
            let (parts, made, v, free) = new_partitions-IsWhole random name app in
            rw made (
              (set_queue-Keeps name (record { name = name; parts = parts; config = config })
                  (record { waiting = v; free = free })).at
                app h);
        stuck = λ app h.
            let (parts, made, v, free) = new_partitions-IsWhole random name app in
            rw made (
              (set_queue-Keeps name (record { name = name; parts = parts; config = config })
                  (record { waiting = v; free = free })).stuck
                app h);
      }

      pub init_queue_from_riak-Keeps :
          (name : String) → Keeps AllWhole W (init_queue_from_riak env random name)
      unfolding init_queue_from_riak
      init_queue_from_riak-Keeps name = search (keeps_rules, add_queue-Keeps)

      finish_queue-Keeps :
          (name : String) (config : riak.RMap) (err : Option String)
          → Keeps AllWhole W (finish_queue env random name (config, err))
      unfolding finish_queue
      finish_queue-Keeps name config (some e) = search keeps_rules
      finish_queue-Keeps name config none =
          search (keeps_rules, add_queue-Keeps, add_to_known_queues-Keeps, AllWhole-queues)

      pub initialize_queue-Keeps :
          (name : String) → Keeps AllWhole W (initialize_queue env random name)
      unfolding initialize_queue
      initialize_queue-Keeps name =
          Keeps-bind _ _ (create_config_for_queue-Keeps env AllWhole-queues name)
            (λ (config, err). finish_queue-Keeps name config err)
