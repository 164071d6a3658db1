-- ===== src/System/Others.antt =====
-- The queues in memory under other names, over the methods of one queue (app/queue.go,
-- app/config.go).
use dynamiq.Prelude.{
  ◌≡◌, ◌∙◌, List, String, Option, none, some, str_eq, Option-cases, inl, inr, Bool, false,
}
use dynamiq.Prelude.Int.{ℤ}
use dynamiq.Prelude.Effects.{Action}
use dynamiq.Clock.{Time}
use dynamiq.Nodes.{Memberlist}
use dynamiq.Partitions.{Partition, Partitions, Handout}
use dynamiq.App.{Env, App, Queue, find_queue, lookup-insert, on_parts}
use dynamiq.Messages.{Arrivals, get, serve_partition, push_back}
use dynamiq.System.Keeps.{Keeps, Keeps-bind, keeps_rules}
use dynamiq.System.Keeps.Settings.{setting_rules}
use dynamiq.System.Keeps.Messages.{retrieve_messages-Keeps}
use dynamiq.System.Keeps.Registry.{add_to_known_queues-Keeps, create_config_for_queue-Keeps}
use dynamiq.System.Whole.{new_partitions-IsWhole}
use dynamiq.Registry.{set_queue, add_queue, finish_queue, initialize_queue}
use dynamiq.Settings.Stored.{find_queue-queues}

module _ (env : Env) (other : String) (found : Option (Queue env)) where
  -- What is found under another name.
  abbrev pub Same : App env → Type 0
  Same app = find_queue env other app ≡ found

  pub Same-queues : (app app' : App env) → app'.queues ≡ app.queues → Same app → Same app'
  Same-queues app app' e h = find_queue-queues env other app' app e ∙ h

module _ (env : Env) (name other : String) (different : str_eq name other ≡ false)
    (found : Option (Queue env)) where
  open env use {riak, lane, floats}

  on_parts-Keeps :
      {A : Type 0} (queue : Queue env) (method : Action (Partitions lane) A)
      → Keeps (Same env other found) (Unit {0}) (on_parts env name queue method)
  unfolding on_parts find_queue
  on_parts-Keeps queue method = record {
    at = λ app h. elim (Option-cases app.queues) [
      | inl e ↦ rw e (rw e at h)
      | inr (queues, e) ↦
          rw
            (
              e,
              lookup-insert name other (record queue { parts = (method queue.parts).1 }) queues,
              different,
            )
            (rw e at h)
    ];
    stuck = λ app h waits. tt;
  }

  ruleset rules = (setting_rules, on_parts-Keeps, Same-queues)

  push_back-Keeps :
      (now : Time) (o : Option Partition) (used : Bool)
      → Keeps (Same env other found) (Unit {0}) (push_back env name now o used)
  unfolding push_back
  push_back-Keeps now none used = search rules
  push_back-Keeps now (some w) used = search rules depth 7

  serve_partition-Keeps :
      (list : Memberlist) (later : Time) (arrive : List String → Arrivals) (size : ℤ)
      (bucket : riak.Bucket) (handout : Handout)
      → Keeps
          (Same env other found)
          (Unit {0})
          (serve_partition env name list later arrive size bucket handout)
  unfolding serve_partition
  serve_partition-Keeps list later arrive size bucket handout =
      search (rules, push_back-Keeps, retrieve_messages-Keeps) depth 12

  pub get-Keeps_others :
      (list : Memberlist) (now later : Time) (arrive : List String → Arrivals) (size : ℤ)
      → Keeps (Same env other found) (Unit {0}) (get env name list now later arrive size)
  unfolding get
  get-Keeps_others list now later arrive size = search (rules, serve_partition-Keeps) depth 12

  set_queue-Keeps_others :
      (queue : Queue env) → Keeps (Same env other found) (Unit {0}) (set_queue env name queue)
  unfolding set_queue find_queue
  set_queue-Keeps_others queue = record {
    at = λ app h. elim (Option-cases app.queues) [
      | inl e ↦ rw e (rw e at h)
      | inr (queues, e) ↦ rw (e, lookup-insert name other queue queues, different) (rw e at h)
    ];
    stuck = λ app h waits. tt;
  }

  module _ (random : ℤ → ℤ) where
    add_queue-Keeps_others :
        (config : riak.RMap)
        → Keeps (Same env other found) (Unit {0}) (add_queue env random name config)
    unfolding add_queue
    add_queue-Keeps_others config = record {
      at = λ app h.
          let (parts, made, v, free) = new_partitions-IsWhole env random name app in
          rw made (
            (set_queue-Keeps_others (record { name = name; parts = parts; config = config })).at app
              h);
      stuck = λ app h waits. tt;
    }

    finish_queue-Keeps_others :
        (config : riak.RMap) (err : Option String)
        → Keeps (Same env other found) (Unit {0}) (finish_queue env random name (config, err))
    unfolding finish_queue
    finish_queue-Keeps_others config (some e) = search keeps_rules
    finish_queue-Keeps_others config none =
        search (keeps_rules, add_queue-Keeps_others, add_to_known_queues-Keeps, Same-queues)

    pub initialize_queue-Keeps_others :
        Keeps (Same env other found) (Unit {0}) (initialize_queue env random name)
    unfolding initialize_queue
    initialize_queue-Keeps_others =
        Keeps-bind _ _ (create_config_for_queue-Keeps env (Same-queues env other found) name)
          (λ (config, err). finish_queue-Keeps_others config err)
