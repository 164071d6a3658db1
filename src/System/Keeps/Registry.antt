-- ===== src/System/Keeps/Registry.antt =====
-- The set of known queues and the configuration of a queue (app/config.go, app/queue.go): changing
-- them leaves the queues in memory as they are.
use dynamiq.Prelude.{◌≡◌, List, String, Option, none, some}
use dynamiq.App.{Env, App}
use dynamiq.Registry.{
  change_known_queues, add_to_known_queues, exists, remove_queue, delete_queue,
  create_config_for_queue,
}
use dynamiq.System.Keeps.{Keeps, keeps_rules}

module _ (env : Env) {P : App env → Type 0} {W : Type 0}
    (frame : (app app' : App env) → app'.queues ≡ app.queues → P app → P app') where
  open env use {riak}

  pub add_to_known_queues-Keeps : (name : String) → Keeps P W (add_to_known_queues env name)
  unfolding add_to_known_queues change_known_queues
  add_to_known_queues-Keeps name = search keeps_rules depth 7

  exists-Keeps : (name : String) → Keeps P W (exists env name)
  unfolding exists
  exists-Keeps name = search keeps_rules depth 7

  remove_queue-Keeps :
      (name : String) (config : riak.RMap) (o : Option (List String))
      → Keeps P W (remove_queue env name config o)
  unfolding remove_queue
  remove_queue-Keeps name config none = search keeps_rules
  remove_queue-Keeps name config (some names) = search keeps_rules

  pub delete_queue-Keeps : (name : String) → Keeps P W (delete_queue env name)
  unfolding delete_queue
  delete_queue-Keeps name = search (keeps_rules, exists-Keeps, remove_queue-Keeps) depth 9

  pub create_config_for_queue-Keeps : (name : String) → Keeps P W (create_config_for_queue env name)
  unfolding create_config_for_queue
  create_config_for_queue-Keeps name = search keeps_rules depth 7
