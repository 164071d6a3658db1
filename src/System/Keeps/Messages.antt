-- ===== src/System/Keeps/Messages.antt =====
-- The messages of a queue (app/queue.go): all but `Get` leave the queues in memory as they are.
use dynamiq.Prelude.{◌≡◌, refl, Bool, List, [], ◌∷◌, String, Option}
use dynamiq.Prelude.Int.{ℤ}
use dynamiq.Riak.{Bytes}
use dynamiq.App.{Env, App}
use dynamiq.Messages.{
  put, delete, delete_all, batch_delete, put_siblings, repair, collect, retrieve_messages,
  fetch_each, Arrivals,
}
use dynamiq.System.Keeps.{Keeps, Keeps-returns, Keeps-then}
use dynamiq.System.Keeps.Settings.{setting_rules}

module _ (env : Env) {P : App env → Type 0} {W : Type 0}
    (frame : (app app' : App env) → app'.queues ≡ app.queues → P app → P app') where
  open env use {riak}

  pub put-Keeps : (name : String) (message : Bytes) → Keeps P W (put env name message)
  unfolding put
  put-Keeps name message = search setting_rules depth 9

  pub delete-Keeps : (name id : String) → Keeps P W (delete env name id)
  unfolding delete
  delete-Keeps name id = search setting_rules depth 9

  delete_all-Keeps :
      (bucket : riak.Bucket) (ids : List String) (errors : ℤ) (err : Option String)
      → Keeps P W (delete_all env bucket ids errors err)
  unfolding delete_all
  delete_all-Keeps bucket [] errors err = Keeps-returns (errors, err)
  delete_all-Keeps bucket (id ∷ ids) errors err = record {
    at = λ app h. (delete_all-Keeps bucket ids _ _).at _ (frame app _ refl h);
    stuck = λ app h. (delete_all-Keeps bucket ids _ _).stuck _ (frame app _ refl h);
  }

  pub batch_delete-Keeps :
      (name : String) (ids : List String) → Keeps P W (batch_delete env name ids)
  unfolding batch_delete
  batch_delete-Keeps name ids = search (setting_rules, delete_all-Keeps) depth 9

  put_siblings-Keeps :
      (name : String) (bodies : List Bytes) → Keeps P W (put_siblings env name bodies)
  unfolding put_siblings
  put_siblings-Keeps name [] = search setting_rules
  put_siblings-Keeps name ([] ∷ rest) =
      Keeps-then _ _ (Keeps-returns tt) (put_siblings-Keeps name rest)
  put_siblings-Keeps name ((byte ∷ body) ∷ rest) =
      Keeps-then _ _ (Keeps-then _ _ (put-Keeps name (byte ∷ body)) (Keeps-returns tt))
        (put_siblings-Keeps name rest)

  repair-Keeps : (name : String) (object : riak.RObject) → Keeps P W (repair env name object)
  unfolding repair
  repair-Keeps name object = search (setting_rules, put_siblings-Keeps) depth 7

  collect-Keeps :
      (name : String) (objects : List riak.RObject) → Keeps P W (collect env name objects)
  unfolding collect
  collect-Keeps name [] = search setting_rules
  collect-Keeps name (object ∷ rest) =
      Keeps-then _ _ (repair-Keeps name object) (search (setting_rules, collect-Keeps name rest))

  fetch_each-Keeps :
      (name : String) (bucket : riak.Bucket) (compressed : Bool) (arrival : Arrivals)
      (come : List riak.RObject)
      → Keeps P W (fetch_each env name bucket compressed arrival come)
  unfolding fetch_each
  fetch_each-Keeps name bucket compressed [] come = collect-Keeps name come
  fetch_each-Keeps name bucket compressed ((key, taken) ∷ rest) come =
      search (setting_rules, collect-Keeps, fetch_each-Keeps name bucket compressed rest) depth 7

  pub retrieve_messages-Keeps :
      (name : String) (arrival : Arrivals) → Keeps P W (retrieve_messages env name arrival)
  unfolding retrieve_messages
  retrieve_messages-Keeps name arrival = search (setting_rules, fetch_each-Keeps) depth 9
