-- ===== src/App.antt =====
-- The state that the handlers share: the queues in memory (`Queues.QueueMap` of app/queue.go), and
-- the Riak cluster behind the connection pool of `Config` (app/config.go). The packages that are
-- not part of the repository come in as one environment.
use dynamiq.Prelude.{
  ℕ, suc, Option, none, some, List, [], ◌∷◌, String, Bool, true, false, not, ◌&&◌, ◌||◌, str_eq,
  if◌then◌else◌, ◌≡◌, arith, eq_iff, refl, ◌⊎◌, inl, inr, Bool-cases,
}
use dynamiq.Prelude.Effects.{Outcome, ok, Action}
use dynamiq.Prelude.Int.{ℤ}
use mathlib.Core.Option
use text.Mathlib.TextPositions.{eq_refl}
use dynamiq.Lane.{PQueue}
use dynamiq.Clock.{Floats}
use dynamiq.Riak.{Riak, Bytes}
use dynamiq.Stats.{Client, StatsdCall}
use dynamiq.Partitions.{Partition, Partitions}

-- `Compress` and `Decompress` of app/compressor: the bytes, and an error.
pub record Compressor : Type 0 where
  pub compress : Bytes → Bytes × Option String
  pub decompress : Bytes → Bytes × Option String

pub record Env : Type 1 where
  pub riak : Riak
  pub lane : PQueue Partition
  pub floats : Floats
  pub compressor : Compressor
  -- the n-th number that `rand.Int` draws, and what the statistics client answers
  pub draw : ℕ → ℕ
  pub statsd_answer : StatsdCall → Option String

pub record Queue (env : Env) : Type 0 where
  pub name : String
  pub parts : Partitions env.lane
  pub config : env.riak.RMap

-- A topic, and the topics in memory with the map that lists them (app/topic.go). The mutex of the
-- topics stands beside them in `App`.
pub record Topic (env : Env) : Type 0 where
  pub name : String
  pub config : env.riak.RMap

pub record Topics (env : Env) : Type 0 where
  pub config : env.riak.RMap
  pub topic_map : List (String × Topic env)

-- `none` for the queues and for the topics stands for the nil `cfg.Queues` and `cfg.Topics` while
-- the node boots.
pub record App (env : Env) : Type 0 where
  pub server : env.riak.Server
  pub queues : Option (List (String × Queue env))
  pub topics : Option (Topics env)
  -- whether the mutex of the topics is held
  pub topics_locked : Bool
  -- `cfg.Stats.Client`, and the calls that it has made, the last one first
  pub stats : Client
  pub calls : List StatsdCall
  -- how many numbers have been drawn
  pub drawn : ℕ

module _ {ℓ} {V : Type ℓ} where
  unfoldable pub lookup : String → List (String × V) → Option V
  lookup name [] = none
  lookup name ((other, value) ∷ rest) = if str_eq other name then some value else lookup name rest

  unfoldable pub insert : String → V → List (String × V) → List (String × V)
  insert name value [] = (name, value) ∷ []
  insert name value ((other, old) ∷ rest) =
      let longer = (other, old) ∷ insert name value rest in
      if str_eq other name then (name, value) ∷ rest else longer

  -- `delete(m, name)`
  unfoldable pub delete_key : String → List (String × V) → List (String × V)
  delete_key name [] = []
  delete_key name ((other, value) ∷ rest) =
      let others = delete_key name rest in
      if str_eq other name then others else (other, value) ∷ others

  -- `_, present = m[name]`
  unfoldable pub present : String → List (String × V) → Bool
  present name [] = false
  present name ((other, value) ∷ rest) = str_eq other name || present name rest

  -- What is found after an insertion.
  pub lookup-insert :
      (name wanted : String) (value : V) (entries : List (String × V))
      → lookup wanted (insert name value entries)
        ≡ (if str_eq name wanted then some value else lookup wanted entries)
  unfolding lookup insert
  lookup-insert name wanted value [] = refl
  lookup-insert name wanted value ((other, old) ∷ rest) = ground (
    arith,
    eq_iff name wanted,
    eq_iff other name,
    eq_iff other wanted,
    lookup-insert name wanted value rest,
  )

  pub lookup-insert_self :
      (name : String) (value : V) (entries : List (String × V))
      → lookup name (insert name value entries) ≡ some value
  lookup-insert_self name value entries = rw (lookup-insert name name value entries, eq_refl name)

  -- What is present after an insertion and after a deletion.
  pub present-insert :
      (name wanted : String) (value : V) (entries : List (String × V))
      → present wanted (insert name value entries) ≡ (str_eq name wanted || present wanted entries)
  unfolding present insert
  present-insert name wanted value [] = refl
  present-insert name wanted value ((other, old) ∷ rest) = ground (
    arith,
    eq_iff name wanted,
    eq_iff other name,
    eq_iff other wanted,
    present-insert name wanted value rest,
  )

  pub present-delete_key :
      (name wanted : String) (entries : List (String × V))
      → present wanted (delete_key name entries)
        ≡ (not (str_eq name wanted) && present wanted entries)
  unfolding present delete_key
  present-delete_key name wanted [] = ground arith
  present-delete_key name wanted ((other, old) ∷ rest) = ground (
    arith,
    eq_iff name wanted,
    eq_iff other name,
    eq_iff other wanted,
    present-delete_key name wanted rest,
  )

  pub lookup-delete_key :
      (name wanted : String) (entries : List (String × V))
      → lookup wanted (delete_key name entries)
        ≡ (if str_eq name wanted then none else lookup wanted entries)
  unfolding lookup delete_key
  lookup-delete_key name wanted [] = ground arith
  lookup-delete_key name wanted ((other, old) ∷ rest) = ground (
    arith,
    eq_iff name wanted,
    eq_iff other name,
    eq_iff other wanted,
    lookup-delete_key name wanted rest,
  )

  -- What is present is found.
  pub present-lookup :
      (name : String) (entries : List (String × V))
      → ((lookup name entries ≡ none) × (present name entries ≡ false))
        ⊎ ((value : V) × (lookup name entries ≡ some value) × (present name entries ≡ true))
  unfolding lookup present
  present-lookup name [] = inl (refl, refl)
  present-lookup name ((other, value) ∷ rest) = elim (Bool-cases (str_eq other name)) [
    | inl e ↦ inr (value, rw e refl, rw e refl)
    | inr e ↦ rw e (present-lookup name rest)
  ]

module _ (env : Env) where
  -- The queue in memory, if the queues are there.
  unfoldable pub find_queue : String → App env → Option (Queue env)
  unfolding lookup
  find_queue name app = elim app.queues [ none ↦ none | some m ↦ lookup name m ]

  -- A request that only reads.
  abbrev pub ask : {A : Type 0} → (env.riak.Server → A) → Action (App env) A
  ask request app = (ok (request app.server), app)

  -- A request that writes.
  abbrev pub tell : {A : Type 0} → (env.riak.Server → A × env.riak.Server) → Action (App env) A
  tell request app = let (a, server) = request app.server in (ok a, record app { server = server })

  -- A method of the statistics client: the error that it returns.
  abbrev report : Option StatsdCall → Action (App env) (Option String)
  report none app = (ok none, app)
  report (some call) app = (ok (env.statsd_answer call), record app { calls = call ∷ app.calls })

  unfoldable pub record_call :
      (Client → String → ℤ → Option StatsdCall) → String → ℤ → Action (App env) (Option String)
  record_call method key value app = report (method app.stats key value) app

  -- `rand.Int(rand.Reader, &MaxIDSize)`
  unfoldable pub draw_id : Action (App env) ℕ
  draw_id app = (ok (env.draw app.drawn), record app { drawn = suc app.drawn })

  abbrev with_parts :
      {A : Type 0}
      → String
      → Queue env
      → Outcome A × Partitions env.lane
      → App env
      → Outcome A × App env
  with_parts name queue (r, parts) app = (
    r,
    record app { queues = Option.map (insert name (record queue { parts = parts })) app.queues },
  )

  -- A method of the partitions of a queue, on the object that the queue in memory points to.
  unfoldable pub on_parts :
      {A : Type 0} → String → Queue env → Action (Partitions env.lane) A → Action (App env) A
  unfolding insert
  on_parts name queue method app = with_parts name queue (method queue.parts) app
