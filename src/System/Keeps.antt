-- ===== src/System/Keeps.antt =====
-- Predicates on the state of the node that the methods keep, however they end: one rule for each way
-- to build a method. A predicate here reads the queues in memory and nothing else.
pub mod Settings
pub mod Messages
pub mod Topics
pub mod Registry
use dynamiq.Prelude.{
  subst, Option-cases, inl, inr, ◌≡◌, refl, Option, none, some, Bool, true, false, if◌then◌else◌,
}
use dynamiq.Prelude.Int.{ℤ}
use dynamiq.Prelude.Effects.{
  Stuck, Outcome, ok, panic, blocked, out_of_fuel, Action, returns, panics, gets, when, continue,
  ◌>>=◌, ◌>>◌,
}
use dynamiq.App.{find_queue, Env, App, Queue, ask, tell, draw_id, record_call}
use dynamiq.Stats.{Client, StatsdCall}
use dynamiq.Settings.{Method, on_pointer}
use dynamiq.Messages.{queue_method, with_queue}
use dynamiq.Prelude.{String}

module _ {S : Type 0} where
  -- `m` keeps `P`, however it ends, and is stuck only where `W` holds.
  pub record Keeps {A : Type 0} (P : S → Type 0) (W : Type 0) (m : Action S A) : Type 0 where
    pub at : (s : S) → P s → P (m s).1
    pub stuck : (s : S) → P s → Stuck (m s).0 → W

  module _ {A : Type 0} {P : S → Type 0} {W : Type 0} where
    -- What is stuck only where `V` holds is stuck only where `W` holds.
    pub Keeps-weaken : {V : Type 0} (m : Action S A) → (V → W) → Keeps P V m → Keeps P W m
    Keeps-weaken m v km = record { at = km.at; stuck = λ s h waits. v (km.stuck s h waits) }

    pub Keeps-gets : (f : S → A) → Keeps P W (gets f)
    Keeps-gets f = record { at = λ s h. h; stuck = λ s h waits. absurd waits }

    pub Keeps-returns : (a : A) → Keeps P W (returns a)
    Keeps-returns a = record { at = λ s h. h; stuck = λ s h waits. absurd waits }

    pub Keeps-panics : Keeps P W (panics {A = A})
    Keeps-panics = record { at = λ s h. h; stuck = λ s h waits. absurd waits }

    pub Keeps-if :
        (b : Bool) (m n : Action S A) → Keeps P W m → Keeps P W n → Keeps P W (if b then m else n)
    Keeps-if true m n km kn = km
    Keeps-if false m n km kn = kn

  pub Keeps-when :
      {P : S → Type 0} {W : Type 0} (b : Bool) (m : Action S (Unit {0}))
      → Keeps P W m
      → Keeps P W (when b m)
  Keeps-when true m km = km
  Keeps-when false m km = Keeps-returns tt

  module _ {A B : Type 0} {P : S → Type 0} {W : Type 0} where
    pub Keeps-continue :
        (r : Outcome A) (f : A → Action S B)
        → (Stuck r → W)
        → ((a : A) → Keeps P W (f a))
        → Keeps P W (continue r f)
    Keeps-continue (ok a) f w kf = kf a
    Keeps-continue panic f w kf = Keeps-panics
    Keeps-continue blocked f w kf = record { at = λ s h. h; stuck = λ s h waits. w waits }
    Keeps-continue out_of_fuel f w kf = record { at = λ s h. h; stuck = λ s h waits. w waits }

    pub Keeps-bind :
        (m : Action S A) (f : A → Action S B)
        → Keeps P W m
        → ((a : A) → Keeps P W (f a))
        → Keeps P W (m >>= f)
    Keeps-bind m f km kf = record {
      at = λ s h. (Keeps-continue (m s).0 f (km.stuck s h) kf).at (m s).1 (km.at s h);
      stuck = λ s h. (Keeps-continue (m s).0 f (km.stuck s h) kf).stuck (m s).1 (km.at s h);
    }

  pub Keeps-then :
      {A B : Type 0} {P : S → Type 0} {W : Type 0} (m : Action S A) (n : Action S B)
      → Keeps P W m
      → Keeps P W n
      → Keeps P W (m >> n)
  Keeps-then m n km kn = Keeps-bind m (λ _. n) km (λ _. kn)

module _ (env : Env) {P : App env → Type 0} {W : Type 0} where
  pub Keeps-ask : {A : Type 0} (request : env.riak.Server → A) → Keeps P W (ask env request)
  Keeps-ask request = record { at = λ s h. h; stuck = λ s h waits. absurd waits }

  pub Keeps-on_pointer :
      {A : Type 0} (nil : Bool) (method : Method env A)
      → Keeps P W method
      → Keeps P W (on_pointer env nil method)
  Keeps-on_pointer true method km = Keeps-panics
  Keeps-on_pointer false method km = km

  queue_method-Keeps :
      {A : Type 0} (o : Option (Queue env)) (method : Queue env → Method env A)
      → ((queue : Queue env) → Keeps P W (method queue))
      → Keeps P W (queue_method env o method)
  queue_method-Keeps none method km = Keeps-panics
  queue_method-Keeps (some queue) method km = km queue

  pub Keeps-with_queue :
      {A : Type 0} (name : String) (method : Queue env → Method env A)
      → ((queue : Queue env) → Keeps P W (method queue))
      → Keeps P W (with_queue env name method)
  unfolding with_queue
  Keeps-with_queue name method km = record {
    at = λ app. (queue_method-Keeps (find_queue env name app) method km).at app;
    stuck = λ app. (queue_method-Keeps (find_queue env name app) method km).stuck app;
  }

  module _ (frame : (app app' : App env) → app'.queues ≡ app.queues → P app → P app') where
    pub Keeps-tell :
        {A : Type 0} (request : env.riak.Server → A × env.riak.Server)
        → Keeps P W (tell env request)
    Keeps-tell request = record {
      at = λ app h. frame app _ refl h;
      stuck = λ app h waits. absurd waits;
    }

    pub Keeps-draw_id : Keeps P W (draw_id env)
    unfolding draw_id
    Keeps-draw_id = record { at = λ app h. frame app _ refl h; stuck = λ app h waits. absurd waits }

    pub Keeps-record_call :
        (method : Client → String → ℤ → Option StatsdCall) (key : String) (value : ℤ)
        → Keeps P W (record_call env method key value)
    unfolding record_call
    Keeps-record_call method key value = record {
      at = λ app h. elim (Option-cases (method app.stats key value)) [
        | inl e ↦ rw e h
        | inr (call, e) ↦ rw e (frame app _ refl h)
      ];
      stuck = λ app h waits. elim (Option-cases (method app.stats key value)) [
        | inl e ↦ absurd (rw e at waits)
        | inr (call, e) ↦ absurd (rw e at waits)
      ];
    }

pub ruleset keeps_rules = (
  Keeps-gets, Keeps-returns, Keeps-panics, Keeps-if, Keeps-when, Keeps-bind, Keeps-then, Keeps-ask,
  Keeps-on_pointer, Keeps-with_queue, Keeps-tell, Keeps-draw_id, Keeps-record_call,
)
