-- ===== src/System/KeepsOk.antt =====
-- Predicates on the state of the node that a method keeps when it returns.
use dynamiq.Prelude.{◌≡◌, refl, if◌then◌else◌, Bool, true, false}
use dynamiq.Prelude.Effects.{Outcome, ok, panic, blocked, out_of_fuel, Action, continue, ◌>>=◌}
use dynamiq.System.Keeps.{Keeps}

module _ {S : Type 0} where
  pub record KeepsOk {A : Type 0} (P : S → Type 0) (m : Action S A) : Type 0 where
    pub at : (s : S) (a : A) → (m s).0 ≡ ok a → P s → P (m s).1

  pub KeepsOk-Keeps :
      {A : Type 0} {P : S → Type 0} (m : Action S A) → Keeps P (Unit {0}) m → KeepsOk P m
  KeepsOk-Keeps m k = record { at = λ s a e h. k.at s h }

  module _ {P : S → Type 0} where
    continue-KeepsOk :
        {A B : Type 0} (r : Outcome A) (f : A → Action S B) (s : S) (b : B)
        → ((a : A) → KeepsOk P (f a))
        → ((a : A) → r ≡ ok a → P s)
        → (continue r f s).0 ≡ ok b
        → P (continue r f s).1
    continue-KeepsOk (ok a) f s b kf h e = (kf a).at s b e (h a refl)
    continue-KeepsOk panic f s b kf h e = cc
    continue-KeepsOk blocked f s b kf h e = cc
    continue-KeepsOk out_of_fuel f s b kf h e = cc

    pub KeepsOk-bind :
        {A B : Type 0} (m : Action S A) (f : A → Action S B)
        → KeepsOk P m
        → ((a : A) → KeepsOk P (f a))
        → KeepsOk P (m >>= f)
    KeepsOk-bind m f km kf = record {
      at = λ s b e h. continue-KeepsOk (m s).0 f (m s).1 b kf (λ a r. km.at s a r h) e;
    }

    pub KeepsOk-if :
        {A : Type 0} (b : Bool) (m n : Action S A)
        → KeepsOk P m
        → KeepsOk P n
        → KeepsOk P (if b then m else n)
    KeepsOk-if true m n km kn = km
    KeepsOk-if false m n km kn = kn
