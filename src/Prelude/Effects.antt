-- ===== src/Prelude/Effects.antt =====
-- Methods that change an object, and how they can end. What was written before a panic stays
-- written, so the object comes back beside every outcome.
use mathlib.Core.Path.{◌≡◌, refl}
use mathlib.Core.Logic.{◌⊎◌, inl, inr}
use mathlib.Core.Bool.{Bool, true, false}

-- `panic` is a run-time panic of Go, `blocked` a wait for a mutex that nobody releases, and
-- `out_of_fuel` a loop that has not ended within the rounds that the model gives it.
pub data Outcome {ℓ} (A : Type ℓ) : Type ℓ where
  ok : A → Outcome A
  panic : Outcome A
  blocked : Outcome A
  out_of_fuel : Outcome A

abbrev pub Action {ℓ} : Type ℓ → Type ℓ → Type ℓ
Action S A = S → Outcome A × S

module _ {ℓ} {S A : Type ℓ} where
  abbrev pub returns : A → Action S A
  returns a s = (ok a, s)

  abbrev pub panics : Action S A
  panics s = (panic, s)

  abbrev pub gets : (S → A) → Action S A
  gets f s = (ok (f s), s)

module _ {ℓ} {S : Type ℓ} where
  abbrev pub modify : (S → S) → Action S (Unit {ℓ})
  modify f s = (ok tt, f s)

  -- `if test { body }`
  abbrev pub when : Bool → Action S (Unit {ℓ}) → Action S (Unit {ℓ})
  when true m = m
  when false m = λ s. (ok tt, s)

module _ {ℓ} {S A B : Type ℓ} where
  abbrev pub continue : Outcome A → (A → Action S B) → Action S B
  continue (ok a) f s = f a s
  continue panic f s = (panic, s)
  continue blocked f s = (blocked, s)
  continue out_of_fuel f s = (out_of_fuel, s)

  infixl 5 ◌>>=◌ ◌>>◌
  abbrev pub ◌>>=◌ : Action S A → (A → Action S B) → Action S B
  ◌>>=◌ m f s = let (r, s') = m s in continue r f s'

  abbrev pub ◌>>◌ : Action S A → Action S B → Action S B
  m >> n = m >>= λ _. n

-- What a method returns, returned.
pub continue-returns {ℓ} :
    {S A : Type ℓ} (r : Outcome A) (s : S) → continue r (λ a. returns a) s ≡ (r, s)
continue-returns (ok a) s = refl
continue-returns panic s = refl
continue-returns blocked s = refl
continue-returns out_of_fuel s = refl

-- The outcome of a method that waits for ever, or whose loop has used up its rounds.
abbrev pub Stuck {ℓ} : {A : Type ℓ} → Outcome A → Type 0
Stuck (ok a) = ⊥
Stuck panic = ⊥
Stuck blocked = Unit {0}
Stuck out_of_fuel = Unit {0}

pub Outcome-cases {ℓ} :
    {A : Type ℓ} (r : Outcome A)
    → ((a : A) × (r ≡ ok a)) ⊎ (r ≡ panic) ⊎ (r ≡ blocked) ⊎ (r ≡ out_of_fuel)
Outcome-cases (ok a) = inl (a, refl)
Outcome-cases panic = inr (inl refl)
Outcome-cases blocked = inr (inr (inl refl))
Outcome-cases out_of_fuel = inr (inr (inr refl))

pub ok-injective {ℓ} : {A : Type ℓ} {a b : A} → ok a ≡ ok b → a ≡ b
ok-injective h = cc
