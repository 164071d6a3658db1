-- ===== src/Lane/ListQueue.antt =====
-- The priority queue of github.com/Tapjoy/lane, instantiated by an unsorted list.
use dynamiq.Prelude.{
  ◌≡◌, ◌≢◌, refl, Option, none, some, List, [], ◌∷◌, Perm, All, arith, if◌then◌else◌, Bool-cases,
  inl, inr, sym, subst,
}
use dynamiq.Prelude.Int.{ℤ, ◌≤ℤ◌, ltb_ℤ}
use dynamiq.Lane.{PQueue, PopsLeast}
use mathlib.Core.List.Perm

module _ {A : Type 0} where
  -- The entry of least priority of `x ∷ xs`, and the others.
  split_least : A × ℤ → List (A × ℤ) → (A × ℤ) × List (A × ℤ)
  split_least x [] = (x, [])
  split_least x (y ∷ ys) =
      let later = ltb_ℤ y.1 x.1 in
      let (m, rest) = split_least (if later then y else x) ys in
      (m, (if later then x else y) ∷ rest)

  split_least-perm :
      (x : A × ℤ) (xs : List (A × ℤ)) → Perm (x ∷ xs) ((split_least x xs).0 ∷ (split_least x xs).1)
  unfolding split_least
  split_least-perm x [] = Perm.refl _
  split_least-perm x (y ∷ ys) = elim (Bool-cases (ltb_ℤ y.1 x.1)) [
    | inl e ↦ rw e (Perm.trans (Perm.cons x (split_least-perm y ys)) (Perm.swap _ _ _))
    | inr e ↦ rw e (
        Perm.trans (Perm.swap _ _ _)
          (Perm.trans (Perm.cons y (split_least-perm x ys)) (Perm.swap _ _ _)))
  ]

  split_least-le : (x : A × ℤ) (xs : List (A × ℤ)) → (split_least x xs).0.1 ≤ℤ x.1
  unfolding split_least
  split_least-le x [] = omega arith
  split_least-le x (y ∷ ys) = elim (Bool-cases (ltb_ℤ y.1 x.1)) [
    | inl e ↦ rw e (ground (arith, split_least-le y ys))
    | inr e ↦ rw e (split_least-le x ys)
  ]

  abbrev IsSplit : (A × ℤ) × List (A × ℤ) → Type 0
  IsSplit r = All (λ e. r.0.1 ≤ℤ e.1) r.1

  split_least-least : (x : A × ℤ) (xs : List (A × ℤ)) → IsSplit (split_least x xs)
  unfolding split_least
  split_least-least x [] = tt
  split_least-least x (y ∷ ys) = elim (Bool-cases (ltb_ℤ y.1 x.1)) [
    | inl e ↦
        let (m, rest) = split_least y ys in
        let split : split_least x (y ∷ ys) ≡ (m, x ∷ rest) = rw e in
        subst IsSplit (sym split) (ground (arith, split_least-le y ys), split_least-least y ys)
    | inr e ↦
        let (m, rest) = split_least x ys in
        let split : split_least x (y ∷ ys) ≡ (m, y ∷ rest) = rw e in
        subst IsSplit (sym split) (ground (arith, split_least-le x ys), split_least-least x ys)
  ]

  unfoldable pub pop_list : List (A × ℤ) → Option A × List (A × ℤ)
  unfolding split_least
  pop_list [] = (none, [])
  pop_list (x ∷ xs) = let (m, rest) = split_least x xs in (some m.0, rest)

  pub pop_list_empty : (q : List (A × ℤ)) → q ≡ [] → ((pop_list q).0 ≡ none) × ((pop_list q).1 ≡ [])
  unfolding pop_list
  pop_list_empty [] h = (refl, refl)
  pop_list_empty (x ∷ xs) h = cc

  pub pop_list_least :
      (q : List (A × ℤ)) → q ≢ [] → PopsLeast (λ (l : List (A × ℤ)). l) q (pop_list q)
  unfolding pop_list
  pop_list_least [] h = absurd (h refl)
  pop_list_least (x ∷ xs) h = record {
    value = (split_least x xs).0.0;
    priority = (split_least x xs).0.1;
    returned = refl;
    removed = split_least-perm x xs;
    least = split_least-least x xs;
  }

  abbrev pub list_queue : PQueue A
  list_queue = record {
    Queue = List (A × ℤ);
    new = [];
    push = λ q a p. (a, p) ∷ q;
    pop = pop_list;
    contents = λ q. q;
    contents-new = refl;
    contents-push = λ q a p. Perm.refl _;
    pop_empty = pop_list_empty;
    pop_least = pop_list_least;
  }
