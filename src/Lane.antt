-- ===== src/Lane.antt =====
-- github.com/Tapjoy/lane: the priority queue that holds the partitions of a queue that are not in
-- use. The package is not part of the repository: its queue is an interface, with the behaviour
-- that it documents as laws about an abstract list of the entries and their priorities.
pub mod ListQueue
use dynamiq.Prelude.{◌≡◌, ◌≢◌, Option, none, some, List, [], ◌∷◌, Perm, All}
use dynamiq.Prelude.Int.{ℤ, ◌≤ℤ◌}

-- What `Pop` answers, for a queue with entries: some entry of least priority, which leaves.
pub record PopsLeast {A Queue : Type 0} (contents : Queue → List (A × ℤ)) (q : Queue)
    (r : Option A × Queue) : Type 0 where
  pub value : A
  pub priority : ℤ
  pub returned : r.0 ≡ some value
  pub removed : Perm (contents q) ((value, priority) ∷ contents r.1)
  pub least : All (λ e. priority ≤ℤ e.1) (contents r.1)

-- `lane.NewPQueue(lane.MINPQ)`, `Push` and `Pop`. `Pop` returns nil for an empty queue; the
-- priority that it returns beside the value is not used by the program.
pub record PQueue (A : Type 0) : Type 1 where
  pub Queue : Type 0
  pub new : Queue
  pub push : Queue → A → ℤ → Queue
  pub pop : Queue → Option A × Queue
  pub contents : Queue → List (A × ℤ)
  pub contents-new : contents new ≡ []
  pub contents-push :
      (q : Queue) (a : A) (p : ℤ) → Perm (contents (push q a p)) ((a, p) ∷ contents q)
  pub pop_empty : (q : Queue) → contents q ≡ [] → ((pop q).0 ≡ none) × (contents (pop q).1 ≡ [])
  pub pop_least : (q : Queue) → contents q ≢ [] → PopsLeast contents q (pop q)
