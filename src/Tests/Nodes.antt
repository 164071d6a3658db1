-- ===== src/Tests/Nodes.antt =====
-- Runs of the code of app/partitions.go and app/members.go on the names of nodes.
use dynamiq.Prelude.{
  ◌≡◌, ◌≢◌, refl, List, [], ◌∷◌, ◌++◌, Mem, Perm, String, some, str_eq, eq_iff, arith, false,
}
use dynamiq.Nodes.{get_node_partition_range}
use dynamiq.Nodes.Sorting.{sort_strings}
use dynamiq.Nodes.Position.{AreApart, node_ranges_apart}
use dynamiq.Seeds.{prioritize_seed_servers}
use dynamiq.Seeds.Priority.{prioritize_seed_servers-listed}
use dynamiq.Tests.World.{nodes, node_a, node_b}
use mathlib.Core.List.{mem-cons, mem-cons_self, not-mem-nil}
use mathlib.Core.List.Perm
use mathlib.Core.HLevel.{⊥_prop}
use mathlib.Core.Logic.Or

pub a_listed : Mem "a" nodes
a_listed = mem-cons.1 (Or.inr mem-cons_self)

b_listed : Mem "b" nodes
b_listed = mem-cons_self

differ : (a b : String) → str_eq a b ≡ false → a ≢ b
differ a b h e = let same = (eq_iff a b).1 e in cc (same, h)

a-differs-b : node_a.local_node ≢ node_b.local_node
a-differs-b = differ "a" "b" refl

node_ranges_apart_example :
    AreApart (get_node_partition_range node_a) (get_node_partition_range node_b)
node_ranges_apart_example =
    node_ranges_apart node_a node_b (Perm.refl _) a_listed b_listed a-differs-b (omega arith)

prioritize_seed_servers-listed_example :
    (pre post : List String) × (sort_strings nodes ≡ pre ++ "a" ∷ post)
    × (¬ Mem "a" post)
    × (prioritize_seed_servers "a" nodes ≡ some (post ++ pre))
    × Perm ("a" ∷ post ++ pre) nodes
prioritize_seed_servers-listed_example =
    prioritize_seed_servers-listed "a" "b" "a" ("c" ∷ []) a_listed

d_absent : ¬ Mem "d" nodes
d_absent m = Or.elim ⊥_prop (mem-cons.0 m) (differ "d" "b" refl) (λ m'.
    Or.elim ⊥_prop (mem-cons.0 m') (differ "d" "a" refl) (λ m''.
      Or.elim ⊥_prop (mem-cons.0 m'') (differ "d" "c" refl) (λ none_left. not-mem-nil none_left)))
