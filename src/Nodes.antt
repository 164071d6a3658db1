-- ===== src/Nodes.antt =====
-- Which part of the key space a node serves: `getNodePosition` and `GetNodePartitionRange` of
-- app/partitions.go. The membership list of github.com/hashicorp/memberlist enters as the names
-- that `Members()` answers and the name of `LocalNode()`.
pub mod Sorting
pub mod Range
pub mod Position
use dynamiq.Prelude.{ℕ, ◌+◌, Bool, List, [], ◌∷◌, String, length, if◌then◌else◌, ◌==◌, ◌≤◌}
use dynamiq.Prelude.Int.{ℤ, pos}
use dynamiq.Prelude.Int64.{max_int64, add64, mul64, div64}
use dynamiq.Prelude.Effects.{Outcome, ok, panic}
use Sorting.{sort_strings, search_strings}

pub record Memberlist : Type 0 where
  pub members : List String
  pub local_node : String

-- The position of this node among the sorted names, and the number of nodes.
unfoldable pub get_node_position : Memberlist → ℕ × ℕ
get_node_position list =
    let node_names = sort_strings list.members in
    (search_strings node_names list.local_node, length node_names)

-- An integer division by no nodes panics.
unfoldable pub range_at : ℕ → ℕ → Outcome (ℤ × ℤ)
range_at node_position node_count =
    let step = div64 (pos max_int64) (pos node_count) in
    if node_count == 0
    then panic
    else ok (mul64 (pos node_position) step, mul64 (add64 (pos node_position) (pos 1)) step)

unfoldable pub get_node_partition_range : Memberlist → Outcome (ℤ × ℤ)
unfolding get_node_position range_at
get_node_partition_range list =
    let (node_position, node_count) = get_node_position list in range_at node_position node_count
