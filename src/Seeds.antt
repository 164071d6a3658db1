-- ===== src/Seeds.antt =====
-- The seed servers of a node: `prioritizeSeedServers` of app/members.go, the list that
-- `GetCoreConfig` of app/config.go makes for it, and what `InitMemberList` joins. `logrus.Fatal` ends
-- the process: `none` stands for that.
pub mod Priority
pub mod Startup
use dynamiq.Prelude.{
  ℕ, zero, suc, ◌+◌, Option, none, some, List, [], ◌∷◌, ◌++◌, String, str_eq, length, map, take,
  drop, if◌then◌else◌,
}
use dynamiq.Prelude.Int.{ℤ}
use dynamiq.Nodes.Sorting.{sort_strings}
use dynamiq.Strconv.{itoa}
use dynamiq.Strings.{split_commas}
use Prim.Native.String.{◌++◌ as append}

-- `for i, elem := range seedServers { if elem == name { myPos = i } }`
unfoldable pub find_position : String → ℕ → ℕ → List String → ℕ
find_position name my_pos i [] = my_pos
find_position name my_pos i (elem ∷ rest) =
    find_position name (if str_eq elem name then i else my_pos) (suc i) rest

-- The sorted servers after the node's own position, then those before it.
unfoldable pub rotate_out : String → List String → List String
unfolding find_position
rotate_out name seed_servers =
    let my_pos = find_position name 0 0 seed_servers in
    drop (suc my_pos) seed_servers ++ take my_pos seed_servers

unfoldable pub prioritize_seed_servers : String → List String → Option (List String)
unfolding rotate_out
prioritize_seed_servers name [] = none
prioritize_seed_servers name (server ∷ []) = if str_eq server name then none else some (server ∷ [])
prioritize_seed_servers name (server ∷ other ∷ rest) =
    some (rotate_out name (sort_strings (server ∷ other ∷ rest)))

-- `name + ":" + strconv.Itoa(port)`
unfoldable pub address : String → ℤ → String
address name port = append name (append ":" (itoa port))

-- The list of seed servers from the text of the configuration.
unfoldable pub seed_servers : String → ℤ → Option (List String)
unfolding address split_commas
seed_servers seed_server seed_port =
    if str_eq seed_server ""
    then none
    else some (map (λ x. address x seed_port) (split_commas seed_server))

-- The servers that `InitMemberList` joins.
unfoldable pub join_servers : String → ℤ → List String → Option (List String)
unfolding address prioritize_seed_servers
join_servers name seed_port servers = prioritize_seed_servers (address name seed_port) servers
