-- ===== src/Seeds/Startup.antt =====
-- The servers that a node joins when it starts (app/config.go and app/members.go).
use dynamiq.Prelude.{◌≡◌, refl, some, List, ◌∷◌, ◌++◌, map, Mem, Perm, String, false, str_eq}
use dynamiq.Prelude.Int.{ℤ}
use dynamiq.Seeds.{address, seed_servers, join_servers}
use dynamiq.Seeds.Priority.{prioritize_seed_servers-listed}
use dynamiq.Strings.{split_commas}
use mathlib.Core.List.{mem-map_of_mem}

-- For a node whose name is among the two or more names between the commas of the configured text,
-- the list of seed servers is made, and the addresses that the node joins are those of this list,
-- up to the order, with its own address left out once.
pub join_servers-others :
    (text name a b : String) (rest : List String) (port : ℤ)
    → str_eq text "" ≡ false
    → split_commas text ≡ a ∷ b ∷ rest
    → Mem name (a ∷ b ∷ rest)
    → (servers others : List String) × (seed_servers text port ≡ some servers)
      × (join_servers name port servers ≡ some others)
      × Perm (address name port ∷ others) servers
unfolding seed_servers join_servers
join_servers-others text name a b rest port given split m =
    let (pre, post, sorted, last, joined, whole) =
      prioritize_seed_servers-listed (address name port) (address a port) (address b port)
        (map (λ x. address x port) rest) (mem-map_of_mem (λ x. address x port) m) in
    (map (λ x. address x port) (a ∷ b ∷ rest), post ++ pre, rw (given, split) refl, joined, whole)
