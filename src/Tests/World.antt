-- ===== src/Tests/World.antt =====
-- Concrete packages for the tests: floating-point numbers as integers, a priority queue that is a
-- list, and settings, members and partitions to run the code of app/ on.
use dynamiq.Messages.{Arrivals}
use dynamiq.Prelude.{ℕ, true, false, ◌≡◌, List, [], ◌∷◌, String, arith}
use dynamiq.Prelude.Int.{ℤ, pos, ◌≤ℤ◌, ltb_ℤ, ◌*ℤ◌, quot}
use dynamiq.Lane.{PQueue}
use dynamiq.Lane.ListQueue.{list_queue}
use dynamiq.Clock.{Floats, second}
use dynamiq.Nodes.{Memberlist}
use dynamiq.Partitions.{Partition, Partitions, Settings}
use dynamiq.Strconv.{atoi, itoa}

pub gt-seconds_mono : (d e x : ℤ) → d ≤ℤ e → ltb_ℤ x d ≡ true → ltb_ℤ x e ≡ true
gt-seconds_mono d e x h g = ground (arith, h, g)

-- A number of seconds is kept as its nanoseconds.
abbrev pub floats : Floats
floats = record {
  Float = ℤ;
  zero = pos 0;
  gt = λ a b. ltb_ℤ b a;
  seconds = λ d. d;
  to_int = λ f. quot f second;
  of_int = λ n. n *ℤ second;
  div = λ a b. quot (a *ℤ second) b;
  mul = λ a b. quot (a *ℤ b) second;
  floor = λ f. quot f second *ℤ second;
  parse_float = λ s. ((atoi s).0 *ℤ second, true);
  format_float = λ f. itoa (quot f second);
  gt-seconds_mono = λ d e x h g. gt-seconds_mono d e x h g;
}

abbrev pub lane : PQueue Partition
lane = list_queue

abbrev pub two_partitions : Settings floats
two_partitions = record {
  min_partitions = pos 2;
  visibility_timeout = pos 30000000000;
  max_partition_age = pos 432000000000000;
}

abbrev pub draw : ℤ → ℤ
draw i = i

abbrev pub nodes : List String
nodes = "b" ∷ "a" ∷ "c" ∷ []

abbrev pub node_a : Memberlist
node_a = record { members = nodes; local_node = "a" }

abbrev pub node_b : Memberlist
node_b = record { members = nodes; local_node = "b" }

-- The 24th of January of 2024, in nanoseconds.
abbrev pub noon : ℕ
noon = 1706090400000000000

-- One partition waits, used 60 seconds before.
abbrev pub waiting : Partitions lane
waiting = record {
  partitions =
      (record { id = pos 0; last_used = pos 1706090340000000000 }, pos 1706090340000000000) ∷ [];
  partition_count = pos 1;
  locked = false;
}

-- Each object is read before another is taken up.
abbrev pub all_read_first : List String → Arrivals
all_read_first [] = []
all_read_first (id ∷ ids) = (id, 0) ∷ all_read_first ids
