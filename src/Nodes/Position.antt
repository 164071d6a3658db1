-- ===== src/Nodes/Position.antt =====
-- The position of a node by `getNodePosition`, and the ranges of two nodes by
-- `GetNodePartitionRange` (app/partitions.go).
use dynamiq.Prelude.{
  ℕ, suc, ◌+◌, ◌≤◌, ◌<◌, ◌≡◌, ◌≢◌, refl, sym, ap, ◌∙◌, ◌⊎◌, inl, inr, List, [], ◌∷◌, Mem, Perm,
  String, true, false, arith, length, All, Bool-cases, if◌then◌else◌,
}
use dynamiq.Prelude.Text.{str_ltb, str_ltb_irrefl, str_ltb_trans, str_ltb_antisym}
use dynamiq.Nodes.Sorting.{
  sort_strings, insert_string, search_strings, count_below, length-sort_strings, IsSorted,
  sort_strings-IsSorted, All-not_below,
}
use dynamiq.Prelude.Int.{ℤ, pos}
use dynamiq.Prelude.Int64.{half64, max_int64}
use dynamiq.Prelude.Effects.{Outcome, ok}
use dynamiq.Nodes.{Memberlist, get_node_position, get_node_partition_range, range_at}
use dynamiq.Nodes.Range.{node_key, node_key-le, node_key_mono, range_at_lem}
use mathlib.Core.List.{Permᴰ, mem-cons, not-mem-nil}
use mathlib.Core.Path.{ap₂}
use mathlib.Core.Logic.{∥∥₁_elim}
use mathlib.Core.Logic.Or
use native.Mathlib.Bridge.{le_prop}
use native.Mathlib.Nat.{ℕ_set}

-- A position counts the smaller names, and an insertion counts one more.
count_below-insert_string :
    (x s : String) (ss : List String) → count_below x (insert_string s ss) ≡ count_below x (s ∷ ss)
unfolding count_below insert_string
count_below-insert_string x s [] = refl
count_below-insert_string x s (t ∷ ts) = ground (arith, count_below-insert_string x s ts)

count_below-sort_strings :
    (x : String) (ss : List String) → count_below x (sort_strings ss) ≡ count_below x ss
unfolding count_below sort_strings
count_below-sort_strings x [] = refl
count_below-sort_strings x (s ∷ ss) =
    count_below-insert_string x s (sort_strings ss)
    ∙ ap (λ n. (if str_ltb s x then 1 else 0) + n) (count_below-sort_strings x ss)

-- After an entry that is not below `x`, a sorted list has none that is.
count_below-none :
    (x : String) (ss : List String) → All (λ t. str_ltb t x ≡ false) ss → count_below x ss ≡ 0
unfolding count_below
count_below-none x [] h = refl
count_below-none x (s ∷ ss) h = ground (arith, count_below-none x ss h.1)

search_strings-count_below :
    (x : String) (ss : List String) → IsSorted ss → search_strings ss x ≡ count_below x ss
unfolding search_strings count_below
search_strings-count_below x [] h = refl
search_strings-count_below x (s ∷ ss) h = elim (Bool-cases (str_ltb s x)) [
  | inl e ↦ rw e (omega (arith, search_strings-count_below x ss h.1))
  | inr e ↦ rw e (omega (arith, count_below-none x ss (All-not_below x s ss e h.0)))
]

count_below-permᴰ :
    (x : String) {ss ts : List String} → Permᴰ ss ts → count_below x ss ≡ count_below x ts
unfolding count_below
count_below-permᴰ x Permᴰ.nil = refl
count_below-permᴰ x (Permᴰ.cons e p) =
    ap₂ (λ s n. (if str_ltb s x then 1 else 0) + n) e (count_below-permᴰ x p)
count_below-permᴰ x (Permᴰ.swap e f) = rw (e, f) (omega arith)
count_below-permᴰ x (Permᴰ.trans p q) = count_below-permᴰ x p ∙ count_below-permᴰ x q

-- The order of the names does not matter.
count_below-perm :
    (x : String) {ss ts : List String} → Perm ss ts → count_below x ss ≡ count_below x ts
count_below-perm x p = ∥∥₁_elim p (ℕ_set _ _) (count_below-permᴰ x)

-- A smaller name has a smaller position, if it is listed.
count_below_mono :
    (a b : String) (ss : List String) → str_ltb a b ≡ true → count_below a ss ≤ count_below b ss
unfolding count_below
count_below_mono a b [] h = omega arith
count_below_mono a b (s ∷ ss) h = ground (arith, count_below_mono a b ss h, str_ltb_trans s a b)

count_below-lt :
    (a b : String) (ss : List String)
    → str_ltb a b ≡ true
    → Mem a ss
    → count_below a ss < count_below b ss
unfolding count_below
count_below-lt a b [] h m = absurd (not-mem-nil m)
count_below-lt a b (s ∷ ss) h m =
    Or.elim le_prop (mem-cons.0 m)
      (λ e. rw (← e) (ground (arith, count_below_mono a b ss h, str_ltb_irrefl a)))
      (λ later. ground (arith, count_below-lt a b ss h later, str_ltb_trans s a b))

-- A listed name has a position below the number of names.
count_below-lt-length : (a : String) (ss : List String) → Mem a ss → count_below a ss < length ss
unfolding count_below
count_below-lt-length a [] m = absurd (not-mem-nil m)
count_below-lt-length a (s ∷ ss) m =
    Or.elim le_prop (mem-cons.0 m)
      (λ e. rw (← e) (ground (arith, count_below-le-length a ss, str_ltb_irrefl a)))
      (λ later. ground (arith, count_below-lt-length a ss later))
  where
    count_below-le-length : (a : String) (ss : List String) → count_below a ss ≤ length ss
    count_below-le-length a [] = omega arith
    count_below-le-length a (s ∷ ss) = ground (arith, count_below-le-length a ss)

length-permᴰ : {ss ts : List String} → Permᴰ ss ts → length ss ≡ length ts
length-permᴰ Permᴰ.nil = refl
length-permᴰ (Permᴰ.cons e p) = ap suc (length-permᴰ p)
length-permᴰ (Permᴰ.swap e f) = refl
length-permᴰ (Permᴰ.trans p q) = length-permᴰ p ∙ length-permᴰ q

length-perm : {ss ts : List String} → Perm ss ts → length ss ≡ length ts
length-perm p = ∥∥₁_elim p (ℕ_set _ _) length-permᴰ

-- The search in the sorted names counts the names that are smaller.
pub get_node_position_lem :
    (list : Memberlist)
    → get_node_position list ≡ (count_below list.local_node list.members, length list.members)
unfolding get_node_position
get_node_position_lem list = λ i. (
  (search_strings-count_below list.local_node (sort_strings list.members)
          (sort_strings-IsSorted list.members)
        ∙ count_below-sort_strings list.local_node list.members)
      i,
  length-sort_strings list.members i,
)

get_node_partition_range-range_at :
    (list : Memberlist)
    → get_node_partition_range list
      ≡ range_at (count_below list.local_node list.members) (length list.members)
get_node_partition_range-range_at list =
    unfold get_node_partition_range in
    ap (λ (p : ℕ × ℕ). range_at p.0 p.1) (get_node_position_lem list)

-- The number of names below that of the node.
abbrev position : Memberlist → ℕ
position list = count_below list.local_node list.members

-- The range of a listed node, of natural numbers that do not wrap.
pub get_node_partition_range_lem :
    (list : Memberlist)
    → Mem list.local_node list.members
    → length list.members < half64
    → get_node_partition_range list
      ≡ ok (
        pos (node_key (length list.members) (position list)),
        pos (node_key (length list.members) (position list + 1)),
      )
get_node_partition_range_lem list listed fits =
    get_node_partition_range-range_at list
    ∙ range_at_lem _ _ (count_below-lt-length list.local_node list.members listed) fits

-- Of two listed names the smaller one has the smaller position.
positions-differ :
    (v w : Memberlist)
    → Perm v.members w.members
    → Mem v.local_node v.members
    → Mem w.local_node w.members
    → v.local_node ≢ w.local_node
    → (position v < position w) ⊎ (position w < position v)
positions-differ v w same listed listed' differ =
    elim (Bool-cases (str_ltb v.local_node w.local_node)) [
      | inl less ↦ inl (
          rw (← count_below-perm w.local_node same)
            (count_below-lt v.local_node w.local_node v.members less listed))
      | inr not-less ↦ elim (Bool-cases (str_ltb w.local_node v.local_node)) [
        | inl less ↦ inr (
            rw (count_below-perm v.local_node same)
              (count_below-lt w.local_node v.local_node w.members less listed'))
        | inr neither ↦ absurd (differ (str_ltb_antisym v.local_node w.local_node not-less neither))
      ]
    ]

-- Two ranges of keys in the key space, one of them below the other.
pub record AreApart (r s : Outcome (ℤ × ℤ)) : Type 0 where
  pub low : ℕ
  pub high : ℕ
  pub low' : ℕ
  pub high' : ℕ
  pub first : r ≡ ok (pos low, pos high)
  pub second : s ≡ ok (pos low', pos high')
  pub proper : (low ≤ high) × (high ≤ max_int64) × (low' ≤ high') × (high' ≤ max_int64)
  pub apart : (high ≤ low') ⊎ (high' ≤ low)

-- Two nodes that see the same members, in any order and fewer than 2^63 of them, and have different
-- names among these, serve ranges of keys within the key space that have no key but an end in
-- common.
pub node_ranges_apart :
    (v w : Memberlist)
    → Perm v.members w.members
    → Mem v.local_node v.members
    → Mem w.local_node w.members
    → v.local_node ≢ w.local_node
    → length v.members < half64
    → AreApart (get_node_partition_range v) (get_node_partition_range w)
node_ranges_apart v w same listed listed' differ fits =
    let n = length v.members in
    let count : length w.members ≡ n = sym (length-perm same) in
    let p = position v in
    let q = position w in
    let below = count_below-lt-length v.local_node v.members listed in
    let below' : q < n = rw (← count) (count_below-lt-length w.local_node w.members listed') in
    record {
      low = node_key n p;
      high = node_key n (p + 1);
      low' = node_key n q;
      high' = node_key n (q + 1);
      first = get_node_partition_range_lem v listed fits;
      second = get_node_partition_range-range_at w ∙ rw count (range_at_lem q n below' fits);
      proper = (
        node_key_mono n p (p + 1) (omega arith),
        node_key-le n (p + 1) (omega arith),
        node_key_mono n q (q + 1) (omega arith),
        node_key-le n (q + 1) (omega arith),
      );
      apart = elim (positions-differ v w same listed listed' differ) [
        | inl less ↦ inl (node_key_mono n (p + 1) q (omega arith))
        | inr less ↦ inr (node_key_mono n (q + 1) p (omega arith))
      ];
    }
