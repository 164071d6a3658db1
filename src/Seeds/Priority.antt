-- ===== src/Seeds/Priority.antt =====
-- What `prioritizeSeedServers` (app/members.go) returns, with and without the node among the seeds.
use dynamiq.Prelude.{
  ℕ, suc, ◌+◌, ◌≡◌, refl, sym, ap, ◌∙◌, some, List, [], ◌∷◌, ◌++◌, Perm, Mem, ◌⊎◌, String, str_eq,
  eq_iff, length, take, drop, arith, Bool-cases, inl, inr, if◌then◌else◌, subst,
}
use dynamiq.Nodes.Sorting.{sort_strings, sort_strings-perm, length-sort_strings}
use dynamiq.Seeds.{find_position, rotate_out, prioritize_seed_servers}
use mathlib.Core.List.{
  mem-cons_self, mem-cons, not-mem-nil, append-nil, perm_middle, perm_append_comm,
}
use mathlib.Core.HLevel.{⊥_prop}
use mathlib.Core.List.Perm
use mathlib.Core.Logic.Or

-- Without the name in the rest of the loop, the position stays.
find_position-stays :
    (name : String) (p i : ℕ) (l : List String) → ¬ Mem name l → find_position name p i l ≡ p
unfolding find_position
find_position-stays name p i [] absent = refl
find_position-stays name p i (x ∷ l) absent = elim (Bool-cases (str_eq x name)) [
  | inl e ↦ absurd (absent (rw ((eq_iff x name).0 e) mem-cons_self))
  | inr e ↦ rw e (find_position-stays name p (suc i) l (λ m. absent (mem-cons.1 (Or.inr m))))
]

-- The last occurrence of the name is found.
find_position-found :
    (name : String) (p i : ℕ) (pre post : List String)
    → ¬ Mem name post
    → find_position name p i (pre ++ name ∷ post) ≡ i + length pre
unfolding find_position
find_position-found name p i [] post absent =
    rw ((eq_iff name name).1 refl, find_position)
      (find_position-stays name i (suc i) post absent ∙ omega arith)
find_position-found name p i (x ∷ pre) post absent =
    find_position-found name (if str_eq x name then i else p) (suc i) pre post absent ∙ omega arith

take-length : (pre post : List String) → take (length pre) (pre ++ post) ≡ pre
take-length [] post = refl
take-length (x ∷ pre) post = ap (◌∷◌ x) (take-length pre post)

drop-length :
    (x : String) (pre post : List String) → drop (suc (length pre)) (pre ++ x ∷ post) ≡ post
drop-length x [] post = refl
drop-length x (y ∷ pre) post = drop-length x pre post

rotate_out-found :
    (name : String) (pre post : List String)
    → ¬ Mem name post
    → rotate_out name (pre ++ name ∷ post) ≡ post ++ pre
unfolding rotate_out
rotate_out-found name pre post absent =
    let found : find_position name 0 0 (pre ++ name ∷ post) ≡ length pre =
      find_position-found name 0 0 pre post absent ∙ omega arith in
    rw (found, take-length pre (name ∷ post), drop-length name pre post)

-- The last occurrence of a name, if it occurs.
split_last :
    (name : String) (l : List String)
    → (¬ Mem name l) ⊎ ((pre post : List String) × (l ≡ pre ++ name ∷ post) × (¬ Mem name post))
split_last name [] = inl not-mem-nil
split_last name (x ∷ l) = elim (split_last name l) [
  | inr (pre, post, e, absent) ↦ inr (x ∷ pre, post, ap (◌∷◌ x) e, absent)
  | inl absent ↦ elim (Bool-cases (str_eq x name)) [
    | inl same ↦ inr ([], l, ap (λ y. y ∷ l) ((eq_iff x name).0 same), absent)
    | inr other ↦ inl (λ m.
        Or.elim ⊥_prop (mem-cons.0 m)
          (λ e. let back = (eq_iff x name).1 (sym e) in cc (back, other)) absent)
  ]
]

-- A node that is among two or more seed servers is left out, once, at the last place where it
-- stands: the others are returned in ascending order, beginning with those behind the node and
-- going on with those before it.
pub prioritize_seed_servers-listed :
    (name a b : String) (rest : List String)
    → Mem name (a ∷ b ∷ rest)
    → (pre post : List String) × (sort_strings (a ∷ b ∷ rest) ≡ pre ++ name ∷ post)
      × (¬ Mem name post)
      × (prioritize_seed_servers name (a ∷ b ∷ rest) ≡ some (post ++ pre))
      × Perm (name ∷ post ++ pre) (a ∷ b ∷ rest)
unfolding prioritize_seed_servers
prioritize_seed_servers-listed name a b rest listed =
    elim (split_last name (sort_strings (a ∷ b ∷ rest))) [
      | inl absent ↦ absurd (absent ((Perm.mem_iff (sort_strings-perm (a ∷ b ∷ rest))).1 listed))
      | inr (pre, post, e, absent) ↦ (
        pre,
        post,
        e,
        absent,
        ap some (ap (rotate_out name) e ∙ rotate_out-found name pre post absent),
        Perm.trans (Perm.cons name (perm_append_comm post pre)) (
            Perm.trans (Perm.symm (perm_middle pre post))
              (subst (λ l. Perm l (a ∷ b ∷ rest)) e (sort_strings-perm (a ∷ b ∷ rest)))),
      )
    ]

rotate_out-absent : (name : String) (l : List String) → ¬ Mem name l → rotate_out name l ≡ drop 1 l
unfolding rotate_out
rotate_out-absent name l absent = rw (find_position-stays name 0 0 l absent) (append-nil (drop 1 l))

-- A node that is not among two or more seed servers still has one of them left out: the first one
-- in ascending order.
pub prioritize_seed_servers-absent :
    (name a b : String) (rest : List String)
    → ¬ Mem name (a ∷ b ∷ rest)
    → (first : String) × (others : List String) × (sort_strings (a ∷ b ∷ rest) ≡ first ∷ others)
      × (prioritize_seed_servers name (a ∷ b ∷ rest) ≡ some others)
unfolding prioritize_seed_servers
prioritize_seed_servers-absent name a b rest absent =
    first_of_sorted (sort_strings (a ∷ b ∷ rest)) refl
  where
    first_of_sorted :
        (l : List String)
        → sort_strings (a ∷ b ∷ rest) ≡ l
        → (first : String) × (others : List String) × (sort_strings (a ∷ b ∷ rest) ≡ first ∷ others)
          × (some (rotate_out name (sort_strings (a ∷ b ∷ rest))) ≡ some others)
    first_of_sorted [] e =
        let size = length-sort_strings (a ∷ b ∷ rest) in
        let none-left = ap length e in absurd (omega (arith, size, none-left))
    first_of_sorted (s ∷ l) e = (
      s,
      l,
      e,
      ap some (
          rotate_out-absent name (sort_strings (a ∷ b ∷ rest))
            (λ m. absent ((Perm.mem_iff (sort_strings-perm (a ∷ b ∷ rest))).0 m))
          ∙ ap (drop 1) e),
    )
