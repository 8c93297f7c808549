-- ===== src/Groups/LongNames.antt =====
-- Groups with names of more than 63 bytes: the stored name is cut, and the search compares whole names.
use swarmrt.Base.{
  ℕ, ◌<◌, ◌≡◌, refl, ◌≢◌, inl, inr, List, [], ◌∷◌, false, none, arith, length, get_or, take, All,
  Bool-cases, ==_refl, get_or-set, All-get_or, Bytes, bytes_eq, bytes_eq_sound, take-take,
}
use swarmrt.Registry.{name_max}
use swarmrt.Groups.{
  num_buckets, Group, find_group, add_member, is_member, pg_hash, find, join, all_members,
}

-- Every stored name has at most 63 bytes.
abbrev pub IsCut : List (List Group) → Type 0
IsCut buckets = All (λ chain. All (λ g. take name_max g.name ≡ g.name) chain) buckets

not_same :
    (a name : Bytes) → take name_max a ≡ a → take name_max name ≢ name → bytes_eq a name ≡ false
not_same a name short long = elim (Bool-cases (bytes_eq a name)) [
  | inl y ↦ absurd (long (rw (bytes_eq_sound a name y) at short))
  | inr y ↦ y
]

find_group-long :
    (name : Bytes) (chain : List Group)
    → All (λ g. take name_max g.name ≡ g.name) chain
    → take name_max name ≢ name
    → find_group name chain ≡ none
unfolding find_group
find_group-long name [] h long = refl
find_group-long name (g ∷ chain) h long =
    rw (not_same g.name name h.0 long, find_group) (find_group-long name chain h.1 long)

module _ (widen : ℕ → ℕ) where
  -- When every stored name has at most 63 bytes, a process that joins a group of a longer name is not
  -- found among the members of that group afterwards: the group has none.
  pub all_members-join_long :
      (name : Bytes) (p : ℕ) (buckets : List (List Group))
      → length buckets ≡ num_buckets
      → IsCut buckets
      → take name_max name ≢ name
      → all_members widen name (join widen name p buckets) ≡ []
  unfolding all_members join find pg_hash add_member is_member
  all_members-join_long name p buckets sized cut long =
      let i = pg_hash widen name in
      let short : All (λ g. take name_max g.name ≡ g.name) (get_or buckets i []) =
        All-get_or (λ chain. All (λ g. take name_max g.name ≡ g.name) chain) buckets i [] cut tt in
      let old = find_group-long name (get_or buckets i []) short long in
      let inside : i < length buckets = rw sized (omega arith) in
      let fresh : Group = record { name = take name_max name; members = p ∷ []; count = 1 } in
      let new =
        find_group-long name (fresh ∷ get_or buckets i []) (take-take name_max name, short) long in
      rw (old, join) (rw (get_or-set buckets i i _ [] inside, ==_refl i) (rw new refl))
