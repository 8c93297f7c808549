-- ===== src/Groups.antt =====
-- The process groups of src/swarmrt_phase5.c. How the compiler widens a `char` to 32 bits, which
-- the hash depends on, is a parameter. The lock makes each operation one step.
pub mod Members
pub mod LongNames
use swarmrt.Base.{
  sub_32, ℕ, ◌+◌, ◌*◌, ◌%◌, ◌^◌, List, [], ◌∷◌, Bool, true, false, ◌||◌, Option, none, some,
  if◌then◌else◌, ◌==◌, map, get_or, set, take, select, Bytes, bytes_eq,
}
use swarmrt.Registry.{name_max}

abbrev pub num_buckets : ℕ
num_buckets = 256

-- `sw_pg_group_t`; the members are the newest first.
pub record Group : Type 0 where
  pub name : Bytes
  pub members : List ℕ
  pub count : ℕ

-- The walk of `pg_find` along a chain.
unfoldable pub find_group : Bytes → List Group → Option Group
find_group name [] = none
find_group name (g ∷ gs) = if bytes_eq g.name name then some g else find_group name gs

-- The chain after a change of the group that `pg_find` finds.
unfoldable pub change_group : Bytes → (Group → Group) → List Group → List Group
change_group name f [] = []
change_group name f (g ∷ gs) = if bytes_eq g.name name then f g ∷ gs else g ∷ change_group name f gs

unfoldable pub is_member : ℕ → List ℕ → Bool
is_member p [] = false
is_member p (q ∷ qs) = (q == p) || is_member p qs

-- The end of `sw_pg_join`: a process that is no member yet becomes the first.
unfoldable pub add_member : ℕ → Group → Group
unfolding is_member
add_member p g =
    if is_member p g.members
    then g
    else record g { members = p ∷ g.members; count = (g.count + 1) % 2 ^ 32 }

unfoldable pub drop_member : ℕ → List ℕ → List ℕ
drop_member p [] = []
drop_member p (q ∷ qs) = if q == p then qs else q ∷ drop_member p qs

-- The walk of `sw_pg_leave` that finds its process.
unfoldable pub remove_member : ℕ → Group → Group
unfolding drop_member
remove_member p g = record g { members = drop_member p g.members; count = sub_32 g.count 1 }

-- The inner loop of `sw_pg_cleanup_proc`: the members that stay, and how many go.
unfoldable pub drop_every : ℕ → List ℕ → ℕ × List ℕ
drop_every p [] = (0, [])
drop_every p (q ∷ qs) =
    let (n, rest) = drop_every p qs in if q == p then (n + 1, rest) else (n, q ∷ rest)

unfoldable pub forget : ℕ → Group → Group
unfolding drop_every
forget p g =
    let (n, rest) = drop_every p g.members in record g { members = rest; count = sub_32 g.count n }

-- `sw_pg_cleanup_proc`
unfoldable pub cleanup_proc : ℕ → List (List Group) → List (List Group)
unfolding forget
cleanup_proc p buckets = map (map (forget p)) buckets

abbrev pub members_in : Option Group → List ℕ
members_in none = []
members_in (some g) = g.members

module _ (widen : ℕ → ℕ) where
  hash_from : ℕ → Bytes → ℕ
  hash_from h [] = h
  hash_from h (c ∷ name) = hash_from ((h * 2 ^ 5 + h + widen c) % 2 ^ 32) name

  -- `pg_hash`
  unfoldable pub pg_hash : Bytes → ℕ
  unfolding hash_from
  pg_hash name = hash_from 5381 name % num_buckets

  -- `pg_find`
  unfoldable pub find : Bytes → List (List Group) → Option Group
  unfolding find_group
  find name buckets = find_group name (get_or buckets (pg_hash name) [])

  -- `sw_pg_join`, which always gives 0; the name of a new group is cut to 63 bytes.
  unfoldable pub join : Bytes → ℕ → List (List Group) → List (List Group)
  unfolding find change_group add_member
  join name p buckets =
      let i = pg_hash name in
      let chain = get_or buckets i [] in
      elim (find name buckets) [
        | none ↦
            set buckets i
              (add_member p (record { name = take name_max name; members = []; count = 0 }) ∷ chain)
        | some g ↦ set buckets i (change_group name (add_member p) chain)
      ]

  -- `sw_pg_leave`: true for 0, false for -1.
  unfoldable pub leave : Bytes → ℕ → List (List Group) → Bool × List (List Group)
  unfolding find change_group remove_member is_member
  leave name p buckets =
      let i = pg_hash name in
      elim (find name buckets) [
        | none ↦ (false, buckets)
        | some g ↦
            if is_member p g.members
            then (true, set buckets i (change_group name (remove_member p) (get_or buckets i [])))
            else (false, buckets)
      ]

  -- `sw_pg_members` without its bound.
  unfoldable pub all_members : Bytes → List (List Group) → List ℕ
  unfolding find
  all_members name buckets = members_in (find name buckets)

  -- `sw_pg_members`
  unfoldable pub members_of : Bytes → ℕ → List (List Group) → List ℕ
  unfolding all_members
  members_of name max buckets = take max (all_members name buckets)

  -- `sw_pg_dispatch`: the processes that the message is sent to, by the test on their state.
  unfoldable pub dispatch : (ℕ → Bool) → Bytes → List (List Group) → List ℕ
  unfolding all_members
  dispatch is_live name buckets = select is_live (all_members name buckets)

  -- `sw_pg_count`
  unfoldable pub group_count : Bytes → List (List Group) → ℕ
  unfolding find
  group_count name buckets = elim (find name buckets) [ none ↦ 0 | some g ↦ g.count ]
