-- ===== src/Groups/Members.antt =====
-- The members of a group after a join, a leave and a clean-up.
use swarmrt.Base.{
  ℕ, zero, suc, ◌<◌, ◌≡◌, refl, sym, ap, ◌∙◌, ◌≢◌, inl, inr, List, [], ◌∷◌, true, false, not,
  Option, none, some, if◌then◌else◌, ◌==◌, map, arith, length, get_or, set, take, select,
  Bool-cases, Option-cases, ==_refl, ==_iff, get_or-set, Bytes, bytes_eq, bytes_eq_refl,
  bytes_eq_sound,
}
use mathlib.Core.Bool.{false≢true}
use swarmrt.Registry.{name_max}
use swarmrt.Groups.{
  num_buckets, Group, find_group, change_group, is_member, add_member, drop_every, forget,
  cleanup_proc, pg_hash, find, join, members_in, all_members,
}

abbrev map_some : (Group → Group) → Option Group → Option Group
map_some f none = none
map_some f (some g) = some (f g)

bytes_apart : (a n q : Bytes) → bytes_eq a n ≡ false → bytes_eq a q ≡ true → bytes_eq n q ≡ false
bytes_apart a n q h e = elim (Bool-cases (bytes_eq n q)) [
  | inl y ↦
      let same : a ≡ n = bytes_eq_sound a q e ∙ sym (bytes_eq_sound n q y) in
      absurd (false≢true (sym h ∙ rw same (bytes_eq_refl n)))
  | inr y ↦ y
]

module _ (f : Group → Group) (named : (g : Group) → (f g).name ≡ g.name) where
  find-change_group :
      (name q : Bytes) (gs : List Group)
      → find_group q (change_group name f gs)
        ≡ (if bytes_eq name q then map_some f (find_group q gs) else find_group q gs)
  unfolding find_group change_group
  find-change_group name q [] = elim (Bool-cases (bytes_eq name q)) [
    | inl y ↦ rw y refl
    | inr y ↦ rw y refl
  ]
  find-change_group name q (g ∷ gs) = elim (Bool-cases (bytes_eq g.name name)) [
    | inl e ↦
        let same : g.name ≡ name = bytes_eq_sound g.name name e in
        let here : bytes_eq (f g).name q ≡ bytes_eq name q = rw (named g, same) refl in
        let there : bytes_eq g.name q ≡ bytes_eq name q = rw same refl in
        rw (e, change_group)
          (elim (Bool-cases (bytes_eq name q)) [
            | inl y ↦
                let a : bytes_eq (f g).name q ≡ true = here ∙ y in
                let b : bytes_eq g.name q ≡ true = there ∙ y in rw (y, a, b, find_group) refl
            | inr y ↦
                let a : bytes_eq (f g).name q ≡ false = here ∙ y in
                let b : bytes_eq g.name q ≡ false = there ∙ y in rw (y, a, b, find_group) refl
          ])
    | inr e ↦
        rw (e, change_group)
          (elim (Bool-cases (bytes_eq g.name q)) [
            | inl y ↦ rw (y, find_group) (rw (bytes_apart g.name name q e y) refl)
            | inr y ↦ rw (y, find_group) (find-change_group name q gs)
          ])
  ]

  find-map : (q : Bytes) (gs : List Group) → find_group q (map f gs) ≡ map_some f (find_group q gs)
  unfolding find_group
  find-map q [] = refl
  find-map q (g ∷ gs) = elim (Bool-cases (bytes_eq g.name q)) [
    | inl y ↦ let a : bytes_eq (f g).name q ≡ true = rw (named g) y in rw (y, a, find_group) refl
    | inr y ↦
        let a : bytes_eq (f g).name q ≡ false = rw (named g) y in
        rw (y, a, find_group) (find-map q gs)
  ]

add_member-name : (p : ℕ) (g : Group) → (add_member p g).name ≡ g.name
unfolding add_member
add_member-name p g = elim (Bool-cases (is_member p g.members)) [
  | inl e ↦ rw (e, add_member) refl
  | inr e ↦ rw (e, add_member) refl
]

forget-name : (p : ℕ) (g : Group) → (forget p g).name ≡ g.name
unfolding forget
forget-name p g = refl

-- The members with a process, which is no member twice.
abbrev pub with_member : ℕ → List ℕ → List ℕ
with_member p ms = if is_member p ms then ms else p ∷ ms

members-add_member : (p : ℕ) (g : Group) → (add_member p g).members ≡ with_member p g.members
unfolding add_member
members-add_member p g = elim (Bool-cases (is_member p g.members)) [
  | inl e ↦ rw (e, add_member) refl
  | inr e ↦ rw (e, add_member) refl
]

drop_every_lem : (p : ℕ) (ms : List ℕ) → (drop_every p ms).1 ≡ select (λ q. not (q == p)) ms
unfolding drop_every select
drop_every_lem p [] = refl
drop_every_lem p (q ∷ ms) = elim (Bool-cases (q == p)) [
  | inl e ↦ rw (e, drop_every, select) (drop_every_lem p ms)
  | inr e ↦ rw (e, drop_every, select) (ap (λ l. q ∷ l) (drop_every_lem p ms))
]

get_or-map {ℓ κ} :
    {A : Type ℓ} {B : Type κ} (f : A → B) (xs : List A) (i : ℕ) (d : A)
    → get_or (map f xs) i (f d) ≡ f (get_or xs i d)
get_or-map f [] i d = refl
get_or-map f (x ∷ xs) zero d = refl
get_or-map f (x ∷ xs) (suc i) d = get_or-map f xs i d

members_in-forget :
    (p : ℕ) (o : Option Group)
    → members_in (map_some (forget p) o) ≡ select (λ q. not (q == p)) (members_in o)
unfolding forget
members_in-forget p none = unfold select in refl
members_in-forget p (some g) = drop_every_lem p g.members

members_in-add_member :
    (p : ℕ) (o : Option Group)
    → o ≢ none
    → members_in (map_some (add_member p) o) ≡ with_member p (members_in o)
members_in-add_member p none h = absurd (h refl)
members_in-add_member p (some g) h = members-add_member p g

module _ (widen : ℕ → ℕ) where
  -- The clean-up of a process takes it out of every group, and no other process out of any.
  pub all_members-cleanup_proc :
      (p : ℕ) (name : Bytes) (buckets : List (List Group))
      → all_members widen name (cleanup_proc p buckets)
        ≡ select (λ q. not (q == p)) (all_members widen name buckets)
  unfolding all_members cleanup_proc find
  all_members-cleanup_proc p name buckets =
      let i = pg_hash widen name in
      rw
        (
          get_or-map (map (forget p)) buckets i [],
          find-map (forget p) (forget-name p) name (get_or buckets i []),
        )
        (members_in-forget p (find_group name (get_or buckets i [])))

  pg_hash-lt : (name : Bytes) → pg_hash widen name < num_buckets
  unfolding pg_hash
  pg_hash-lt name = omega arith

  -- A change of the chain of `name` that gives the group of that name the members `new` and keeps
  -- those of all other groups does so for the table.
  all_members_of_chain :
      (name q : Bytes) (es : List Group) (new : List ℕ) (buckets : List (List Group))
      → length buckets ≡ num_buckets
      → members_in (find_group q es) ≡ (
          if bytes_eq name q
          then new
          else members_in (find_group q (get_or buckets (pg_hash widen name) [])))
      → all_members widen q (set buckets (pg_hash widen name) es)
        ≡ (if bytes_eq name q then new else all_members widen q buckets)
  unfolding all_members find
  all_members_of_chain name q es new buckets sized h =
      rw
        (get_or-set buckets (pg_hash widen name) (pg_hash widen q) es []
          (rw sized (pg_hash-lt name)))
        (elim (Bool-cases (pg_hash widen name == pg_hash widen q)) [
          | inl e ↦
              let same : pg_hash widen name ≡ pg_hash widen q = (==_iff _ _).0 e in
              rw e (rw same at h)
          | inr e ↦ rw e (elim (Bool-cases (bytes_eq name q)) [
            | inl y ↦
                let same : name ≡ q = bytes_eq_sound name q y in
                absurd (false≢true (sym e ∙ rw same (==_refl (pg_hash widen q))))
            | inr y ↦ rw y refl
          ])
        ])

  find_same :
      (name q : Bytes) (buckets : List (List Group))
      → bytes_eq name q ≡ true
      → find widen name buckets ≡ find widen q buckets
  find_same name q buckets y = ap (λ n. find widen n buckets) (bytes_eq_sound name q y)

  chain_same :
      (name q : Bytes) (buckets : List (List Group))
      → bytes_eq name q ≡ true
      → find_group q (get_or buckets (pg_hash widen name) []) ≡ find widen q buckets
  unfolding find
  chain_same name q buckets y =
      ap (λ n. find_group q (get_or buckets (pg_hash widen n) [])) (bytes_eq_sound name q y)

  joined_new :
      (name q : Bytes) (p : ℕ) (buckets : List (List Group))
      → take name_max name ≡ name
      → find widen name buckets ≡ none
      → members_in (
          find_group q (
            add_member p (record { name = take name_max name; members = []; count = 0 })
            ∷ get_or buckets (pg_hash widen name) []))
        ≡ (if bytes_eq name q
            then with_member p (all_members widen q buckets)
            else members_in (find_group q (get_or buckets (pg_hash widen name) [])))
  unfolding find_group add_member is_member all_members
  joined_new name q p buckets short none_yet = elim (Bool-cases (bytes_eq name q)) [
    | inl y ↦
        let gone : find widen q buckets ≡ none = sym (find_same name q buckets y) ∙ none_yet in
        rw (short, y, gone) refl
    | inr y ↦ rw (short, y) refl
  ]

  joined_old :
      (name q : Bytes) (p : ℕ) (buckets : List (List Group)) {g : Group}
      → find widen name buckets ≡ some g
      → members_in
          (find_group q (change_group name (add_member p) (get_or buckets (pg_hash widen name) [])))
        ≡ (if bytes_eq name q
            then with_member p (all_members widen q buckets)
            else members_in (find_group q (get_or buckets (pg_hash widen name) [])))
  unfolding all_members
  joined_old name q p buckets {g} there =
      let chain = get_or buckets (pg_hash widen name) [] in
      rw (find-change_group (add_member p) (add_member-name p) name q chain)
        (elim (Bool-cases (bytes_eq name q)) [
          | inl y ↦
              let found : find_group q chain ≡ some g =
                chain_same name q buckets y ∙ (sym (find_same name q buckets y) ∙ there) in
              rw y (
                members_in-add_member p (find_group q chain) (λ n. let c = sym n ∙ found in cc)
                ∙ ap (λ o. with_member p (members_in o)) (chain_same name q buckets y))
          | inr y ↦ rw y refl
        ])

  -- A process that joins a group whose name has at most 63 bytes is a member of it afterwards, once
  -- and as the newest if it was none before; all other groups have the members that they had.
  pub all_members-join :
      (name q : Bytes) (p : ℕ) (buckets : List (List Group))
      → length buckets ≡ num_buckets
      → take name_max name ≡ name
      → all_members widen q (join widen name p buckets) ≡ (
          if bytes_eq name q
          then with_member p (all_members widen q buckets)
          else all_members widen q buckets)
  unfolding join
  all_members-join name q p buckets sized short =
      let chain = get_or buckets (pg_hash widen name) [] in
      elim (Option-cases (find widen name buckets)) [
        | inl none_yet ↦
            rw (none_yet, join)
              (all_members_of_chain name q _ (with_member p (all_members widen q buckets)) buckets
                sized (joined_new name q p buckets short none_yet))
        | inr (g, there) ↦
            rw (there, join)
              (all_members_of_chain name q (change_group name (add_member p) chain)
                (with_member p (all_members widen q buckets)) buckets sized
                (joined_old name q p buckets there))
      ]
