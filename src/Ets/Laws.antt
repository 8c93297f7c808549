-- ===== src/Ets/Laws.antt =====
-- A table that is a set is a map from keys to values.
use swarmrt.Base.{
  ℕ, ◌<◌, ◌≡◌, refl, sym, ◌∙◌, ◌≢◌, ◌⊎◌, inl, inr, List, [], true, false, Option, none, some,
  if◌then◌else◌, ◌==◌, arith, length, get_or, set, All, Bool-cases, ==_refl, ==_iff, length-set,
  get_or-set, All-get_or, All-set,
}
use mathlib.Core.Bool.{false≢true}
use swarmrt.Ets.{
  Val, Floats, float, val_eq, raw_hash, Entry, plain_set, Table, num_buckets, check_read,
  check_write, key_eq, hash_key, mix, find, insert_in, lookup_in, delete_in,
}
use swarmrt.Ets.Keys.{IsExact, key_eq-hash_key}
use swarmrt.Ets.Chains.{IsUnique, find-put, find-delete_from, put-IsUnique, delete_from-IsUnique}

module _ (fl : Floats) (mem : ℕ → Val) where
  -- A set with 64 chains, none of which has two entries of one key.
  pub record IsValid (t : Table) : Type 0 where
    pub set_kind : t.kind ≡ plain_set
    pub sized : length t.buckets ≡ num_buckets
    pub unique : All (IsUnique fl mem) t.buckets

  hash_key-lt : (k : ℕ) → hash_key fl mem k < num_buckets
  unfolding hash_key mix
  hash_key-lt k = omega arith

  -- The chain of `q` after the chain of `k` has been changed.
  chain_of :
      (k q : ℕ) (es : List Entry) (t : Table)
      → length t.buckets ≡ num_buckets
      → get_or (set t.buckets (hash_key fl mem k) es) (hash_key fl mem q) [] ≡ (
          if hash_key fl mem k == hash_key fl mem q
          then es
          else get_or t.buckets (hash_key fl mem q) [])
  chain_of k q es t sized =
      get_or-set t.buckets (hash_key fl mem k) (hash_key fl mem q) es [] (rw sized (hash_key-lt k))

  -- A change of one chain that finds `new` for the equals of `k` and what it found for all others
  -- does so for the table.
  find_of_chain :
      (k q : ℕ) (es : List Entry) (new : Option ℕ) (t : Table)
      → length t.buckets ≡ num_buckets
      → IsExact (mem q)
      → find fl mem q es ≡ (
          if key_eq fl mem k q
          then new
          else find fl mem q (get_or t.buckets (hash_key fl mem k) []))
      → find fl mem q (get_or (set t.buckets (hash_key fl mem k) es) (hash_key fl mem q) []) ≡ (
          if key_eq fl mem k q
          then new
          else find fl mem q (get_or t.buckets (hash_key fl mem q) []))
  find_of_chain k q es new t sized exact h =
      rw (chain_of k q es t sized) (elim (Bool-cases (hash_key fl mem k == hash_key fl mem q)) [
        | inl e ↦
            let same : hash_key fl mem k ≡ hash_key fl mem q = (==_iff _ _).0 e in
            rw e (rw same at h)
        | inr e ↦ rw e (elim (Bool-cases (key_eq fl mem k q)) [
          | inl y ↦
              let same = key_eq-hash_key fl mem k q exact y in
              absurd (false≢true (sym e ∙ rw same (==_refl _)))
          | inr y ↦ rw y refl
        ])
      ])

  -- In a set, a key that is inserted by a process that may write is looked up, by a process that may
  -- read, as the new value under every equal key, and all other keys as before; floats excepted.
  pub lookup_in-insert_in :
      (self reader : Option ℕ) (k q v : ℕ) (t : Table)
      → IsValid t
      → IsExact (mem k)
      → IsExact (mem q)
      → check_write self t ≡ true
      → check_read reader t ≡ true
      → lookup_in fl mem reader q (insert_in fl mem self k v t).1
        ≡ (if key_eq fl mem k q then some v else lookup_in fl mem reader q t)
  unfolding lookup_in insert_in
  lookup_in-insert_in self reader k q v t valid h j w r =
      rw (w, lookup_in)
        (rw (r, lookup_in)
          (rw valid.set_kind (
            find_of_chain k q _ (some v) t valid.sized j
              (find-put fl mem k q v h j (get_or t.buckets (hash_key fl mem k) [])))))

  -- In a set, a key that is deleted by a process that may write is looked up as absent under every
  -- equal key, and all other keys as before; floats excepted.
  pub lookup_in-delete_in :
      (self reader : Option ℕ) (k q : ℕ) (t : Table)
      → IsValid t
      → IsExact (mem k)
      → IsExact (mem q)
      → check_write self t ≡ true
      → check_read reader t ≡ true
      → lookup_in fl mem reader q (delete_in fl mem self k t).1
        ≡ (if key_eq fl mem k q then none else lookup_in fl mem reader q t)
  unfolding lookup_in delete_in
  lookup_in-delete_in self reader k q t valid h j w r =
      let chain = get_or t.buckets (hash_key fl mem k) [] in
      let alone : IsUnique fl mem chain =
        All-get_or (IsUnique fl mem) t.buckets (hash_key fl mem k) [] valid.unique tt in
      rw (w, lookup_in)
        (rw (r, lookup_in)
          (rw valid.set_kind (
            find_of_chain k q _ none t valid.sized j
              (find-delete_from fl mem k q chain h j alone))))

  -- Insertion and deletion keep a set valid, whoever calls them, and change nothing for a process that
  -- may not write, which is told so.
  pub write-IsValid :
      (self : Option ℕ) (k v : ℕ) (t : Table)
      → IsValid t
      → IsValid (insert_in fl mem self k v t).1
        × IsValid (delete_in fl mem self k t).1
        × ((check_write self t ≡ true)
            ⊎ (insert_in fl mem self k v t ≡ (false, t)) × (delete_in fl mem self k t ≡ (false, t)))
  unfolding insert_in delete_in
  write-IsValid self k v t valid =
      let chain = get_or t.buckets (hash_key fl mem k) [] in
      let alone : IsUnique fl mem chain =
        All-get_or (IsUnique fl mem) t.buckets (hash_key fl mem k) [] valid.unique tt in
      elim (Bool-cases (check_write self t)) [
        | inl w ↦ rw w (
          record {
            set_kind = valid.set_kind;
            sized = rw length-set valid.sized;
            unique =
                All-set (IsUnique fl mem) t.buckets (hash_key fl mem k) _ valid.unique
                  (rw valid.set_kind (put-IsUnique fl mem k v chain alone));
          },
          record {
            set_kind = valid.set_kind;
            sized = rw length-set valid.sized;
            unique =
                All-set (IsUnique fl mem) t.buckets (hash_key fl mem k) _ valid.unique
                  (rw valid.set_kind (delete_from-IsUnique fl mem k chain alone));
          },
          inl refl,
        )
        | inr w ↦ rw w (valid, valid, inr (refl, refl))
      ]

  hash_key-float : (k f : ℕ) → mem k ≡ float f → hash_key fl mem k ≡ mix k
  unfolding hash_key raw_hash
  hash_key-float k f a = rw a refl

  key_eq-float :
      (k q f g : ℕ)
      → mem k ≡ float f
      → mem q ≡ float g
      → fl.feq f g ≡ true
      → key_eq fl mem k q ≡ true
  unfolding key_eq val_eq
  key_eq-float k q f g a b same = elim (Bool-cases (k == q)) [
    | inl e ↦ rw (e, key_eq) refl
    | inr e ↦ rw (e, key_eq) (rw (a, b) same)
  ]

  -- Two keys that hold equal floats, and whose addresses lie in different chains of a set, are equal
  -- keys, yet an insertion under one of them leaves every lookup under the other as it was.
  pub lookup_in-insert_in_float :
      (self reader : Option ℕ) (k q v f g : ℕ) (t : Table)
      → IsValid t
      → mem k ≡ float f
      → mem q ≡ float g
      → fl.feq f g ≡ true
      → mix k ≢ mix q
      → (key_eq fl mem k q ≡ true)
        × (lookup_in fl mem reader q (insert_in fl mem self k v t).1 ≡ lookup_in fl mem reader q t)
  unfolding lookup_in insert_in
  lookup_in-insert_in_float self reader k q v f g t valid a b same apart = (
    key_eq-float k q f g a b same,
    elim (Bool-cases (check_write self t)) [
      | inl w ↦ elim (Bool-cases (check_read reader t)) [
        | inl r ↦
            let far : (hash_key fl mem k == hash_key fl mem q) ≡ false =
              rw (hash_key-float k f a, hash_key-float q g b) (ground (arith, apart)) in
            rw (w, lookup_in) (rw (r, lookup_in) (rw (chain_of k q _ t valid.sized, far) refl))
        | inr r ↦ rw (w, lookup_in) (rw (r, lookup_in) refl)
      ]
      | inr w ↦ rw w refl
    ],
  )
