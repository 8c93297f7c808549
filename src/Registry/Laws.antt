-- ===== src/Registry/Laws.antt =====
-- The registry as a partial map from names of up to 63 bytes to processes.
use swarmrt.Base.{
  ℕ, ◌+◌, ◌≤◌, ◌<◌, ◌≡◌, refl, ◌≢◌, ◌⊎◌, inl, inr, List, [], ◌∷◌, true, false, Option, none, some,
  if◌then◌else◌, ◌==◌, arith, length, get_or, take, All, Bool-cases, Option-cases, ==_refl,
  length-set, get_or-set, Bytes, bytes_eq, prefix_eq, bytes_eq_refl, bytes_eq_sound, take-take,
}
use swarmrt.Registry.{
  name_max, Entry, Registry, bucket_of, matches, find_entry, new_entry, insert, register, proc_of,
  whereis,
}

-- A name that an entry holds whole.
abbrev pub Short : Bytes → Type 0
Short name = take name_max name ≡ name

abbrev pub chain_at : Registry → ℕ → List Entry
chain_at r i = get_or r.buckets i []

unfoldable pub count : Bytes → List Entry → ℕ
count q [] = 0
count q (e ∷ es) = (if matches q e then 1 else 0) + count q es

-- No name has two entries, and every entry holds a name of at most 63 bytes.
pub record IsValid (r : Registry) : Type 0 where
  pub sized : 0 < length r.buckets
  pub unique : (i : ℕ) (q : Bytes) → count q (chain_at r i) ≤ 1
  pub short : (i : ℕ) → All (λ e. Short e.name) (chain_at r i)

-- Two names of which one is short have the same first 63 bytes only if they are equal.
matches-Short :
    (q name : Bytes) → Short q → Short name → prefix_eq name_max name q ≡ bytes_eq name q
matches-Short q name a b = rw (a, b)

pub bucket-lt :
    (name : Bytes) (r : Registry) → 0 < length r.buckets → bucket_of name r < length r.buckets
unfolding bucket_of
bucket-lt name r h = omega arith

-- The two ways of a registration.
pub register_cases :
    (name : Bytes) (proc : ℕ) (r : Registry)
    → (register name proc r ≡ (false, r))
        × ((r.reg_entry proc ≢ none) ⊎ (find_entry name (chain_at r (bucket_of name r)) ≢ none))
      ⊎ (register name proc r ≡ (true, insert name proc r))
        × (r.reg_entry proc ≡ none)
        × (find_entry name (chain_at r (bucket_of name r)) ≡ none)
unfolding register insert
register_cases name proc r = elim (Option-cases (r.reg_entry proc)) [
  | inr (e, h) ↦ inl (rw (h, register) refl, inl (λ k. cc))
  | inl h ↦ elim (Option-cases (find_entry name (chain_at r (bucket_of name r)))) [
    | inr (e, k) ↦ inl (rw (h, k, register) refl, inr (λ l. cc))
    | inl k ↦ inr (rw (h, k, register) refl, h, k)
  ]
]

pub bucket_of-insert :
    (q name : Bytes) (proc : ℕ) (r : Registry) → bucket_of q (insert name proc r) ≡ bucket_of q r
unfolding bucket_of insert
bucket_of-insert q name proc r = rw length-set

pub chain_at-insert :
    (name : Bytes) (proc : ℕ) (r : Registry) (i : ℕ)
    → 0 < length r.buckets
    → chain_at (insert name proc r) i
      ≡ (if bucket_of name r == i then new_entry name proc r ∷ chain_at r i else chain_at r i)
unfolding insert
chain_at-insert name proc r i sized =
    let h = bucket-lt name r sized in
    ground (
      arith,
      get_or-set r.buckets (bucket_of name r) i
          (new_entry name proc r ∷ chain_at r (bucket_of name r)) [] h,
    )

find_entry-insert :
    (name q : Bytes) (proc : ℕ) (r : Registry) (chain : List Entry)
    → Short name
    → Short q
    → find_entry q (new_entry name proc r ∷ chain)
      ≡ (if bytes_eq name q then some (new_entry name proc r) else find_entry q chain)
unfolding find_entry matches
find_entry-insert name q proc r chain short_name short_q = rw (take-take, short_name, short_q) refl

whereis-insert :
    (name q : Bytes) (proc : ℕ) (r : Registry)
    → 0 < length r.buckets
    → Short name
    → Short q
    → whereis q (insert name proc r) ≡ (if bytes_eq name q then some proc else whereis q r)
unfolding whereis
whereis-insert name q proc r sized short_name short_q =
    rw (bucket_of-insert q name proc r, chain_at-insert name proc r (bucket_of q r) sized)
      (elim (Bool-cases (bytes_eq name q)) [
        | inl e ↦
            let same : name ≡ q = bytes_eq_sound name q e in
            rw
              (
                same,
                ==_refl,
                find_entry-insert q q proc r (chain_at r (bucket_of q r)) short_q short_q,
                bytes_eq_refl,
              )
              refl
        | inr e ↦ elim (Bool-cases (bucket_of name r == bucket_of q r)) [
          | inl b ↦
              rw
                (
                  b,
                  e,
                  find_entry-insert name q proc r (chain_at r (bucket_of q r)) short_name short_q,
                  e,
                )
                refl
          | inr b ↦ rw (b, e) refl
        ]
      ])

-- A name is registered if neither the name nor the process is taken; then the name means that
-- process and every other name, of at most 63 bytes, means what it did. Else nothing changes.
pub whereis-register :
    (name q : Bytes) (proc : ℕ) (r : Registry)
    → 0 < length r.buckets
    → Short name
    → Short q
    → ((register name proc r).0 ≡ true)
        × (r.reg_entry proc ≡ none)
        × (whereis name r ≡ none)
        × (whereis q (register name proc r).1
            ≡ (if bytes_eq name q then some proc else whereis q r))
      ⊎ (register name proc r ≡ (false, r)) × ((r.reg_entry proc ≢ none) ⊎ (whereis name r ≢ none))
unfolding whereis
whereis-register name q proc r sized short_name short_q = elim (register_cases name proc r) [
  | inl (e, taken) ↦ inr (e, elim taken [ inl t ↦ inl t | inr t ↦ inr (λ k. t (proc_of-none _ k)) ])
  | inr (e, free, new) ↦ inl (
      rw e (
        refl,
        free,
        unfold whereis in rw new refl,
        whereis-insert name q proc r sized short_name short_q,
      ))
]
  where
    proc_of-none : (o : Option Entry) → proc_of o ≡ none → o ≡ none
    proc_of-none none h = refl
    proc_of-none (some e) h = cc
