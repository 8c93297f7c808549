-- ===== src/Registry/LongNames.antt =====
-- What the registry does with names of more than 63 bytes: an entry holds the first 63 bytes, but
-- stands in the chain of the whole name, while the clean-up of a process looks in the chain of the
-- name that the entry holds.
use swarmrt.Base.{
  ℕ, ◌<◌, ◌≡◌, refl, ◌≢◌, inl, inr, [], ◌∷◌, true, false, none, some, ◌==◌, arith, length, set,
  take, ==_refl, length-set, get_or-set, Bytes, bytes_eq_refl, take-take,
}
use mathlib.Core.Bool.{false≢true}
use swarmrt.Registry.{
  name_max, Entry, Registry, bucket_of, matches, find_entry, update, new_entry, insert, register,
  whereis, drop_own, remove_proc,
}
use swarmrt.Registry.Laws.{chain_at, bucket-lt, bucket_of-insert, chain_at-insert, register_cases}

matches_self :
    (name : Bytes) (proc : ℕ) (r : Registry) → matches name (new_entry name proc r) ≡ true
unfolding matches
matches_self name proc r = rw (take-take, bytes_eq_refl) refl

update_self {ℓ} : {A : Type ℓ} (f : ℕ → A) (k : ℕ) (v : A) → update f k v k ≡ v
update_self f k v = rw (==_refl k) refl

length-insert :
    (name : Bytes) (proc : ℕ) (r : Registry)
    → length (insert name proc r).buckets ≡ length r.buckets
unfolding insert
length-insert name proc r = length-set r.buckets _ _

own-insert :
    (name : Bytes) (proc : ℕ) (r : Registry)
    → (insert name proc r).reg_entry proc ≡ some (new_entry name proc r)
unfolding insert
own-insert name proc r = update_self r.reg_entry proc _

module _ (name : Bytes) (proc : ℕ) (r : Registry) where
  own : Entry
  own = new_entry name proc r

  filled : Registry
  filled = insert name proc r

  cleaned : Registry
  cleaned = remove_proc proc filled

  cleaned_lem : cleaned ≡ record filled {
    buckets =
        set filled.buckets
          (bucket_of own.name filled)
          (drop_own own.id (chain_at filled (bucket_of own.name filled)));
    reg_entry = update filled.reg_entry proc none;
  }
  unfolding remove_proc cleaned filled own
  cleaned_lem = rw (own-insert name proc r, remove_proc) refl

  bucket-cleaned : bucket_of name cleaned ≡ bucket_of name r
  unfolding bucket_of filled
  bucket-cleaned = rw (cleaned_lem, length-set, length-insert) refl

  -- The chain of the whole name keeps the entry.
  chain-cleaned :
      0 < length r.buckets
      → bucket_of (take name_max name) r ≢ bucket_of name r
      → chain_at cleaned (bucket_of name r) ≡ own ∷ chain_at r (bucket_of name r)
  unfolding filled own
  chain-cleaned sized apart =
      let i = bucket_of name r in
      let k = bucket_of own.name filled in
      let k' : k ≡ bucket_of (take name_max name) r =
        bucket_of-insert (take name_max name) name proc r in
      let inside : k < length filled.buckets = bucket-lt own.name filled (rw length-insert sized) in
      let ne : (k == i) ≡ false = ground (arith, k', apart) in
      rw
        (
          cleaned_lem,
          get_or-set filled.buckets k i (drop_own own.id (chain_at filled k)) [] inside,
          ne,
          chain_at-insert name proc r i sized,
          ==_refl,
        )
        refl

  find-cleaned :
      0 < length r.buckets
      → bucket_of (take name_max name) r ≢ bucket_of name r
      → find_entry name (chain_at cleaned (bucket_of name cleaned)) ≡ some own
  unfolding find_entry
  find-cleaned sized apart = rw (bucket-cleaned, chain-cleaned sized apart, matches_own) refl
    where
      matches_own : matches name own ≡ true
      matches_own = unfold own in matches_self name proc r

-- A name that hashes to another bucket than its first 63 bytes do still means its process after the
-- clean-up of that process has run, and the registration of any process under that name fails from
-- then on.
pub whereis-remove_proc_long :
    (name : Bytes) (proc other : ℕ) (r : Registry)
    → 0 < length r.buckets
    → (register name proc r).0 ≡ true
    → bucket_of (take name_max name) r ≢ bucket_of name r
    → let t = remove_proc proc (register name proc r).1 in
      (whereis name t ≡ some proc)
      × (t.reg_entry proc ≡ none)
      × (register name other t ≡ (false, t))
unfolding whereis cleaned filled own
whereis-remove_proc_long name proc other r sized ok apart = elim (register_cases name proc r) [
  | inl (e, _) ↦ absurd (false≢true (rw e at ok))
  | inr (e, free, new) ↦
      let found = find-cleaned name proc r sized apart in
      rw e (
        rw found refl,
        rw (cleaned_lem name proc r) (update_self (insert name proc r).reg_entry proc none),
        elim (register_cases name other (cleaned name proc r)) [
          | inl (k, _) ↦ k
          | inr (_, _, none_found) ↦ absurd (cc)
        ],
      )
]
