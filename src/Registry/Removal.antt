-- ===== src/Registry/Removal.antt =====
-- What an unregistered name means.
use swarmrt.Base.{
  ◌≤◌, ◌≡◌, refl, sym, ◌∙◌, ◌↔◌, inl, inr, List, [], ◌∷◌, true, false, none, if◌then◌else◌, ◌==◌,
  arith, Bool-cases, ==_refl, ==_iff, length-set, get_or-set, Bytes, bytes_eq, bytes_eq_refl,
  bytes_eq_sound,
}
use mathlib.Core.Bool.{false≢true}
use swarmrt.Registry.{
  Entry, Registry, bucket_of, matches, find_entry, drop_entry, unregister, whereis,
}
use swarmrt.Registry.Laws.{Short, chain_at, count, IsValid, bucket-lt}
use swarmrt.Registry.Kept.{find_of_zero, unregister_cases}

-- An entry of a short name answers to no other short name.
matches_once :
    (name q : Bytes) (e : Entry)
    → Short name
    → Short q
    → matches name e ≡ true
    → matches q e ≡ true
    → name ≡ q
unfolding matches
matches_once name q e short_name short_q a b =
    sym short_name ∙ (sym (bytes_eq_sound _ _ a) ∙ (bytes_eq_sound _ _ b ∙ short_q))

find-drop_entry :
    (name q : Bytes) (chain : List Entry)
    → Short name
    → Short q
    → count name chain ≤ 1
    → find_entry q (drop_entry name chain) ≡ (if bytes_eq name q then none else find_entry q chain)
unfolding find_entry drop_entry count
find-drop_entry name q [] a b c = ground arith
find-drop_entry name q (e ∷ es) a b c = elim (Bool-cases (bytes_eq name q)) [
  | inl k ↦
      let same : name ≡ q = bytes_eq_sound name q k in
      ground (arith, find-drop_entry name q es a b, find_of_zero name es, same)
  | inr k ↦ ground (arith, find-drop_entry name q es a b, other k)
]
  where
    other : bytes_eq name q ≡ false → matches name e ≡ true → matches q e ≡ true → ⊥
    other k m n = false≢true (sym k ∙ rw (matches_once name q e a b m n) (bytes_eq_refl q))

-- A name of at most 63 bytes that is unregistered means nothing afterwards, and every other such
-- name means what it did; the call says whether the name was there.
pub whereis-unregister :
    (name q : Bytes) (r : Registry)
    → IsValid r
    → Short name
    → Short q
    → (whereis q (unregister name r).1 ≡ (if bytes_eq name q then none else whereis q r))
      × (((unregister name r).0 ≡ false) ↔ (whereis name r ≡ none))
unfolding whereis bucket_of
whereis-unregister name q r v a b =
    let j = bucket_of name r in
    elim (unregister_cases name r) [
      | inl (e, gone) ↦ rw e (
        elim (Bool-cases (bytes_eq name q)) [
          | inl k ↦ rw (k, ← bytes_eq_sound name q k, gone) refl
          | inr k ↦ rw k refl
        ],
        (λ _. rw gone refl, λ _. refl),
      )
      | inr (x, found, e) ↦ rw e (
        rw
            (
              length-set,
              get_or-set r.buckets j (bucket_of q r) (drop_entry name (chain_at r j)) []
                  (bucket-lt name r v.sized),
            )
            (elim (Bool-cases (bytes_eq name q)) [
              | inl k ↦
                  let same : name ≡ q = bytes_eq_sound name q k in
                  rw (k, ← same, ==_refl)
                    (rw
                      (
                        find-drop_entry name name (chain_at r j) a a (v.unique j name),
                        bytes_eq_refl,
                      )
                      refl)
              | inr k ↦ elim (Bool-cases (j == bucket_of q r)) [
                | inl m ↦
                    rw (k, m)
                      (rw
                        (
                          (==_iff j (bucket_of q r)).0 m,
                          find-drop_entry name q (chain_at r (bucket_of q r)) a b (v.unique _ name),
                          k,
                        )
                        refl)
                | inr m ↦ rw (k, m) refl
              ]
            ]),
        (λ h. cc, λ h. cc),
      )
    ]
