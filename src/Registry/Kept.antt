-- ===== src/Registry/Kept.antt =====
-- Every operation keeps the registry valid.
use swarmrt.Base.{
  ℕ, ◌≤◌, ◌<◌, ◌≡◌, refl, sym, ◌⊎◌, inl, inr, List, [], ◌∷◌, true, false, none, some, ◌==◌, arith,
  length, set, take, All, Bool-cases, Option-cases, length-set, get_or-set, Bytes, prefix_eq,
  bytes_eq_sound, take-take,
}
use swarmrt.Registry.{
  name_max, Entry, Registry, bucket_of, matches, find_entry, update, new_entry, insert, register,
  drop_entry, unregister, drop_own, remove_proc,
}
use swarmrt.Registry.Laws.{Short, chain_at, count, IsValid, bucket-lt, register_cases}

count_of_none : (q : Bytes) (chain : List Entry) → find_entry q chain ≡ none → count q chain ≡ 0
unfolding count find_entry
count_of_none q [] h = refl
count_of_none q (e ∷ es) h = ground (arith, count_of_none q es)

pub find_of_zero : (q : Bytes) (chain : List Entry) → count q chain ≡ 0 → find_entry q chain ≡ none
unfolding count find_entry
find_of_zero q [] h = refl
find_of_zero q (e ∷ es) h = ground (arith, find_of_zero q es)

-- Names with the same first 63 bytes have the same entries.
matches_congr :
    (q name : Bytes) (e : Entry)
    → take name_max q ≡ take name_max name
    → matches q e ≡ matches name e
unfolding matches
matches_congr q name e h = rw h refl

count_congr :
    (q name : Bytes) (chain : List Entry)
    → take name_max q ≡ take name_max name
    → count q chain ≡ count name chain
unfolding count
count_congr q name [] h = refl
count_congr q name (e ∷ es) h = rw (matches_congr q name e h, count_congr q name es h) refl

count-drop_entry :
    (name q : Bytes) (chain : List Entry) → count q (drop_entry name chain) ≤ count q chain
unfolding count drop_entry
count-drop_entry name q [] = omega arith
count-drop_entry name q (e ∷ es) = ground (arith, count-drop_entry name q es)

count-drop_own :
    (id : ℕ) (q : Bytes) (chain : List Entry) → count q (drop_own id chain) ≤ count q chain
unfolding count drop_own
count-drop_own id q [] = omega arith
count-drop_own id q (e ∷ es) = ground (arith, count-drop_own id q es)

Short-drop_entry :
    (name : Bytes) (chain : List Entry)
    → All (λ e. Short e.name) chain
    → All (λ e. Short e.name) (drop_entry name chain)
unfolding drop_entry
Short-drop_entry name [] h = h
Short-drop_entry name (e ∷ es) h = elim (Bool-cases (matches name e)) [
  | inl k ↦ rw k h.1
  | inr k ↦ rw k (h.0, Short-drop_entry name es h.1)
]

Short-drop_own :
    (id : ℕ) (chain : List Entry)
    → All (λ e. Short e.name) chain
    → All (λ e. Short e.name) (drop_own id chain)
unfolding drop_own
Short-drop_own id [] h = h
Short-drop_own id (e ∷ es) h = elim (Bool-cases (e.id == id)) [
  | inl k ↦ rw k h.1
  | inr k ↦ rw k (h.0, Short-drop_own id es h.1)
]

-- A write of one bucket that keeps both conditions of its chain keeps the registry valid.
set-IsValid :
    (r t : Registry) (j : ℕ) (chain : List Entry)
    → IsValid r
    → j < length r.buckets
    → t.buckets ≡ set r.buckets j chain
    → ((q : Bytes) → count q chain ≤ 1)
    → All (λ e. Short e.name) chain
    → IsValid t
set-IsValid r t j chain v inside e few short = record {
  sized = rw (e, length-set) v.sized;
  unique = λ i q.
      rw (e, get_or-set r.buckets j i chain [] inside)
        (elim (Bool-cases (j == i)) [ inl k ↦ rw k (few q) | inr k ↦ rw k (v.unique i q) ]);
  short = λ i.
      rw (e, get_or-set r.buckets j i chain [] inside)
        (elim (Bool-cases (j == i)) [ inl k ↦ rw k short | inr k ↦ rw k (v.short i) ]);
}

register-IsValid :
    (name : Bytes) (proc : ℕ) (r : Registry) → IsValid r → IsValid (register name proc r).1
register-IsValid name proc r v = elim (register_cases name proc r) [
  | inl (e, _) ↦ rw e v
  | inr (e, _, new) ↦
      let j = bucket_of name r in
      rw e (
        set-IsValid r (insert name proc r) j (new_entry name proc r ∷ chain_at r j) v
          (bucket-lt name r v.sized) (unfold insert in refl)
          (λ q.
            unfold count matches in
            elim (Bool-cases (prefix_eq name_max (take name_max name) q)) [
              | inl k ↦
                  let same : take name_max q ≡ take name_max name =
                    sym
                      (bytes_eq_sound (take name_max name) (take name_max q) (rw take-take at k)) in
                  ground (
                    arith,
                    count_congr q name (chain_at r j) same,
                    count_of_none name (chain_at r j) new,
                  )
              | inr k ↦ ground (arith, v.unique j q)
            ])
          (take-take name_max name, v.short j))
]

pub unregister_cases :
    (name : Bytes) (r : Registry)
    → (unregister name r ≡ (false, r)) × (find_entry name (chain_at r (bucket_of name r)) ≡ none)
      ⊎ ((e : Entry) × (find_entry name (chain_at r (bucket_of name r)) ≡ some e)
          × (unregister name r ≡ (
            true,
            record r {
              buckets =
                  set r.buckets
                    (bucket_of name r)
                    (drop_entry name (chain_at r (bucket_of name r)));
              reg_entry = update r.reg_entry e.proc none;
            },
          )))
unfolding unregister
unregister_cases name r = elim (Option-cases (find_entry name (chain_at r (bucket_of name r)))) [
  | inl h ↦ inl (rw (h, unregister) refl, h)
  | inr (e, h) ↦ inr (e, h, rw (h, unregister) refl)
]

unregister-IsValid : (name : Bytes) (r : Registry) → IsValid r → IsValid (unregister name r).1
unregister-IsValid name r v = elim (unregister_cases name r) [
  | inl (e, _) ↦ rw e v
  | inr (x, found, e) ↦
      let j = bucket_of name r in
      rw e (
        set-IsValid r _ j (drop_entry name (chain_at r j)) v (bucket-lt name r v.sized) refl
          (λ q. omega (arith, count-drop_entry name q (chain_at r j), v.unique j q))
          (Short-drop_entry name (chain_at r j) (v.short j)))
]

remove_proc-IsValid : (proc : ℕ) (r : Registry) → IsValid r → IsValid (remove_proc proc r)
unfolding remove_proc
remove_proc-IsValid proc r v = elim (Option-cases (r.reg_entry proc)) [
  | inl h ↦ rw (h, remove_proc) v
  | inr (own, h) ↦
      let j = bucket_of own.name r in
      rw (h, remove_proc)
        (set-IsValid r _ j (drop_own own.id (chain_at r j)) v (bucket-lt own.name r v.sized) refl
          (λ q. omega (arith, count-drop_own own.id q (chain_at r j), v.unique j q))
          (Short-drop_own own.id (chain_at r j) (v.short j)))
]

-- The operations keep the registry valid.
pub op-IsValid :
    (name : Bytes) (proc : ℕ) (r : Registry)
    → IsValid r
    → IsValid (register name proc r).1
      × IsValid (unregister name r).1
      × IsValid (remove_proc proc r)
op-IsValid name proc r v =
    (register-IsValid name proc r v, unregister-IsValid name r v, remove_proc-IsValid proc r v)
