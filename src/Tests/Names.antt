-- ===== src/Tests/Names.antt =====
-- The registry on concrete names.
use swarmrt.Base.{
  ℕ, zero, suc, ◌≡◌, ◌≢◌, ◌⊎◌, refl, [], ◌∷◌, true, false, none, some, if◌then◌else◌, replicate,
  bytes_eq, Bytes, arith,
}
use swarmrt.Registry.{Registry, register, unregister, whereis, remove_proc}
use swarmrt.Registry.Laws.{chain_at, IsValid, count, whereis-register}
use swarmrt.Registry.Kept.{op-IsValid}

-- Three buckets and no entry.
abbrev no_names : Registry
no_names = record { buckets = [] ∷ [] ∷ [] ∷ []; reg_entry = λ _. none; next_id = 1 }

no_chain : (i : ℕ) → chain_at no_names i ≡ []
no_chain zero = refl
no_chain (suc zero) = refl
no_chain (suc (suc zero)) = refl
no_chain (suc (suc (suc i))) = refl

no_names-IsValid : IsValid no_names
unfolding count
no_names-IsValid = record {
  sized = omega arith;
  unique = λ i q. rw (no_chain i) (omega arith);
  short = λ i. rw (no_chain i) tt;
}

-- "ab" and "cd"
abbrev ab : Bytes
ab = 97 ∷ 98 ∷ []

abbrev cd : Bytes
cd = 99 ∷ 100 ∷ []

whereis-register_example :
    ((register ab 5 no_names).0 ≡ true)
      × (no_names.reg_entry 5 ≡ none)
      × (whereis ab no_names ≡ none)
      × (whereis cd (register ab 5 no_names).1
          ≡ (if bytes_eq ab cd then some 5 else whereis cd no_names))
    ⊎ (register ab 5 no_names ≡ (false, no_names))
      × ((no_names.reg_entry 5 ≢ none) ⊎ (whereis ab no_names ≢ none))
whereis-register_example = whereis-register ab cd 5 no_names (omega arith) refl refl

abbrev one_name : Registry
one_name = (register ab 5 no_names).1

one_name-IsValid : IsValid one_name
one_name-IsValid = (op-IsValid ab 5 no_names no_names-IsValid).0

op-IsValid_example :
    IsValid (register cd 6 one_name).1
    × IsValid (unregister cd one_name).1
    × IsValid (remove_proc 6 one_name)
op-IsValid_example = op-IsValid cd 6 one_name one_name-IsValid

-- 64 times "a"
abbrev long_name : Bytes
long_name = replicate 64 97
