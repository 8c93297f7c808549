-- ===== src/Scope/Laws.antt =====
-- Variables after `env_set`.
use swarmrt.Base.{
  ◌≡◌, refl, sym, ap, ◌∙◌, inl, inr, List, [], ◌∷◌, true, false, some, if◌then◌else◌, ◌==◌, arith,
  Bool-cases, ==_refl, ==_iff, Bytes, bytes_eq, bytes_eq_sound,
}
use swarmrt.Registry.{update}
use mathlib.Core.Bool.{false≢true}
use swarmrt.Values.{Value}
use swarmrt.Scope.{
  Binding, Frame, Env, env_hash, find_binding, has_binding, set_first, set_binding, env_set, get_in,
  or_outer, env_get,
}

bytes_eq_other : (a n m : Bytes) → bytes_eq a n ≡ true → bytes_eq n m ≡ false → bytes_eq a m ≡ false
bytes_eq_other a n m h k = rw (bytes_eq_sound a n h) k

find_binding-set_first :
    (n : Bytes) (v : Value) (bs : List Binding)
    → has_binding n bs ≡ true
    → find_binding n (set_first n v bs) ≡ some v
unfolding has_binding set_first find_binding
find_binding-set_first n v [] h = absurd (false≢true h)
find_binding-set_first n v (b ∷ bs) h = elim (Bool-cases (bytes_eq b.name n)) [
  | inl e ↦ rw (e, set_first) (rw e refl)
  | inr e ↦ rw (e, set_first) (rw e (find_binding-set_first n v bs (sym (rw e refl) ∙ h)))
]

find_binding-replace_other :
    (n m : Bytes) (v : Value) (bs : List Binding)
    → bytes_eq n m ≡ false
    → find_binding m (set_first n v bs) ≡ find_binding m bs
unfolding set_first find_binding
find_binding-replace_other n m v [] h = refl
find_binding-replace_other n m v (b ∷ bs) h = elim (Bool-cases (bytes_eq b.name n)) [
  | inl e ↦ let other = bytes_eq_other b.name n m e h in rw (e, set_first) (rw other refl)
  | inr e ↦ rw (e, set_first, find_binding-replace_other n m v bs h) refl
]

find_binding-set :
    (n m : Bytes) (v : Value) (bs : List Binding)
    → find_binding m (set_binding n v bs) ≡ (if bytes_eq n m then some v else find_binding m bs)
unfolding set_binding find_binding
find_binding-set n m v bs = elim (Bool-cases (has_binding n bs)) [
  | inl there ↦ elim (Bool-cases (bytes_eq n m)) [
    | inl e ↦ rw (there, e) (rw (sym (bytes_eq_sound n m e)) (find_binding-set_first n v bs there))
    | inr e ↦ rw (there, e) (find_binding-replace_other n m v bs e)
  ]
  | inr free ↦ rw free refl
]

find_binding-bucket :
    (n m : Bytes) (v : Value) (f : Frame)
    → find_binding m (update f (env_hash n) (set_binding n v (f (env_hash n))) (env_hash m))
      ≡ (if bytes_eq n m then some v else find_binding m (f (env_hash m)))
find_binding-bucket n m v f = elim (Bool-cases (env_hash n == env_hash m)) [
  | inl e ↦
      let same : env_hash n ≡ env_hash m = (==_iff (env_hash n) (env_hash m)).0 e in
      rw (same, ==_refl (env_hash m)) (find_binding-set n m v (f (env_hash m)))
  | inr e ↦ let other : bytes_eq n m ≡ false = other_name e in rw (e, other) refl
]
  where
    other_name : (env_hash n == env_hash m) ≡ false → bytes_eq n m ≡ false
    other_name e = elim (Bool-cases (bytes_eq n m)) [
      | inl same ↦
          let clash = ap env_hash (bytes_eq_sound n m same) in absurd (ground (arith, clash, e))
      | inr other ↦ other
    ]

-- After a variable is set it has this value, and every other one has the value that it had, in the
-- innermost scope that has it.
pub env_get-env_set :
    (n m : Bytes) (v : Value) (e : Env)
    → env_get m (env_set n v e) ≡ (if bytes_eq n m then some v else env_get m e)
unfolding env_get env_set get_in
env_get-env_set n m v e =
    ap (λ r. or_outer r (get_in m e.parents)) (find_binding-bucket n m v e.frame)
    ∙ (elim (Bool-cases (bytes_eq n m)) [ inl h ↦ rw h refl | inr h ↦ rw h refl ])
