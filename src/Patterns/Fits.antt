-- ===== src/Patterns/Fits.antt =====
-- What a match says of the value and of the variables.
use swarmrt.Base.{
  ℕ, ◌≤◌, ◌≡◌, refl, ap, ◌∙◌, ◌≢◌, Bool, true, false, some, if◌then◌else◌, arith, ==_iff, Bytes,
  bytes_eq_refl, bytes_eq_sound,
}
use mathlib.Core.Bool.{false≢true}
use swarmrt.Values.{
  Value, int_val, string_val, atom_val, Values, no_values, values, count_values, map_get, is_nil,
}
use swarmrt.Scope.{Env, env_set, env_get}
use swarmrt.Scope.Laws.{env_get-env_set}
use swarmrt.Patterns.{
  Pattern, ident_pat, int_pat, float_pat, string_pat, atom_pat, tuple_pat, list_pat, cons_pat,
  map_pat, other_pat, Patterns, no_patterns, patterns, Fields, no_fields, fields, count_patterns,
  match_int, match_float, match_string, match_atom, is_other, and_then, is_tuple, is_list, is_map,
  items, first_item, other_items, pattern_match, match_each, match_fields,
}
use swarmrt.Patterns.Binding.{occurs, occurs_each, occurs_fields, kept, kept_each, kept_fields}

-- The value is what the pattern says, with the values of its variables.
unfoldable mutual
  unfolding count_patterns count_values match_int match_float match_string match_atom is_tuple
      is_list is_map items first_item other_items map_get is_nil

  pub Fits : (ℕ → ℕ → Bool) → Env → Pattern → Value → Type 0
  Fits feq e (ident_pat x) v = env_get x e ≡ some v
  Fits feq e (int_pat n) v = v ≡ int_val n
  Fits feq e (float_pat f) v = match_float feq f v ≡ true
  Fits feq e (string_pat s) v = v ≡ string_val s
  Fits feq e (atom_pat s) v = v ≡ atom_val s
  Fits feq e (tuple_pat ps) v = (is_tuple v ≡ true) × FitsEach feq e ps (items v)
  Fits feq e (list_pat ps) v = (is_list v ≡ true) × FitsEach feq e ps (items v)
  Fits feq e (cons_pat p q) v =
      (is_list v ≡ true)
      × (1 ≤ count_values (items v))
      × Fits feq e p (first_item (items v))
      × Fits feq e q (other_items (items v))
  Fits feq e (map_pat fs) v = (is_map v ≡ true) × FitsFields feq e fs v
  Fits feq e other_pat v = ⊥

  pub FitsEach : (ℕ → ℕ → Bool) → Env → Patterns → Values → Type 0
  FitsEach feq e no_patterns no_values = Unit
  FitsEach feq e no_patterns (values v vs) = ⊥
  FitsEach feq e (patterns p ps) no_values = ⊥
  FitsEach feq e (patterns p ps) (values v vs) = Fits feq e p v × FitsEach feq e ps vs

  pub FitsFields : (ℕ → ℕ → Bool) → Env → Fields → Value → Type 0
  FitsFields feq e no_fields v = Unit
  FitsFields feq e (fields k p fs) v =
      (is_nil (map_get k v) ≡ false) × Fits feq e p (map_get k v) × FitsFields feq e fs v

occurs_self : (x : Bytes) → occurs x (ident_pat x) ≢ 0
unfolding occurs
occurs_self x h = ground (arith, h, bytes_eq_refl x)

-- Only the variables of the pattern count.
mutual
  unfolding Fits FitsEach FitsFields occurs occurs_each occurs_fields

  agree :
      (feq : ℕ → ℕ → Bool) (e e' : Env) (p : Pattern) (v : Value)
      → ((x : Bytes) → occurs x p ≢ 0 → env_get x e' ≡ env_get x e)
      → Fits feq e p v
      → Fits feq e' p v
  agree feq e e' (ident_pat x) v h k = h x (occurs_self x) ∙ k
  agree feq e e' (int_pat n) v h k = k
  agree feq e e' (float_pat f) v h k = k
  agree feq e e' (string_pat s) v h k = k
  agree feq e e' (atom_pat s) v h k = k
  agree feq e e' (tuple_pat ps) v h k = (k.0, agree_each feq e e' ps (items v) h k.1)
  agree feq e e' (list_pat ps) v h k = (k.0, agree_each feq e e' ps (items v) h k.1)
  agree feq e e' (cons_pat p q) v h k = (
    k.0,
    k.1,
    agree feq e e' p (first_item (items v)) (λ x o. h x (omega (arith, o))) k.2,
    agree feq e e' q (other_items (items v)) (λ x o. h x (omega (arith, o))) k.3,
  )
  agree feq e e' (map_pat fs) v h k = (k.0, agree_fields feq e e' fs v h k.1)
  agree feq e e' other_pat v h k = k

  agree_each :
      (feq : ℕ → ℕ → Bool) (e e' : Env) (ps : Patterns) (vs : Values)
      → ((x : Bytes) → occurs_each x ps ≢ 0 → env_get x e' ≡ env_get x e)
      → FitsEach feq e ps vs
      → FitsEach feq e' ps vs
  agree_each feq e e' no_patterns no_values h k = k
  agree_each feq e e' no_patterns (values v vs) h k = k
  agree_each feq e e' (patterns p ps) no_values h k = k
  agree_each feq e e' (patterns p ps) (values v vs) h k = (
    agree feq e e' p v (λ x o. h x (omega (arith, o))) k.0,
    agree_each feq e e' ps vs (λ x o. h x (omega (arith, o))) k.1,
  )

  agree_fields :
      (feq : ℕ → ℕ → Bool) (e e' : Env) (fs : Fields) (v : Value)
      → ((x : Bytes) → occurs_fields x fs ≢ 0 → env_get x e' ≡ env_get x e)
      → FitsFields feq e fs v
      → FitsFields feq e' fs v
  agree_fields feq e e' no_fields v h k = k
  agree_fields feq e e' (fields key p fs) v h k = (
    k.0,
    agree feq e e' p (map_get key v) (λ x o. h x (omega (arith, o))) k.1,
    agree_fields feq e e' fs v (λ x o. h x (omega (arith, o))) k.2,
  )

guard-true :
    (P : Env → Type 0) (t : Bool) (r : Bool × Env) (e : Env)
    → (if t then r else (false, e)).0 ≡ true
    → (t ≡ true → r.0 ≡ true → P r.1)
    → P (if t then r else (false, e)).1
guard-true P true r e h k = k refl h
guard-true P false r e h k = absurd (false≢true h)

refuse-true :
    (P : Env → Type 0) (t : Bool) (r : Bool × Env) (e : Env)
    → (if t then (false, e) else r).0 ≡ true
    → (t ≡ false → r.0 ≡ true → P r.1)
    → P (if t then (false, e) else r).1
refuse-true P true r e h k = absurd (false≢true h)
refuse-true P false r e h k = k refl h

and_then-true :
    (P : Env → Type 0) (r : Bool × Env) (next : Env → Bool × Env)
    → (and_then r next).0 ≡ true
    → (r.0 ≡ true → (next r.1).0 ≡ true → P (next r.1).1)
    → P (and_then r next).1
and_then-true P (true, e) next h k = k refl h
and_then-true P (false, e) next h k = absurd (false≢true h)

match_int-true : (n : ℕ) (v : Value) → match_int n v ≡ true → v ≡ int_val n
unfolding match_int
match_int-true n (int_val m) h = ap int_val ((==_iff m n).0 h)
match_int-true n v h = absurd (false≢true h)

match_string-true : (s : Bytes) (v : Value) → match_string s v ≡ true → v ≡ string_val s
unfolding match_string
match_string-true s (string_val t) h = ap string_val (bytes_eq_sound t s h)
match_string-true s v h = absurd (false≢true h)

match_atom-true : (s : Bytes) (v : Value) → match_atom s v ≡ true → v ≡ atom_val s
unfolding match_atom
match_atom-true s (atom_val t) h = ap atom_val (bytes_eq_sound t s h)
match_atom-true s v h = absurd (false≢true h)

env_get-set_self : (x : Bytes) (v : Value) (e : Env) → env_get x (env_set x v e) ≡ some v
env_get-set_self x v e = env_get-env_set x x v e ∙ (rw (bytes_eq_refl x) refl)

mutual
  unfolding pattern_match match_each match_fields Fits FitsEach FitsFields occurs occurs_each
      occurs_fields count_values count_patterns

  fits :
      (feq : ℕ → ℕ → Bool) (p : Pattern) (v : Value) (e : Env)
      → ((x : Bytes) → occurs x p ≤ 1)
      → (pattern_match feq p v e).0 ≡ true
      → Fits feq (pattern_match feq p v e).1 p v
  fits feq (ident_pat x) v e once h = env_get-set_self x v e
  fits feq (int_pat n) v e once h = match_int-true n v h
  fits feq (float_pat f) v e once h = h
  fits feq (string_pat s) v e once h = match_string-true s v h
  fits feq (atom_pat s) v e once h = match_atom-true s v h
  fits feq (tuple_pat ps) v e once h =
      guard-true (λ e'. Fits feq e' (tuple_pat ps) v) _ _ e h
        (λ t m. (ground (arith, t), fits_each feq ps (items v) e once (ground (arith, t)) m))
  fits feq (list_pat ps) v e once h =
      guard-true (λ e'. Fits feq e' (list_pat ps) v) _ _ e h
        (λ t m. (ground (arith, t), fits_each feq ps (items v) e once (ground (arith, t)) m))
  fits feq (cons_pat p q) v e once h =
      guard-true (λ e'. Fits feq e' (cons_pat p q) v) _ _ e h
        (λ t m.
          and_then-true (λ e'. Fits feq e' (cons_pat p q) v)
            (pattern_match feq p (first_item (items v)) e)
            (λ e'. pattern_match feq q (other_items (items v)) e') m
            (λ m₀ m₁. (
              ground (arith, t),
              ground (arith, t),
              agree feq _ _ p (first_item (items v))
                  (λ x o. kept feq x q (other_items (items v)) _ (omega (arith, once x, o)))
                  (fits feq p (first_item (items v)) e (λ x. omega (arith, once x)) m₀),
              fits feq q (other_items (items v)) _ (λ x. omega (arith, once x)) m₁,
            )))
  fits feq (map_pat fs) v e once h =
      guard-true (λ e'. Fits feq e' (map_pat fs) v) _ _ e h
        (λ t m. (t, fits_fields feq fs v e once m))
  fits feq other_pat v e once h = absurd (false≢true h)

  fits_each :
      (feq : ℕ → ℕ → Bool) (ps : Patterns) (vs : Values) (e : Env)
      → ((x : Bytes) → occurs_each x ps ≤ 1)
      → count_values vs ≡ count_patterns ps
      → (match_each feq ps vs e).0 ≡ true
      → FitsEach feq (match_each feq ps vs e).1 ps vs
  fits_each feq no_patterns no_values e once n h = tt
  fits_each feq no_patterns (values v vs) e once n h = absurd (omega (arith, n))
  fits_each feq (patterns p ps) no_values e once n h = absurd (omega (arith, n))
  fits_each feq (patterns p ps) (values v vs) e once n h =
      and_then-true (λ e'. FitsEach feq e' (patterns p ps) (values v vs)) (pattern_match feq p v e)
        (λ e'. match_each feq ps vs e') h
        (λ m₀ m₁. (
          agree feq _ _ p v (λ x o. kept_each feq x ps vs _ (omega (arith, once x, o)))
              (fits feq p v e (λ x. omega (arith, once x)) m₀),
          fits_each feq ps vs _ (λ x. omega (arith, once x)) (omega (arith, n)) m₁,
        ))

  fits_fields :
      (feq : ℕ → ℕ → Bool) (fs : Fields) (v : Value) (e : Env)
      → ((x : Bytes) → occurs_fields x fs ≤ 1)
      → (match_fields feq fs v e).0 ≡ true
      → FitsFields feq (match_fields feq fs v e).1 fs v
  fits_fields feq no_fields v e once h = tt
  fits_fields feq (fields k p fs) v e once h =
      let here : Env → Type 0 = λ e'. FitsFields feq e' (fields k p fs) v in
      refuse-true here (is_other k) _ e h (λ o m.
        refuse-true here (is_nil (map_get k v)) _ e m (λ n m'.
          and_then-true here (pattern_match feq p (map_get k v) e) (λ e'. match_fields feq fs v e')
            m'
            (λ m₀ m₁. (
              n,
              agree feq _ _ p (map_get k v)
                  (λ x o. kept_fields feq x fs v _ (omega (arith, once x, o)))
                  (fits feq p (map_get k v) e (λ x. omega (arith, once x)) m₀),
              fits_fields feq fs v _ (λ x. omega (arith, once x)) m₁,
            ))))

-- When a value matches a pattern in which no variable occurs twice, the value is what the pattern says,
-- with the values that the variables have afterwards.
pub pattern_match-Fits :
    (feq : ℕ → ℕ → Bool) (p : Pattern) (v : Value) (e : Env)
    → ((x : Bytes) → occurs x p ≤ 1)
    → (pattern_match feq p v e).0 ≡ true
    → Fits feq (pattern_match feq p v e).1 p v
pattern_match-Fits feq p v e once h = fits feq p v e once h
