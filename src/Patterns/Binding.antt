-- ===== src/Patterns/Binding.antt =====
-- What the variables are after a match.
use swarmrt.Base.{
  ℕ, ◌+◌, ◌≡◌, refl, ◌∙◌, inl, inr, Bool, true, false, some, if◌then◌else◌, arith, Bool-cases,
  Bytes, bytes_eq,
}
use swarmrt.Values.{Value, Values, no_values, values, map_get, is_nil}
use swarmrt.Scope.{Env, env_get}
use swarmrt.Scope.Laws.{env_get-env_set}
use swarmrt.Patterns.{
  Pattern, ident_pat, int_pat, float_pat, string_pat, atom_pat, tuple_pat, list_pat, cons_pat,
  map_pat, other_pat, Patterns, no_patterns, patterns, Fields, no_fields, fields, is_other,
  and_then, items, first_item, other_items, pattern_match, match_each, match_fields,
}

-- How often a variable is in a pattern.
unfoldable mutual
  pub occurs : Bytes → Pattern → ℕ
  occurs x (ident_pat y) = if bytes_eq y x then 1 else 0
  occurs x (int_pat n) = 0
  occurs x (float_pat f) = 0
  occurs x (string_pat s) = 0
  occurs x (atom_pat s) = 0
  occurs x (tuple_pat ps) = occurs_each x ps
  occurs x (list_pat ps) = occurs_each x ps
  occurs x (cons_pat p q) = occurs x p + occurs x q
  occurs x (map_pat fs) = occurs_fields x fs
  occurs x other_pat = 0

  pub occurs_each : Bytes → Patterns → ℕ
  occurs_each x no_patterns = 0
  occurs_each x (patterns p ps) = occurs x p + occurs_each x ps

  pub occurs_fields : Bytes → Fields → ℕ
  occurs_fields x no_fields = 0
  occurs_fields x (fields k p fs) = occurs x p + occurs_fields x fs

other_name :
    (x y : Bytes) (v : Value) (e : Env)
    → occurs x (ident_pat y) ≡ 0
    → (if bytes_eq y x then some v else env_get x e) ≡ env_get x e
unfolding occurs
other_name x y v e h = elim (Bool-cases (bytes_eq y x)) [
  | inl same ↦ absurd (ground (arith, h, same))
  | inr other ↦ rw other refl
]

guard-kept :
    (x : Bytes) (t : Bool) (r : Bool × Env) (e : Env)
    → env_get x r.1 ≡ env_get x e
    → env_get x (if t then r else (false, e)).1 ≡ env_get x e
guard-kept x true r e h = h
guard-kept x false r e h = refl

and_then-kept :
    (x : Bytes) (r : Bool × Env) (next : Env → Bool × Env) (e : Env)
    → env_get x r.1 ≡ env_get x e
    → env_get x (next r.1).1 ≡ env_get x r.1
    → env_get x (and_then r next).1 ≡ env_get x e
and_then-kept x r next e h k = elim (Bool-cases r.0) [ inl t ↦ rw t (k ∙ h) | inr t ↦ rw t h ]

-- A match leaves the variables alone that are not in its pattern.
mutual
  unfolding pattern_match match_each match_fields occurs occurs_each occurs_fields

  pub kept :
      (feq : ℕ → ℕ → Bool) (x : Bytes) (p : Pattern) (v : Value) (e : Env)
      → occurs x p ≡ 0
      → env_get x (pattern_match feq p v e).1 ≡ env_get x e
  kept feq x (ident_pat y) v e h = env_get-env_set y x v e ∙ other_name x y v e h
  kept feq x (int_pat n) v e h = refl
  kept feq x (float_pat f) v e h = refl
  kept feq x (string_pat s) v e h = refl
  kept feq x (atom_pat s) v e h = refl
  kept feq x (tuple_pat ps) v e h = guard-kept x _ _ e (kept_each feq x ps (items v) e h)
  kept feq x (list_pat ps) v e h = guard-kept x _ _ e (kept_each feq x ps (items v) e h)
  kept feq x (cons_pat p q) v e h = guard-kept x _ _ e (
      and_then-kept x (pattern_match feq p (first_item (items v)) e)
        (λ e'. pattern_match feq q (other_items (items v)) e') e
        (kept feq x p (first_item (items v)) e (omega (arith, h)))
        (kept feq x q (other_items (items v)) _ (omega (arith, h))))
  kept feq x (map_pat fs) v e h = guard-kept x _ _ e (kept_fields feq x fs v e h)
  kept feq x other_pat v e h = refl

  pub kept_each :
      (feq : ℕ → ℕ → Bool) (x : Bytes) (ps : Patterns) (vs : Values) (e : Env)
      → occurs_each x ps ≡ 0
      → env_get x (match_each feq ps vs e).1 ≡ env_get x e
  kept_each feq x no_patterns vs e h = refl
  kept_each feq x (patterns p ps) no_values e h = refl
  kept_each feq x (patterns p ps) (values v vs) e h =
      and_then-kept x (pattern_match feq p v e) (λ e'. match_each feq ps vs e') e
        (kept feq x p v e (omega (arith, h))) (kept_each feq x ps vs _ (omega (arith, h)))

  pub kept_fields :
      (feq : ℕ → ℕ → Bool) (x : Bytes) (fs : Fields) (v : Value) (e : Env)
      → occurs_fields x fs ≡ 0
      → env_get x (match_fields feq fs v e).1 ≡ env_get x e
  kept_fields feq x no_fields v e h = refl
  kept_fields feq x (fields k p fs) v e h = elim (Bool-cases (is_other k)) [
    | inl o ↦ rw (o, match_fields) refl
    | inr o ↦ elim (Bool-cases (is_nil (map_get k v))) [
      | inl n ↦ rw (o, match_fields) (rw n refl)
      | inr n ↦
          rw (o, match_fields)
            (rw n (
              and_then-kept x (pattern_match feq p (map_get k v) e) (λ e'. match_fields feq fs v e')
                e (kept feq x p (map_get k v) e (omega (arith, h)))
                (kept_fields feq x fs v _ (omega (arith, h)))))
    ]
  ]
