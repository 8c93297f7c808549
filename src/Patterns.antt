-- ===== src/Patterns.antt =====
-- Pattern matching of the language in src/swarmrt_lang.c (`pattern_match`). A node that no case names
-- is one constructor. The equality of two floats is a parameter.
pub mod Binding
pub mod Fits
use swarmrt.Base.{ℕ, suc, Bool, true, false, ◌&&◌, if◌then◌else◌, ◌==◌, leb, Bytes, bytes_eq}
use swarmrt.Values.{
  Value, nil_val, int_val, float_val, string_val, atom_val, tuple_val, list_val, map_val, Values,
  no_values, values, count_values, Key, other_key, map_get, is_nil,
}
use swarmrt.Scope.{Env, env_set}

mutual
  -- The nodes of `node_t` that are patterns.
  pub data Pattern : Type 0 where
    ident_pat : Bytes → Pattern
    int_pat : ℕ → Pattern
    float_pat : ℕ → Pattern
    string_pat : Bytes → Pattern
    atom_pat : Bytes → Pattern
    tuple_pat : Patterns → Pattern
    list_pat : Patterns → Pattern
    cons_pat : Pattern → Pattern → Pattern
    map_pat : Fields → Pattern
    other_pat : Pattern

  pub data Patterns : Type 0 where
    no_patterns : Patterns
    patterns : Pattern → Patterns → Patterns

  -- The keys of a map pattern with their patterns.
  pub data Fields : Type 0 where
    no_fields : Fields
    fields : Key → Pattern → Fields → Fields

unfoldable pub count_patterns : Patterns → ℕ
count_patterns no_patterns = 0
count_patterns (patterns p ps) = suc (count_patterns ps)

unfoldable pub match_int : ℕ → Value → Bool
match_int n (int_val m) = m == n
match_int n v = false

unfoldable pub match_float : (ℕ → ℕ → Bool) → ℕ → Value → Bool
match_float feq f (float_val g) = feq g f
match_float feq f v = false

unfoldable pub match_string : Bytes → Value → Bool
match_string s (string_val t) = bytes_eq t s
match_string s v = false

unfoldable pub match_atom : Bytes → Value → Bool
match_atom s (atom_val t) = bytes_eq t s
match_atom s v = false

unfoldable pub is_other : Key → Bool
is_other other_key = true
is_other k = false

-- The next step where a step has matched, in the variables that it has left.
abbrev pub and_then : Bool × Env → (Env → Bool × Env) → Bool × Env
and_then r next = if r.0 then next r.1 else (false, r.1)

unfoldable pub is_tuple : Value → Bool
is_tuple (tuple_val vs) = true
is_tuple v = false

unfoldable pub is_list : Value → Bool
is_list (list_val vs) = true
is_list v = false

unfoldable pub is_map : Value → Bool
is_map (map_val es) = true
is_map v = false

-- `v.tuple.items` of a tuple or a list; no other value is asked for them.
unfoldable pub items : Value → Values
items (tuple_val vs) = vs
items (list_val vs) = vs
items v = no_values

-- The first item of a list that has one, and a new list of the others.
unfoldable pub first_item : Values → Value
first_item no_values = nil_val
first_item (values v vs) = v

unfoldable pub other_items : Values → Value
other_items no_values = nil_val
other_items (values v vs) = list_val vs

unfoldable mutual
  unfolding count_patterns count_values match_int match_float match_string match_atom is_other
      is_tuple is_list is_map items first_item other_items map_get is_nil env_set

  -- `pattern_match`: whether the value matches, and the variables afterwards.
  pub pattern_match : (ℕ → ℕ → Bool) → Pattern → Value → Env → Bool × Env
  pattern_match feq (ident_pat x) v e = (true, env_set x v e)
  pattern_match feq (int_pat n) v e = (match_int n v, e)
  pattern_match feq (float_pat f) v e = (match_float feq f v, e)
  pattern_match feq (string_pat s) v e = (match_string s v, e)
  pattern_match feq (atom_pat s) v e = (match_atom s v, e)
  pattern_match feq (tuple_pat ps) v e =
      if is_tuple v && (count_values (items v) == count_patterns ps)
      then match_each feq ps (items v) e
      else (false, e)
  pattern_match feq (list_pat ps) v e =
      if is_list v && (count_values (items v) == count_patterns ps)
      then match_each feq ps (items v) e
      else (false, e)
  pattern_match feq (cons_pat p q) v e =
      if is_list v && leb 1 (count_values (items v))
      then and_then (pattern_match feq p (first_item (items v)) e)
          (λ e'. pattern_match feq q (other_items (items v)) e')
      else (false, e)
  pattern_match feq (map_pat fs) v e = if is_map v then match_fields feq fs v e else (false, e)
  pattern_match feq other_pat v e = (false, e)

  -- The loop over the items, of which there are as many as patterns.
  pub match_each : (ℕ → ℕ → Bool) → Patterns → Values → Env → Bool × Env
  match_each feq no_patterns vs e = (true, e)
  match_each feq (patterns p ps) no_values e = (false, e)
  match_each feq (patterns p ps) (values v vs) e =
      and_then (pattern_match feq p v e) (λ e'. match_each feq ps vs e')

  -- The loop over the keys. A key whose value is nil counts as missing.
  pub match_fields : (ℕ → ℕ → Bool) → Fields → Value → Env → Bool × Env
  match_fields feq no_fields v e = (true, e)
  match_fields feq (fields k p fs) v e =
      if is_other k
      then (false, e)
      else if is_nil (map_get k v)
      then (false, e)
      else and_then (pattern_match feq p (map_get k v) e) (λ e'. match_fields feq fs v e')
