-- ===== src/Tests/Matching.antt =====
-- Variables, patterns and maps on concrete values.
use swarmrt.Base.{ℕ, ◌≤◌, ◌≡◌, refl, [], ◌∷◌, Bool, true, false, ◌==◌, arith, Bytes, bytes_eq_sound}
use swarmrt.Values.{
  Value, nil_val, int_val, atom_val, map_val, no_entries, entries, tuple_val, list_val, no_values,
  values, count_values,
}
use swarmrt.Scope.{Env, env_set}
use swarmrt.Patterns.{
  Pattern, ident_pat, tuple_pat, cons_pat, no_patterns, patterns, pattern_match, match_each,
  is_tuple, is_list, items, first_item, other_items, count_patterns,
}
use swarmrt.Equality.{
  equal, equals_nil, get_by, get_value, map_put, equal_entries, flipped, count_entries,
}
use swarmrt.Equality.Maps.{get_value-map_put}
use swarmrt.Patterns.Binding.{occurs, occurs_each}
use swarmrt.Patterns.Fits.{Fits, pattern_match-Fits}

-- {x, [h | t]}
abbrev pattern : Pattern
pattern = tuple_pat (
    patterns (ident_pat (b'x' ∷ []))
      (patterns (cons_pat (ident_pat (b'h' ∷ [])) (ident_pat (b't' ∷ []))) no_patterns))

-- {1, [2]}
abbrev pair : Value
pair = tuple_val (values (int_val 1) (values (list_val (values (int_val 2) no_values)) no_values))

abbrev no_vars : Env
no_vars = record { frame = λ h. []; parents = [] }

abbrev bit_equal : ℕ → ℕ → Bool
bit_equal f g = f == g

occurs_once : (x : Bytes) → occurs x pattern ≤ 1
unfolding occurs occurs_each
occurs_once [] = ground arith
occurs_once (c ∷ cs) = ground arith

pattern_match-Fits_example :
    Fits bit_equal (pattern_match bit_equal pattern pair no_vars).1 pattern pair
unfolding pattern_match match_each is_tuple is_list items first_item other_items count_values
    count_patterns env_set
pattern_match-Fits_example = pattern_match-Fits bit_equal pattern pair no_vars occurs_once refl

abbrev atom_x : Value
atom_x = atom_val (b'x' ∷ [])

abbrev atom_y : Value
atom_y = atom_val (b'y' ∷ [])

-- %{x: 1}
abbrev one_key : Value
one_key = map_val (entries atom_x (int_val 1) no_entries)

apart_keys : (q : Value) → equal bit_equal q atom_x ≡ true → equal bit_equal q atom_y ≡ false
unfolding equal equals_nil
apart_keys (atom_val a) h = rw (bytes_eq_sound a (b'x' ∷ []) h) refl
apart_keys q h = refl

get_value-map_put_example :
    (get_value bit_equal (map_put bit_equal one_key atom_x (int_val 2)) atom_x ≡ int_val 2)
    × (get_value bit_equal (map_put bit_equal one_key atom_x (int_val 2)) atom_y
        ≡ get_value bit_equal one_key atom_y)
unfolding equal
get_value-map_put_example =
    get_value-map_put bit_equal one_key atom_x (int_val 2) atom_y refl apart_keys

-- Equality of maps depends on the order: a missing key counts as nil.
equal-missing_key :
    (equal bit_equal (map_val (entries atom_y nil_val no_entries)) one_key ≡ true)
    × (equal bit_equal one_key (map_val (entries atom_y nil_val no_entries)) ≡ false)
unfolding equal equal_entries flipped equals_nil get_by count_entries
equal-missing_key = (refl, refl)
