-- ===== src/Equality.antt =====
-- Equality of values and maps in src/swarmrt_lang.c (`sw_val_equal`, `sw_val_map_get`, `sw_val_map_put`).
-- A look-up in a map compares a key of the map with the key sought, in this order, so the recursion
-- changes sides; both orders are functions by recursion on one value. The equality of two floats is a
-- parameter. No value is NULL.
pub mod Sides
pub mod Maps
use swarmrt.Base.{ℕ, suc, Bool, true, false, ◌&&◌, if◌then◌else◌, ◌==◌, bytes_eq}
use swarmrt.Values.{
  Value, nil_val, int_val, float_val, string_val, atom_val, pid_val, tuple_val, list_val, fun_val,
  map_val, Values, no_values, values, Entries, no_entries, entries, count_values, nil_word,
}

unfoldable pub count_entries : Entries → ℕ
count_entries no_entries = 0
count_entries (entries k v es) = suc (count_entries es)

-- Equality with the value nil on the other side.
unfoldable pub equals_nil : Value → Bool
equals_nil nil_val = true
equals_nil (atom_val s) = bytes_eq s nil_word
equals_nil v = false

-- The value of the first key that passes a test, or nil.
unfoldable pub get_by : (Value → Bool) → Entries → Value
get_by test no_entries = nil_val
get_by test (entries k v es) = if test k then v else get_by test es

unfoldable pub all_entries : (Value → Value → Bool) → Entries → Bool
all_entries test no_entries = true
all_entries test (entries k v es) = test k v && all_entries test es

unfoldable mutual
  unfolding equals_nil get_by all_entries count_entries count_values

  -- `sw_val_equal`
  pub equal : (ℕ → ℕ → Bool) → Value → Value → Bool
  equal feq nil_val b = equals_nil b
  equal feq (int_val n) (int_val m) = n == m
  equal feq (int_val n) b = false
  equal feq (float_val f) (float_val g) = feq f g
  equal feq (float_val f) b = false
  equal feq (string_val s) (string_val t) = bytes_eq s t
  equal feq (string_val s) b = false
  equal feq (atom_val s) (atom_val t) = bytes_eq s t
  equal feq (atom_val s) nil_val = bytes_eq s nil_word
  equal feq (atom_val s) b = false
  equal feq (pid_val p) (pid_val q) = p == q
  equal feq (pid_val p) b = false
  equal feq (tuple_val us) (tuple_val vs) =
      count_values us == count_values vs && equal_items feq us vs
  equal feq (tuple_val us) b = false
  equal feq (list_val us) (list_val vs) =
      count_values us == count_values vs && equal_items feq us vs
  equal feq (list_val us) b = false
  equal feq (fun_val f) b = false
  equal feq (map_val es) (map_val bs) =
      count_entries es == count_entries bs && equal_entries feq es bs
  equal feq (map_val es) b = false

  -- The loop over the items of two tuples or lists of one length.
  pub equal_items : (ℕ → ℕ → Bool) → Values → Values → Bool
  equal_items feq (values u us) (values v vs) = equal feq u v && equal_items feq us vs
  equal_items feq (values u us) no_values = true
  equal_items feq no_values vs = true

  -- The loop over the keys of the first map.
  pub equal_entries : (ℕ → ℕ → Bool) → Entries → Entries → Bool
  equal_entries feq no_entries bs = true
  equal_entries feq (entries k v es) bs =
      equal feq v (get_by (λ q. flipped feq k q) bs) && equal_entries feq es bs

  -- `sw_val_equal` with its arguments in the other order.
  pub flipped : (ℕ → ℕ → Bool) → Value → Value → Bool
  flipped feq nil_val b = equals_nil b
  flipped feq (int_val n) (int_val m) = m == n
  flipped feq (int_val n) b = false
  flipped feq (float_val f) (float_val g) = feq g f
  flipped feq (float_val f) b = false
  flipped feq (string_val s) (string_val t) = bytes_eq t s
  flipped feq (string_val s) b = false
  flipped feq (atom_val s) (atom_val t) = bytes_eq t s
  flipped feq (atom_val s) nil_val = bytes_eq s nil_word
  flipped feq (atom_val s) b = false
  flipped feq (pid_val p) (pid_val q) = q == p
  flipped feq (pid_val p) b = false
  flipped feq (tuple_val us) (tuple_val vs) =
      count_values vs == count_values us && flipped_items feq us vs
  flipped feq (tuple_val us) b = false
  flipped feq (list_val us) (list_val vs) =
      count_values vs == count_values us && flipped_items feq us vs
  flipped feq (list_val us) b = false
  flipped feq (fun_val f) b = false
  flipped feq (map_val es) (map_val bs) =
      count_entries bs == count_entries es && all_entries (λ k v. flipped_found feq es k v) bs
  flipped feq (map_val es) b = false

  pub flipped_items : (ℕ → ℕ → Bool) → Values → Values → Bool
  flipped_items feq (values u us) (values v vs) = flipped feq u v && flipped_items feq us vs
  flipped_items feq (values u us) no_values = true
  flipped_items feq no_values vs = true

  -- Equality of a value with the one that a key of the other map has in this map.
  pub flipped_found : (ℕ → ℕ → Bool) → Entries → Value → Value → Bool
  flipped_found feq no_entries k v = equals_nil v
  flipped_found feq (entries q u es) k v =
      if equal feq q k then flipped feq u v else flipped_found feq es k v

-- `sw_val_map_get`
unfoldable pub get_value : (ℕ → ℕ → Bool) → Value → Value → Value
unfolding equal get_by
get_value feq (map_val es) k = get_by (λ q. equal feq q k) es
get_value feq m k = nil_val

-- The entries of the new map of `sw_val_map_put`.
unfoldable pub put_entry : (ℕ → ℕ → Bool) → Entries → Value → Value → Entries
unfolding equal
put_entry feq no_entries k v = entries k v no_entries
put_entry feq (entries q u es) k v =
    if equal feq q k then entries q v es else entries q u (put_entry feq es k v)

-- `sw_val_map_put`
unfoldable pub map_put : (ℕ → ℕ → Bool) → Value → Value → Value → Value
unfolding put_entry
map_put feq (map_val es) k v = map_val (put_entry feq es k v)
map_put feq m k v = map_val (entries k v no_entries)
