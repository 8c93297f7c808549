-- ===== src/Values.antt =====
-- The values of the language in src/swarmrt_lang.h and src/swarmrt_lang.c. An integer and a float are
-- their 64 bits, a process and a function a number.
use swarmrt.Base.{ℕ, suc, [], ◌∷◌, Bool, true, false, if◌then◌else◌, ◌==◌, Bytes, bytes_eq}

mutual
  -- `sw_val_t`
  pub data Value : Type 0 where
    nil_val : Value
    int_val : ℕ → Value
    float_val : ℕ → Value
    string_val : Bytes → Value
    atom_val : Bytes → Value
    pid_val : ℕ → Value
    tuple_val : Values → Value
    list_val : Values → Value
    fun_val : ℕ → Value
    map_val : Entries → Value

  -- The items of a tuple or a list.
  pub data Values : Type 0 where
    no_values : Values
    values : Value → Values → Values

  -- The keys of a map with their values.
  pub data Entries : Type 0 where
    no_entries : Entries
    entries : Value → Value → Entries → Entries

unfoldable pub count_values : Values → ℕ
count_values no_values = 0
count_values (values v vs) = suc (count_values vs)

-- The word nil
abbrev pub nil_word : Bytes
nil_word = b'n' ∷ b'i' ∷ b'l' ∷ []

-- The word false
abbrev pub false_word : Bytes
false_word = b'f' ∷ b'a' ∷ b'l' ∷ b's' ∷ b'e' ∷ []

-- A key of a map that is written as a literal: `pkey` of `pattern_match`, or another node.
pub data Key : Type 0 where
  atom_key : Bytes → Key
  string_key : Bytes → Key
  int_key : ℕ → Key
  other_key : Key

-- `sw_val_equal` where the second value is the one of a literal.
unfoldable pub equals_key : Value → Key → Bool
equals_key nil_val (atom_key s) = bytes_eq s nil_word
equals_key (atom_val a) (atom_key s) = bytes_eq a s
equals_key (string_val a) (string_key s) = bytes_eq a s
equals_key (int_val n) (int_key m) = n == m
equals_key v k = false

-- The loop of `sw_val_map_get`.
unfoldable pub get_entry : Key → Entries → Value
unfolding equals_key
get_entry k no_entries = nil_val
get_entry k (entries key v es) = if equals_key key k then v else get_entry k es

-- `sw_val_map_get` with a literal as its key.
unfoldable pub map_get : Key → Value → Value
unfolding get_entry
map_get k (map_val es) = get_entry k es
map_get k v = nil_val

unfoldable pub is_nil : Value → Bool
is_nil nil_val = true
is_nil v = false
