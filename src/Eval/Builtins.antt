-- ===== src/Eval/Builtins.antt =====
-- The functions that the evaluator of src/swarmrt_lang.c has built in (the `builtin_` functions, and the
-- case N_CALL of `eval` before it looks for a function). What is printed is left out.
use swarmrt.Base.{
  ℕ, zero, suc, ◌+◌, ◌-◌, ◌%◌, ◌^◌, List, [], ◌∷◌, Bool, true, false, not, Option, none, some,
  if◌then◌else◌, leb, length, get_elem?, min, Bytes, bytes_eq,
}
use swarmrt.Values.{
  Value, nil_val, int_val, float_val, string_val, atom_val, tuple_val, list_val, map_val, Values,
  no_values, values, Entries, no_entries, entries, count_values, nil_word,
}
use swarmrt.Equality.{equal, get_value, map_put}
use swarmrt.Eval.Numbers.{two_64, add_int, abs_int}
use swarmrt.Eval.Operators.{Host, is_truthy}
use swarmrt.Eval.Messages.{type_of}
use swarmrt.Eval.Words.{
  print_word, length_word, hd_word, tl_word, elem_word, abs_word, to_string_word, map_get_word,
  map_put_word, map_new_word, map_keys_word, map_values_word, typeof_word, list_append_word,
  assert_word, assert_eq_word, assert_ne_word, int_word, float_word, string_word, atom_word,
  pid_word, tuple_word, list_word, fun_word, map_word, ok_word, value_word,
}

-- An argument that there is.
unfoldable pub arg : Values → ℕ → Value
arg no_values i = nil_val
arg (values v vs) zero = v
arg (values v vs) (suc i) = arg vs i

unfoldable pub add_last : Values → Value → Values
add_last no_values v = values v no_values
add_last (values u us) v = values u (add_last us v)

unfoldable pub keys : Entries → Values
keys no_entries = no_values
keys (entries k v es) = values k (keys es)

unfoldable pub vals : Entries → Values
vals no_entries = no_values
vals (entries k v es) = values v (vals es)

-- `builtin_length` with an argument
unfoldable pub length_of : Value → Value
unfolding count_values
length_of (list_val vs) = int_val (count_values vs)
length_of (tuple_val vs) = int_val (count_values vs)
length_of (string_val s) = int_val (length s)
length_of v = int_val 0

-- `builtin_hd` with an argument
unfoldable pub head_of : Value → Value
head_of (list_val (values v vs)) = v
head_of v = nil_val

-- `builtin_tl` with an argument
unfoldable pub tail_of : Value → Value
tail_of (list_val (values v vs)) = list_val vs
tail_of v = list_val no_values

-- `builtin_elem` with two arguments; the index is converted to an `int`.
unfoldable pub elem_of : Value → Value → Value
unfolding count_values arg
elem_of (tuple_val vs) (int_val n) =
    let i = n % 2 ^ 32 in
    if leb (2 ^ 31) i then nil_val else if leb (count_values vs) i then nil_val else arg vs i
elem_of v i = nil_val

unfoldable pub to_string : Host → Value → Value
to_string h nil_val = string_val nil_word
to_string h (int_val n) = string_val (h.show_int n)
to_string h (float_val f) = string_val (h.show_float f)
to_string h (string_val s) = string_val s
to_string h (atom_val s) = string_val s
to_string h v = string_val value_word

abbrev type_names : List Bytes
type_names =
    nil_word ∷ int_word ∷ float_word ∷ string_word ∷ atom_word ∷ pid_word ∷ tuple_word ∷ list_word
    ∷ fun_word ∷ map_word ∷ []

abbrev or_word : Option Bytes → Bytes
or_word none = nil_word
or_word (some s) = s

unfoldable pub type_name : ℕ → Bytes
type_name n = or_word (get_elem? type_names n)

-- The functions whose test needs an argument of a certain type.
unfoldable pub abs_of : Value → Option Value
unfolding abs_int
abs_of (int_val n) = some (int_val (abs_int n))
abs_of v = none

unfoldable pub keys_of : Value → Option Value
unfolding keys
keys_of (map_val es) = some (list_val (keys es))
keys_of v = none

unfoldable pub values_of : Value → Option Value
unfolding vals
values_of (map_val es) = some (list_val (vals es))
values_of v = none

unfoldable pub append_to : Value → Value → Option Value
unfolding add_last
append_to (list_val vs) v = some (list_val (add_last vs v))
append_to u v = none

-- The functions that a pipe knows, too.
unfoldable pub shared_builtin : Bytes → Values → Option Value
unfolding length_of arg
shared_builtin f no_values =
    if bytes_eq f print_word
    then some (atom_val ok_word)
    else if bytes_eq f length_word
    then some (int_val 0)
    else none
shared_builtin f (values v vs) =
    if bytes_eq f print_word
    then some (atom_val ok_word)
    else if bytes_eq f length_word
    then some (length_of v)
    else none

-- The other functions, by how many arguments there are at least.
unfoldable pub builtin_0 : Bytes → Option Value
builtin_0 f =
    if bytes_eq f hd_word
    then some nil_val
    else if bytes_eq f tl_word
    then some (list_val no_values)
    else if bytes_eq f elem_word
    then some nil_val
    else if bytes_eq f map_new_word
    then some (map_val no_entries)
    else none

unfoldable pub builtin_1 : Host → Bytes → Value → Option Value
unfolding head_of tail_of abs_of to_string keys_of values_of type_name type_of
builtin_1 h f v =
    if bytes_eq f hd_word
    then some (head_of v)
    else if bytes_eq f tl_word
    then some (tail_of v)
    else if bytes_eq f elem_word
    then some nil_val
    else if bytes_eq f abs_word
    then abs_of v
    else if bytes_eq f to_string_word
    then some (to_string h v)
    else if bytes_eq f map_new_word
    then some (map_val no_entries)
    else if bytes_eq f map_keys_word
    then keys_of v
    else if bytes_eq f map_values_word
    then values_of v
    else if bytes_eq f typeof_word
    then some (string_val (type_name (type_of v)))
    else none

unfoldable pub builtin_2 : Host → Bytes → Value → Value → Option Value
unfolding builtin_1 elem_of get_value append_to
builtin_2 h f u v =
    if bytes_eq f elem_word
    then some (elem_of u v)
    else if bytes_eq f map_get_word
    then some (get_value h.eq_float u v)
    else if bytes_eq f list_append_word
    then append_to u v
    else builtin_1 h f u

-- The functions that do not change the interpreter; none for another name, or where the arguments do
-- not fit.
unfoldable pub builtin : Host → Bytes → Values → Option Value
unfolding builtin_0 builtin_1 builtin_2 map_put
builtin h f no_values = builtin_0 f
builtin h f (values u no_values) = builtin_1 h f u
builtin h f (values u (values v no_values)) = builtin_2 h f u v
builtin h f (values u (values v (values x vs))) =
    if bytes_eq f map_put_word then some (map_put h.eq_float u v x) else builtin_2 h f u v

-- Whether two arguments are given and are equal.
unfoldable pub both_equal : Host → Values → Option Bool
unfolding equal
both_equal h (values u (values v vs)) = some (equal h.eq_float u v)
both_equal h vs = none

unfoldable pub first_truthy : Host → Values → Bool
unfolding is_truthy
first_truthy h no_values = false
first_truthy h (values v vs) = is_truthy h v

abbrev pub holds : Bool → Option Bool → Bool
holds b none = false
holds true (some c) = c
holds false (some c) = not c

-- Whether `assert`, `assert_eq` or `assert_ne` holds; none for another function.
unfoldable pub assertion : Host → Bytes → Values → Option Bool
unfolding both_equal first_truthy
assertion h f vs =
    if bytes_eq f assert_word
    then some (first_truthy h vs)
    else if bytes_eq f assert_eq_word
    then some (holds true (both_equal h vs))
    else if bytes_eq f assert_ne_word
    then some (holds false (both_equal h vs))
    else none

-- `cnt` integers from one on.
unfoldable pub count_up : ℕ → ℕ → Values
unfolding add_int
count_up zero n = no_values
count_up (suc c) n = values (int_val n) (count_up c (add_int n 1))

-- `(int)(hi - lo + 1)`, which is 0 here where it is negative.
unfoldable pub range_count : ℕ → ℕ → ℕ
range_count lo hi =
    let c = (hi + (two_64 - lo) + 1) % two_64 % 2 ^ 32 in if leb (2 ^ 31) c then 0 else c

-- N_RANGE with the values of its ends.
unfoldable pub range : Value → Value → Value
unfolding count_up range_count
range (int_val lo) (int_val hi) = list_val (count_up (min (range_count lo hi) 10000) lo)
range u v = list_val no_values

-- N_LIST_CONS with the values of its parts.
unfoldable pub cons : Value → Value → Value
cons v (list_val vs) = list_val (values v vs)
cons v u = list_val (values v no_values)
