-- ===== src/Eval/Words.antt =====
-- The words that the evaluator of src/swarmrt_lang.c compares with or answers, and its operators.

use swarmrt.Base.{[], ◌∷◌, Bytes}

abbrev pub print_word : Bytes
print_word = b'p' ∷ b'r' ∷ b'i' ∷ b'n' ∷ b't' ∷ []

abbrev pub length_word : Bytes
length_word = b'l' ∷ b'e' ∷ b'n' ∷ b'g' ∷ b't' ∷ b'h' ∷ []

abbrev pub hd_word : Bytes
hd_word = b'h' ∷ b'd' ∷ []

abbrev pub tl_word : Bytes
tl_word = b't' ∷ b'l' ∷ []

abbrev pub elem_word : Bytes
elem_word = b'e' ∷ b'l' ∷ b'e' ∷ b'm' ∷ []

abbrev pub abs_word : Bytes
abs_word = b'a' ∷ b'b' ∷ b's' ∷ []

abbrev pub to_string_word : Bytes
to_string_word = b't' ∷ b'o' ∷ b'_' ∷ b's' ∷ b't' ∷ b'r' ∷ b'i' ∷ b'n' ∷ b'g' ∷ []

abbrev pub map_get_word : Bytes
map_get_word = b'm' ∷ b'a' ∷ b'p' ∷ b'_' ∷ b'g' ∷ b'e' ∷ b't' ∷ []

abbrev pub map_put_word : Bytes
map_put_word = b'm' ∷ b'a' ∷ b'p' ∷ b'_' ∷ b'p' ∷ b'u' ∷ b't' ∷ []

abbrev pub map_new_word : Bytes
map_new_word = b'm' ∷ b'a' ∷ b'p' ∷ b'_' ∷ b'n' ∷ b'e' ∷ b'w' ∷ []

abbrev pub map_keys_word : Bytes
map_keys_word = b'm' ∷ b'a' ∷ b'p' ∷ b'_' ∷ b'k' ∷ b'e' ∷ b'y' ∷ b's' ∷ []

abbrev pub map_values_word : Bytes
map_values_word = b'm' ∷ b'a' ∷ b'p' ∷ b'_' ∷ b'v' ∷ b'a' ∷ b'l' ∷ b'u' ∷ b'e' ∷ b's' ∷ []

abbrev pub typeof_word : Bytes
typeof_word = b't' ∷ b'y' ∷ b'p' ∷ b'e' ∷ b'o' ∷ b'f' ∷ []

abbrev pub list_append_word : Bytes
list_append_word = b'l' ∷ b'i' ∷ b's' ∷ b't' ∷ b'_' ∷ b'a' ∷ b'p' ∷ b'p' ∷ b'e' ∷ b'n' ∷ b'd' ∷ []

abbrev pub assert_word : Bytes
assert_word = b'a' ∷ b's' ∷ b's' ∷ b'e' ∷ b'r' ∷ b't' ∷ []

abbrev pub assert_eq_word : Bytes
assert_eq_word = b'a' ∷ b's' ∷ b's' ∷ b'e' ∷ b'r' ∷ b't' ∷ b'_' ∷ b'e' ∷ b'q' ∷ []

abbrev pub assert_ne_word : Bytes
assert_ne_word = b'a' ∷ b's' ∷ b's' ∷ b'e' ∷ b'r' ∷ b't' ∷ b'_' ∷ b'n' ∷ b'e' ∷ []

abbrev pub int_word : Bytes
int_word = b'i' ∷ b'n' ∷ b't' ∷ []

abbrev pub float_word : Bytes
float_word = b'f' ∷ b'l' ∷ b'o' ∷ b'a' ∷ b't' ∷ []

abbrev pub string_word : Bytes
string_word = b's' ∷ b't' ∷ b'r' ∷ b'i' ∷ b'n' ∷ b'g' ∷ []

abbrev pub atom_word : Bytes
atom_word = b'a' ∷ b't' ∷ b'o' ∷ b'm' ∷ []

abbrev pub pid_word : Bytes
pid_word = b'p' ∷ b'i' ∷ b'd' ∷ []

abbrev pub tuple_word : Bytes
tuple_word = b't' ∷ b'u' ∷ b'p' ∷ b'l' ∷ b'e' ∷ []

abbrev pub list_word : Bytes
list_word = b'l' ∷ b'i' ∷ b's' ∷ b't' ∷ []

abbrev pub fun_word : Bytes
fun_word = b'f' ∷ b'u' ∷ b'n' ∷ []

abbrev pub map_word : Bytes
map_word = b'm' ∷ b'a' ∷ b'p' ∷ []

abbrev pub ok_word : Bytes
ok_word = b'o' ∷ b'k' ∷ []

abbrev pub error_word : Bytes
error_word = b'e' ∷ b'r' ∷ b'r' ∷ b'o' ∷ b'r' ∷ []

abbrev pub true_word : Bytes
true_word = b't' ∷ b'r' ∷ b'u' ∷ b'e' ∷ []

abbrev pub plus_word : Bytes
plus_word = b'+' ∷ []

abbrev pub minus_word : Bytes
minus_word = b'-' ∷ []

abbrev pub times_word : Bytes
times_word = b'*' ∷ []

abbrev pub divided_word : Bytes
divided_word = b'/' ∷ []

abbrev pub equals_word : Bytes
equals_word = b'=' ∷ b'=' ∷ []

abbrev pub differs_word : Bytes
differs_word = b'!' ∷ b'=' ∷ []

abbrev pub below_word : Bytes
below_word = b'<' ∷ []

abbrev pub above_word : Bytes
above_word = b'>' ∷ []

abbrev pub at_most_word : Bytes
at_most_word = b'<' ∷ b'=' ∷ []

abbrev pub at_least_word : Bytes
at_least_word = b'>' ∷ b'=' ∷ []

abbrev pub concat_word : Bytes
concat_word = b'+' ∷ b'+' ∷ []

abbrev pub both_word : Bytes
both_word = b'&' ∷ b'&' ∷ []

abbrev pub either_word : Bytes
either_word = b'|' ∷ b'|' ∷ []

abbrev pub value_word : Bytes
value_word = b'<' ∷ b'v' ∷ b'a' ∷ b'l' ∷ b'>' ∷ []
