-- ===== src/Eval/Operators.antt =====
-- Truth, operators and the function `to_string` of the evaluator in src/swarmrt_lang.c
-- (`sw_val_is_truthy`, the cases N_BINOP and N_UNARY of `eval`). What the C library and the hardware do
-- with texts and with floats is a parameter.
pub mod Concat
use swarmrt.Base.{
  ℕ, ◌-◌, [], ◌++◌, Bool, true, false, not, ◌&&◌, ◌||◌, Option, none, some, if◌then◌else◌, ◌==◌,
  ltb, length, take, Bytes, bytes_eq,
}
use swarmrt.Values.{Value, nil_val, int_val, float_val, string_val, atom_val, nil_word, false_word}
use swarmrt.Equality.{equal}
use swarmrt.Eval.Numbers.{add_int, neg_int, sub_int, mul_int, div_int, less_int}
use swarmrt.Eval.Words.{
  true_word, plus_word, minus_word, times_word, divided_word, equals_word, differs_word, below_word,
  above_word, at_most_word, at_least_word, concat_word, both_word, either_word,
}

-- The number of a text, the text of a number, the arithmetic of floats by their bits, and the text of
-- the error of an unknown function with a number of arguments.
pub record Host : Type 0 where
  pub int_of : Bytes → ℕ
  pub float_of : Bytes → ℕ
  pub show_int : ℕ → Bytes
  pub show_float : ℕ → Bytes
  pub from_int : ℕ → ℕ
  pub add_float : ℕ → ℕ → ℕ
  pub sub_float : ℕ → ℕ → ℕ
  pub mul_float : ℕ → ℕ → ℕ
  pub div_float : ℕ → ℕ → ℕ
  pub neg_float : ℕ → ℕ
  pub zero_float : ℕ → Bool
  pub eq_float : ℕ → ℕ → Bool
  pub unknown_text : Bytes → ℕ → Bytes

abbrev pub truth : Bool → Value
truth b = atom_val (if b then true_word else false_word)

-- `sw_val_is_truthy`
unfoldable pub is_truthy : Host → Value → Bool
is_truthy h nil_val = false
is_truthy h (int_val n) = not (n == 0)
is_truthy h (float_val f) = not (h.zero_float f)
is_truthy h (atom_val s) = not (bytes_eq s false_word) && not (bytes_eq s nil_word)
is_truthy h v = true

abbrev pub buffer_size : ℕ
buffer_size = 4096

-- What `++` writes of its left operand, into an empty buffer.
unfoldable pub left_text : Host → Value → Bytes
left_text h (string_val s) = take (buffer_size - 1) s
left_text h (int_val n) = h.show_int n
left_text h v = []

-- The buffer behind what is written of the right operand; none where the final zero is written
-- behind the buffer, since `snprintf` returns the length that it had no place for.
unfoldable pub with_right : Host → Bytes → Value → Option Bytes
with_right h left (string_val s) = some (left ++ take (buffer_size - length left - 1) s)
with_right h left (int_val n) =
    if ltb (length (left ++ h.show_int n)) buffer_size then some (left ++ h.show_int n) else none
with_right h left v = some left

unfoldable pub as_string : Option Bytes → Option Value
as_string none = none
as_string (some s) = some (string_val s)

unfoldable pub concat : Host → Value → Value → Option Value
unfolding left_text with_right as_string
concat h l r = as_string (with_right h (left_text h l) r)

-- The operators on two integers; none for another operator.
unfoldable pub int_op : Bytes → ℕ → ℕ → Option Value
unfolding add_int sub_int mul_int div_int less_int
int_op op a b =
    if bytes_eq op plus_word
    then some (int_val (add_int a b))
    else if bytes_eq op minus_word
    then some (int_val (sub_int a b))
    else if bytes_eq op times_word
    then some (int_val (mul_int a b))
    else if bytes_eq op divided_word
    then some (if b == 0 then nil_val else int_val (div_int a b))
    else if bytes_eq op equals_word
    then some (truth (a == b))
    else if bytes_eq op differs_word
    then some (truth (not (a == b)))
    else if bytes_eq op below_word
    then some (truth (less_int a b))
    else if bytes_eq op above_word
    then some (truth (less_int b a))
    else if bytes_eq op at_most_word
    then some (truth (not (less_int b a)))
    else if bytes_eq op at_least_word
    then some (truth (not (less_int a b)))
    else none

-- The operators on two floats; none for another operator.
unfoldable pub float_op : Host → Bytes → ℕ → ℕ → Option Value
float_op h op a b =
    if bytes_eq op plus_word
    then some (float_val (h.add_float a b))
    else if bytes_eq op minus_word
    then some (float_val (h.sub_float a b))
    else if bytes_eq op times_word
    then some (float_val (h.mul_float a b))
    else if bytes_eq op divided_word
    then some (if h.zero_float b then nil_val else float_val (h.div_float a b))
    else none

-- The operators on numbers; none where the operands are not numbers, or for another operator.
unfoldable pub number_op : Host → Bytes → Value → Value → Option Value
unfolding int_op float_op
number_op h op (int_val a) (int_val b) = int_op op a b
number_op h op (int_val a) (float_val b) = float_op h op (h.from_int a) b
number_op h op (float_val a) (int_val b) = float_op h op a (h.from_int b)
number_op h op (float_val a) (float_val b) = float_op h op a b
number_op h op l r = none

-- The operators on all values.
unfoldable pub value_op : Host → Bytes → Value → Value → Value
unfolding equal is_truthy
value_op h op l r =
    if bytes_eq op equals_word
    then truth (equal h.eq_float l r)
    else if bytes_eq op differs_word
    then truth (not (equal h.eq_float l r))
    else if bytes_eq op both_word
    then truth (is_truthy h l && is_truthy h r)
    else if bytes_eq op either_word
    then truth (is_truthy h l || is_truthy h r)
    else nil_val

abbrev pub or_value : Option Value → Value → Value
or_value none v = v
or_value (some u) v = u

-- N_BINOP with the values of its operands; none where the buffer of `++` is overrun.
unfoldable pub binop : Host → Bytes → Value → Value → Option Value
unfolding concat number_op value_op
binop h op l r =
    if bytes_eq op concat_word
    then concat h l r
    else some (or_value (number_op h op l r) (value_op h op l r))

-- N_UNARY with the value of its operand; its operator is always the minus.
unfoldable pub unary : Host → Value → Value
unfolding neg_int
unary h (int_val n) = int_val (neg_int n)
unary h (float_val f) = float_val (h.neg_float f)
unary h v = v
