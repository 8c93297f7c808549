-- ===== src/Tests/Evaluating.antt =====
-- The evaluator on concrete programs.
use swarmrt.Base.{
  ◌+◌, ◌≤◌, ◌≡◌, ◌↔◌, refl, [], ◌∷◌, ◌++◌, true, false, Option, none, some, ◌==◌, arith, length,
  Bytes,
}
use swarmrt.Syntax.{
  Node, n_module, n_fun, n_block, n_assign, n_call, n_if_else, n_binop, n_int, n_ident, node,
  no_nodes, no_params, param,
}
use swarmrt.Values.{Value, int_val, string_val, values, no_values}
use swarmrt.Eval.{World, Outcome, done, freed}
use swarmrt.Eval.Words.{minus_word, plus_word, times_word}
use swarmrt.Eval.Operators.{Host, concat, buffer_size}
use swarmrt.Eval.Operators.Concat.{concat_lem}
use swarmrt.Eval.Messages.{serialize_val, deserialize_val}
use swarmrt.Eval.Messages.Laws.{IsFlat, deserialize_val-serialize_val}
use swarmrt.Eval.Steps.{find_fun, funs_of}
use swarmrt.Eval.Run.{eval, sw_lang_new, sw_lang_call}
use swarmrt.Eval.More.Run.{eval-enough}
use swarmrt.Eval.Safe.{Ready, Ends, AllOpen}
use swarmrt.Eval.Safe.Kids.{Kids, OfFun, EachDefault}
use swarmrt.Eval.Safe.Run.{Plain, OfFuns, Bounded, add_fun-OfFuns, sw_lang_call-Safe}

-- Numbers of one digit, and no floats.
abbrev digits : Host
digits = record {
  int_of = λ s. length s;
  float_of = λ s. 0;
  show_int = λ n. (b'0' + n) ∷ [];
  show_float = λ f. b'f' ∷ [];
  from_int = λ n. n;
  add_float = λ f g. 0;
  sub_float = λ f g. 0;
  mul_float = λ f g. 0;
  div_float = λ f g. 0;
  neg_float = λ f. 0;
  zero_float = λ f. f == 0;
  eq_float = λ f g. f == g;
  unknown_text = λ f n. f;
}

abbrev f_name : Bytes
f_name = b'f' ∷ []

abbrev n_name : Bytes
n_name = b'n' ∷ []

-- A number is written with as many strokes.
abbrev one_text : Bytes
one_text = b'1' ∷ []

-- fun f(n) { if n { n * f(n - 1) } else { 1 } }
abbrev factorial : Node
factorial =
    n_if_else (n_ident n_name)
      (n_binop times_word (n_ident n_name) (
        n_call (n_ident f_name)
          (node (n_binop minus_word (n_ident n_name) (n_int one_text)) no_nodes)))
      (n_int one_text)

abbrev program : Node
program = n_module f_name [] (node (n_fun f_name (param n_name no_params) factorial) no_nodes)

abbrev start : World
start = sw_lang_new 1 []

abbrev answer_of : Outcome Value → Option Value
answer_of (done v w) = some v
answer_of o = none

factorial_runs :
    answer_of (sw_lang_call digits program 19 f_name [] (values (int_val 3) no_values) start)
    ≡ some (int_val 6)
unfolding sw_lang_call
factorial_runs = refl

start-Ready : Ready start 0
unfolding AllOpen
start-Ready = record {
  self = (omega arith, refl, (omega arith, refl, tt));
  global = (omega arith, refl, (omega arith, refl, tt));
  none = refl;
}

program-OfFuns : OfFuns Plain (funs_of program)
unfolding OfFuns OfFun Plain find_fun funs_of EachDefault
program-OfFuns =
    add_fun-OfFuns Plain f_name (param n_name no_params) factorial no_nodes
      (tt, (tt, (tt, ((tt, tt), tt))), tt) tt (λ x. tt)

-- fun make(n) { fun() { n } }, and fun f(n) { g = make(n) g() }
abbrev make_name : Bytes
make_name = b'm' ∷ []

abbrev g_name : Bytes
g_name = b'g' ∷ []

abbrev maker : Node
maker = n_module f_name [] (
    node (n_fun make_name (param n_name no_params) (n_fun [] no_params (n_ident n_name))) (
      node
        (n_fun f_name (param n_name no_params) (
          n_block (
            node (n_assign g_name (n_call (n_ident make_name) (node (n_ident n_name) no_nodes)))
              (node (n_call (n_ident g_name) no_nodes) no_nodes))))
        no_nodes))

-- The closure is called when the environment that it was made in has been freed.
closure_outlives :
    sw_lang_call digits maker 19 f_name [] (values (int_val 3) no_values) start ≡ freed
unfolding sw_lang_call
closure_outlives = refl

sw_lang_call-Safe_example :
    Ends true 1 start
      (sw_lang_call digits program 19 f_name [] (values (int_val 3) no_values) start)
sw_lang_call-Safe_example =
    sw_lang_call-Safe digits program 19 f_name [] (values (int_val 3) no_values) start
      program-OfFuns start-Ready

-- x = 1 + 1
abbrev sum : Node
sum = n_assign n_name (n_binop plus_word (n_int one_text) (n_int one_text))

sum-Bounded : Bounded no_nodes 3 sum
unfolding Bounded Kids
sum-Bounded = (tt, tt)

eval-enough_example :
    (eval digits no_nodes 53 sum 0 start ≡ eval digits no_nodes 3 sum 0 start)
    × Ends false 0 start (eval digits no_nodes 3 sum 0 start)
eval-enough_example = eval-enough digits no_nodes 3 50 sum 0 start sum-Bounded start-Ready

abbrev word : Value
word = string_val n_name

deserialize_val-serialize_val_example : deserialize_val (serialize_val word) ≡ word
unfolding IsFlat
deserialize_val-serialize_val_example = deserialize_val-serialize_val word (omega arith)

concat_lem_example :
    (concat digits (string_val n_name) (string_val f_name) ≡ some (string_val (n_name ++ f_name)))
    × ((concat digits (string_val n_name) (int_val 7) ≡ none) ↔ (buffer_size ≤ 2))
concat_lem_example = concat_lem digits n_name f_name 7
