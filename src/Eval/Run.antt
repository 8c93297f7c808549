-- ===== src/Eval/Run.antt =====
-- The evaluator of src/swarmrt_lang.c on fuel (`eval`), and the start of a program (`sw_lang_new`,
-- `sw_lang_call`).
use swarmrt.Base.{
  ℕ, zero, suc, List, [], ◌∷◌, true, false, if◌then◌else◌, Option, none, some, ◌==◌, Bytes,
}
use swarmrt.Syntax.{Node, Nodes}
use swarmrt.Values.{Value, nil_val, Values}
use swarmrt.Eval.{World, done, Act, pure, ◌>>◌, look, branch, fail_fuel, in_new}
use swarmrt.Eval.Operators.{Host}
use swarmrt.Eval.Messages.{Wire}
use swarmrt.Eval.Steps.{Fun, find_fun, funs_of, bind_params}
use swarmrt.Eval.Forms.{eval_node}

-- `eval`; the fuel is the depth of its calls of itself.
unfoldable pub eval : Host → Nodes → ℕ → Node → ℕ → Act Value
unfolding look branch pure eval_node fail_fuel
eval h funs zero n e = fail_fuel
eval h funs (suc k) n e =
    look (λ w. branch w.error (pure nil_val) (eval_node h (eval h funs k) funs n e))

-- `sw_lang_new`, with the process that calls it and its messages.
abbrev pub sw_lang_new : ℕ → List Wire → World
sw_lang_new self inbox = record {
  frames = λ e h. [];
  chain = λ e. if e == 0 then 0 ∷ [] else [];
  live = λ e. e == 0;
  next_env = 1;
  closures = [];
  error = false;
  error_msg = [];
  assert_failed = false;
  self = self;
  inbox = inbox;
  sent = [];
}

-- The error of `sw_lang_call`; its text is a parameter.
unfoldable pub not_found : Bytes → Act Value
not_found text w = done nil_val (record w { error = true; error_msg = text })

unfoldable pub run_fun : Host → Nodes → ℕ → Option Fun → Bytes → Values → Act Value
unfolding in_new ◌>>◌ bind_params eval not_found
run_fun h funs k none text vs = not_found text
run_fun h funs k (some f) text vs =
    in_new 0 (λ e. bind_params e f.params vs >> eval h funs k f.body e)

-- `sw_lang_call`
unfoldable pub sw_lang_call : Host → Node → ℕ → Bytes → Bytes → Values → Act Value
unfolding run_fun find_fun funs_of
sw_lang_call h n k name text vs = run_fun h (funs_of n) k (find_fun (funs_of n) name) text vs
