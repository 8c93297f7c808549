-- ===== src/Eval/Steps.antt =====
-- The steps of `eval` in src/swarmrt_lang.c that evaluate no node: `find_fun`, patterns, messages,
-- assertions and parameters. The parser only makes calls whose function is a name.
use swarmrt.Base.{
  get_elem?, ℕ, zero, suc, List, [], ◌∷◌, ◌++◌, Bool, true, false, Option, none, some,
  if◌then◌else◌, length, Bytes, bytes_eq,
}
use swarmrt.Syntax.{
  n_call, Node, n_module, n_fun, n_int, n_float, n_string, n_atom, n_ident, n_tuple, n_list, n_map,
  n_list_cons, Nodes, no_nodes, node, Params, no_params, param, param_or, Fields, no_fields, field,
}
use swarmrt.Values.{
  list_val, Values, Value, nil_val, atom_val, pid_val, fun_val, no_values, values, count_values,
  Key, atom_key, string_key, int_key, other_key,
}
use swarmrt.Scope.{Env}
use swarmrt.Registry.{update}
use swarmrt.Patterns.{
  Pattern, ident_pat, int_pat, float_pat, string_pat, atom_pat, tuple_pat, list_pat, cons_pat,
  map_pat, other_pat, Patterns, no_patterns, patterns, fields, pattern_match,
}
use swarmrt.Eval.{Closure, World, Outcome, done, freed, Act, pure, ◌>>◌, fail_overrun, env_set}
use swarmrt.Eval.Words.{ok_word, error_word}
use swarmrt.Eval.Operators.{Host}
use swarmrt.Eval.Messages.{Wire, serialize_val}

-- A function of a module.
pub record Fun : Type 0 where
  pub name : Bytes
  pub params : Params
  pub body : Node

abbrev or_fun : Bool → Fun → Option Fun → Option Fun
or_fun true f rest = some f
or_fun false f rest = rest

-- `find_fun`
unfoldable pub find_fun : Nodes → Bytes → Option Fun
find_fun no_nodes x = none
find_fun (node (n_fun name ps body) fs) x =
    or_fun (bytes_eq name x) (record { name = name; params = ps; body = body }) (find_fun fs x)
find_fun (node n fs) x = find_fun fs x

-- The functions of a module.
unfoldable pub funs_of : Node → Nodes
funs_of (n_module name exports fs) = fs
funs_of n = no_nodes

-- `n->v.call.func->v.sval`
unfoldable pub func_name : Node → Bytes
func_name (n_ident x) = x
func_name n = []

-- A call as a node.
pub record Call : Type 0 where
  pub func : Node
  pub args : Nodes

unfoldable pub as_call : Node → Option Call
as_call (n_call f ns) = some (record { func = f; args = ns })
as_call n = none

-- The items of a list, and no other value.
unfoldable pub as_list : Value → Option Values
as_list (list_val vs) = some vs
as_list v = none

-- The closure of a function; a function that is not in the list has no body.
unfoldable pub closure_at : Option Value → List Closure → Option Closure
closure_at (some (fun_val i)) cs = get_elem? cs i
closure_at v cs = none

unfoldable pub to_key : Host → Node → Key
to_key h (n_atom s) = atom_key s
to_key h (n_string s) = string_key s
to_key h (n_int s) = int_key (h.int_of s)
to_key h n = other_key

unfoldable mutual
  unfolding to_key

  -- A node as a pattern.
  pub to_pattern : Host → Node → Pattern
  to_pattern h (n_ident x) = ident_pat x
  to_pattern h (n_int s) = int_pat (h.int_of s)
  to_pattern h (n_float s) = float_pat (h.float_of s)
  to_pattern h (n_string s) = string_pat s
  to_pattern h (n_atom s) = atom_pat s
  to_pattern h (n_tuple ns) = tuple_pat (to_patterns h ns)
  to_pattern h (n_list ns) = list_pat (to_patterns h ns)
  to_pattern h (n_list_cons p q) = cons_pat (to_pattern h p) (to_pattern h q)
  to_pattern h (n_map fs) = map_pat (to_fields h fs)
  to_pattern h n = other_pat

  to_patterns : Host → Nodes → Patterns
  to_patterns h no_nodes = no_patterns
  to_patterns h (node n ns) = patterns (to_pattern h n) (to_patterns h ns)

  to_fields : Host → Fields → swarmrt.Patterns.Fields
  to_fields h no_fields = swarmrt.Patterns.no_fields
  to_fields h (field k p fs) = fields (to_key h k) (to_pattern h p) (to_fields h fs)

abbrev matched : ℕ → World → Bool × Env → Outcome Bool
matched e w r = done r.0 (record w { frames = update w.frames e r.1.frame })

-- `pattern_match` in an environment, whose variables it sets.
unfoldable pub match_in : Host → Node → Value → ℕ → Act Bool
unfolding pattern_match to_pattern
match_in h p v e w =
    if w.live e
    then matched e w
        (pattern_match h.eq_float (to_pattern h p) v (record { frame = w.frames e; parents = [] }))
    else freed

unfoldable pub or_fail : Option Value → Act Value
unfolding pure fail_overrun
or_fail none = fail_overrun
or_fail (some v) = pure v

-- An assertion, if there is one.
unfoldable pub or_assert : Option Bool → Act Value → Act Value
or_assert none m w = m w
or_assert (some true) m w = done (atom_val ok_word) w
or_assert (some false) m w = done (atom_val error_word) (record w { assert_failed = true })

-- The message of an unknown function.
unfoldable pub unknown : Host → Bytes → Values → Act Value
unfolding count_values
unknown h f vs w =
    done nil_val (record w { error = true; error_msg = h.unknown_text f (count_values vs) })

-- `sw_send_tagged`, unless the receiver is none or NULL.
unfoldable pub send_to : Value → Value → Act {0} Unit
unfolding serialize_val
send_to (pid_val zero) v w = done tt w
send_to (pid_val (suc p)) v w = done tt (record w { sent = (suc p, serialize_val v) ∷ w.sent })
send_to u v w = done tt w

unfoldable pub next_msg : List Wire → Act (Option Wire)
next_msg [] w = done none w
next_msg (m ∷ ms) w = done (some m) (record w { inbox = ms })

-- `sw_receive_any`
unfoldable pub receive_any : Act (Option Wire)
unfolding next_msg
receive_any w = next_msg w.inbox w

-- The end of an error, with its message.
unfoldable pub caught : Act Bytes
caught w = done w.error_msg (record w { error = false; error_msg = [] })

-- The variables of parameters, as far as there are arguments.
unfoldable pub bind_params : ℕ → Params → Values → Act {0} Unit
unfolding env_set ◌>>◌ pure
bind_params e no_params vs = pure tt
bind_params e ps no_values = pure tt
bind_params e (param x ps) (values v vs) = env_set e x v >> bind_params e ps vs
bind_params e (param_or x d ps) (values v vs) = env_set e x v >> bind_params e ps vs

unfoldable pub take_value : Option Value → Act Value → Act Value
unfolding pure
take_value none m = m
take_value (some v) m = pure v

-- N_FUN of an expression.
unfoldable pub make_closure : Params → Node → ℕ → Act Value
make_closure ps body e w = done (fun_val (length w.closures)) (record w {
  closures = w.closures ++ (record { params = ps; body = body; closure_env = e } ∷ []);
})
