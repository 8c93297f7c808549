-- ===== src/Eval/More/Forms.antt =====
-- The evaluator of src/swarmrt_lang.c with more fuel.
use swarmrt.Base.{ℕ, zero, suc, Bool, true, Option, none, some, Bytes}
use swarmrt.Syntax.{
  Node, n_module, n_fun, n_block, n_assign, n_call, n_spawn, n_send, n_receive, n_receive_after,
  n_receive_never, n_if, n_if_else, n_binop, n_unary, n_pipe, n_int, n_float, n_string, n_atom,
  n_ident, n_tuple, n_list, n_self, n_map, n_for, n_range, n_try, n_list_cons, Nodes, no_nodes,
  node, Params, no_params, param, param_or, Clauses, no_clauses, clause, guarded, Fields, no_fields,
  field,
}
use swarmrt.Values.{Value, nil_val, Values, no_values, values}
use swarmrt.Eval.{Act, pure, Closure}
use swarmrt.Eval.Operators.{Host, is_truthy}
use swarmrt.Eval.Messages.{Wire, deserialize_val}
use swarmrt.Eval.Steps.{Call, closure_at, Fun, match_in, unknown, bind_params}
use swarmrt.Eval.Forms.{
  eval_block, eval_each, eval_fields, eval_items, eval_for, bind_all, call_fun, call_closure,
  call_value, call_named, pipe_fun, eval_pipe, eval_guard, eval_clause, eval_clauses, received,
  eval_receive, eval_catch, eval_node,
}
use swarmrt.Eval.More.{
  More, same-More, bind-More, then-More, look-More, branch-More, in_new-More, take_value-More, more,
}

-- Two evaluations of the nodes below, of which the second does what the first one does, unless this
-- runs out of fuel.
module _ (h : Host) (sub sub' : Node → ℕ → Act Value) (funs : Nodes)
    (v : (n : Node) (e : ℕ) → More (sub n e) (sub' n e)) where
  eval_block-More :
      (ns : Nodes) (r : Value) (e : ℕ) → More (eval_block sub ns r e) (eval_block sub' ns r e)
  unfolding eval_block
  eval_block-More no_nodes r e = same-More _
  eval_block-More (node n ns) r e = bind-More _ _ _ _ (v n e) (λ u. eval_block-More ns u e)

  eval_each-More :
      (c : ℕ) (ns : Nodes) (e : ℕ) → More (eval_each sub c ns e) (eval_each sub' c ns e)
  unfolding eval_each
  eval_each-More zero ns e = same-More _
  eval_each-More (suc c) no_nodes e = same-More _
  eval_each-More (suc c) (node n ns) e =
      bind-More _ _ _ _ (v n e) (λ u. bind-More _ _ _ _ (eval_each-More c ns e) (λ us. same-More _))

  eval_fields-More :
      (c : ℕ) (fs : Fields) (e : ℕ) → More (eval_fields sub c fs e) (eval_fields sub' c fs e)
  unfolding eval_fields
  eval_fields-More zero fs e = same-More _
  eval_fields-More (suc c) no_fields e = same-More _
  eval_fields-More (suc c) (field k n fs) e = bind-More _ _ _ _ (v k e) (λ u.
      bind-More _ _ _ _ (v n e)
        (λ u'. bind-More _ _ _ _ (eval_fields-More c fs e) (λ us. same-More _)))

  eval_items-More :
      (x : Bytes) (n : Node) (vs : Values) (r : Value) (e : ℕ)
      → More (eval_items sub x n vs r e) (eval_items sub' x n vs r e)
  unfolding eval_items
  eval_items-More x n no_values r e = same-More _
  eval_items-More x n (values u vs) r e =
      bind-More _ _ _ _ (then-More _ _ _ _ (same-More _) (v n e))
        (λ u'. eval_items-More x n vs u' e)

  eval_for-More :
      (x : Bytes) (n : Node) (o : Option Values) (e : ℕ)
      → More (eval_for sub x n o e) (eval_for sub' x n o e)
  unfolding eval_for
  eval_for-More x n none e = same-More _
  eval_for-More x n (some vs) e = eval_items-More x n vs nil_val e

  bind_all-More :
      (e : ℕ) (ps : Params) (vs : Values) → More (bind_all sub e ps vs) (bind_all sub' e ps vs)
  unfolding bind_all
  bind_all-More e no_params no_values = same-More _
  bind_all-More e no_params (values u vs) = same-More _
  bind_all-More e (param x ps) no_values =
      then-More _ _ _ _ (same-More _) (bind_all-More e ps no_values)
  bind_all-More e (param x ps) (values u vs) =
      then-More _ _ _ _ (same-More _) (bind_all-More e ps vs)
  bind_all-More e (param_or x n ps) no_values =
      bind-More _ _ _ _ (v n e)
        (λ u. then-More _ _ _ _ (same-More _) (bind_all-More e ps no_values))
  bind_all-More e (param_or x n ps) (values u vs) =
      then-More _ _ _ _ (same-More _) (bind_all-More e ps vs)

  call_fun-More :
      (o : Option Fun) (vs : Values) (m m' : Act Value)
      → More m m'
      → More (call_fun sub o vs m) (call_fun sub' o vs m')
  unfolding call_fun
  call_fun-More none vs m m' u = u
  call_fun-More (some f) vs m m' u =
      in_new-More 0 _ _ (λ c. then-More _ _ _ _ (bind_all-More c f.params vs) (v f.body c))

  pipe_fun-More :
      (o : Option Fun) (vs : Values) (m : Act Value)
      → More (pipe_fun sub o vs m) (pipe_fun sub' o vs m)
  unfolding pipe_fun
  pipe_fun-More none vs m = same-More m
  pipe_fun-More (some f) vs m =
      in_new-More 0 _ _
        (λ c. then-More _ _ _ _ (same-More (bind_params c f.params vs)) (v f.body c))

  call_closure-More :
      (o : Option Closure) (vs : Values) (m : Act Value)
      → More (call_closure sub o vs m) (call_closure sub' o vs m)
  unfolding call_closure
  call_closure-More none vs m = same-More m
  call_closure-More (some f) vs m =
      in_new-More f.closure_env _ _
        (λ c. then-More _ _ _ _ (same-More (bind_params c f.params vs)) (v f.body c))

  call_value-More :
      (f : Bytes) (o : Option Value) (vs : Values)
      → More (call_value h sub f o vs) (call_value h sub' f o vs)
  unfolding call_value
  call_value-More f o vs =
      look-More _ _ (λ w. call_closure-More (closure_at o w.closures) vs (unknown h f vs))

  call_named-More :
      (f : Bytes) (vs : Values) (e : ℕ)
      → More (call_named h sub funs f vs e) (call_named h sub' funs f vs e)
  unfolding call_named
  call_named-More f vs e = search (more, call_fun-More, call_value-More) depth 8

  eval_guard-More :
      (c : Bool) (n : Node) (e : ℕ) → More (eval_guard sub c n e) (eval_guard sub' c n e)
  unfolding eval_guard
  eval_guard-More c n e =
      branch-More c _ _ _ _ (bind-More _ _ _ _ (v n e) (λ u. same-More _)) (same-More _)

  eval_clause-More :
      (p : Node) (g g' : Act Bool) (n : Node) (u : Value) (e : ℕ)
      → More g g'
      → More (eval_clause h sub p g n u e) (eval_clause h sub' p g' n u e)
  unfolding eval_clause
  eval_clause-More p g g' n u e w =
      bind-More _ _ _ _ (same-More (match_in h p u e)) (λ c.
        branch-More c _ _ _ _ (bind-More _ _ _ _ w (λ d. eval_guard-More d n e)) (same-More _))

  eval_clauses-More :
      (cs : Clauses) (u : Value) (e : ℕ)
      → More (eval_clauses h sub cs u e) (eval_clauses h sub' cs u e)
  unfolding eval_clauses
  eval_clauses-More no_clauses u e = same-More _
  eval_clauses-More (clause p n cs) u e =
      bind-More _ _ _ _
        (in_new-More e _ _ (λ c. eval_clause-More p _ _ n u c (same-More (pure true))))
        (λ r. take_value-More r _ _ (eval_clauses-More cs u e))
  eval_clauses-More (guarded p g n cs) u e =
      bind-More _ _ _ _
        (in_new-More e _ _ (λ c.
          eval_clause-More p _ _ n u c
            (bind-More _ _ _ _ (v g c) (λ d. same-More (pure (is_truthy h d))))))
        (λ r. take_value-More r _ _ (eval_clauses-More cs u e))

  received-More :
      (cs : Clauses) (m m' : Act Value) (e : ℕ) (o : Option Wire)
      → More m m'
      → More (received h sub cs m e o) (received h sub' cs m' e o)
  unfolding received
  received-More cs m m' e none w = w
  received-More cs m m' e (some x) w = eval_clauses-More cs (deserialize_val x) e

  eval_pipe-More :
      (u : Value) (o : Option Call) (e : ℕ)
      → More (eval_pipe h sub funs u o e) (eval_pipe h sub' funs u o e)
  unfolding eval_pipe
  eval_pipe-More u none e = same-More _
  eval_pipe-More u (some c) e =
      bind-More _ _ _ _ (then-More _ _ _ _ (v c.func e) (eval_each-More 15 c.args e))
        (λ vs. search (pipe_fun-More))

  pub eval_node-More :
      (n : Node) (e : ℕ) → More (eval_node h sub funs n e) (eval_node h sub' funs n e)
  unfolding eval_node eval_receive eval_catch
  eval_node-More (n_assign x n) e = search (more, v)
  eval_node-More (n_block ns) e = eval_block-More ns nil_val e
  eval_node-More (n_binop op l r) e = search (more, v)
  eval_node-More (n_unary n) e = search (more, v)
  eval_node-More (n_if c n) e = search (more, v)
  eval_node-More (n_if_else c n m) e = search (more, v)
  eval_node-More (n_tuple ns) e = search (more, eval_each-More)
  eval_node-More (n_list ns) e = search (more, eval_each-More)
  eval_node-More (n_pipe n m) e = search (more, v, eval_pipe-More)
  eval_node-More (n_call f ns) e = search (more, eval_each-More, call_named-More)
  eval_node-More (n_spawn n) e = search (more, v)
  eval_node-More (n_send to n) e = search (more, v) depth 8
  eval_node-More (n_map fs) e = search (more, eval_fields-More)
  eval_node-More (n_for x iter body) e = search (more, v, eval_for-More)
  eval_node-More (n_range n m) e = search (more, v)
  eval_node-More (n_try n x body) e = search (more, v) depth 12
  eval_node-More (n_list_cons n m) e = search (more, v)
  eval_node-More (n_receive cs) e = search (more, received-More)
  eval_node-More (n_receive_after cs time n) e = search (more, received-More, v)
  eval_node-More (n_receive_never cs n) e = search (more, received-More, v)
  eval_node-More (n_module name x fs) e = same-More _
  eval_node-More (n_fun x ps m) e = same-More _
  eval_node-More (n_int s) e = same-More _
  eval_node-More (n_float s) e = same-More _
  eval_node-More (n_string s) e = same-More _
  eval_node-More (n_atom s) e = same-More _
  eval_node-More (n_ident s) e = same-More _
  eval_node-More n_self e = same-More _
