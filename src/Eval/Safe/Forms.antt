-- ===== src/Eval/Safe/Forms.antt =====
-- The cases of `eval` in src/swarmrt_lang.c, put together of steps that never use a freed environment.
use swarmrt.Base.{refl, [], ◌∙◌, ℕ, zero, suc, ◌≡◌, ap, Bool, true, Option, none, some, Bytes}
use swarmrt.Syntax.{
  Node, n_module, n_fun, n_block, n_assign, n_call, n_spawn, n_send, n_receive, n_receive_after,
  n_receive_never, n_if, n_if_else, n_binop, n_unary, n_pipe, n_int, n_float, n_string, n_atom,
  n_ident, n_tuple, n_list, n_self, n_map, n_for, n_range, n_try, n_list_cons, Nodes, no_nodes,
  node, Params, no_params, param, param_or, Clauses, no_clauses, clause, guarded, Fields, no_fields,
  field,
}
use swarmrt.Values.{
  Value, nil_val, int_val, float_val, string_val, atom_val, pid_val, tuple_val, list_val, fun_val,
  map_val, Values, no_values, values,
}
use swarmrt.Eval.{Act, look, Closure}
use swarmrt.Eval.Operators.{Host, is_truthy}
use swarmrt.Eval.Messages.{Wire, deserialize_val}
use swarmrt.Eval.Steps.{Call, closure_at, Fun, find_fun, unknown, take_value}
use swarmrt.Eval.Forms.{
  eval_block, eval_each, eval_fields, eval_items, eval_for, bind_all, call_fun, call_closure,
  call_value, call_named, pipe_fun, eval_pipe, eval_guard, eval_clause, eval_clauses, received,
  eval_receive, eval_catch, eval_node,
}
use swarmrt.Eval.Safe.{Safe, pure-Safe, branch-Safe, bind-Safe, then-Safe, env_set-Safe}
use swarmrt.Eval.Safe.News.{in_new-Safe, in_global-Safe}
use swarmrt.Eval.Safe.Steps.{steps, match_in-Safe, bind_params-Safe, unknown-Safe}
use swarmrt.Eval.Safe.Kids.{EachNode, EachField, EachClause, EachDefault, OfFun, OfPipe, Kids}

closure_at-none : (o : Option Value) → closure_at o [] ≡ none
unfolding closure_at
closure_at-none none = refl
closure_at-none (some nil_val) = refl
closure_at-none (some (int_val i)) = refl
closure_at-none (some (float_val g)) = refl
closure_at-none (some (string_val s)) = refl
closure_at-none (some (atom_val s)) = refl
closure_at-none (some (pid_val i)) = refl
closure_at-none (some (tuple_val us)) = refl
closure_at-none (some (list_val us)) = refl
closure_at-none (some (fun_val i)) = refl
closure_at-none (some (map_val es)) = refl

-- Nodes for which the evaluation below never uses a freed environment.
module _ (b : Bool) (h : Host) (sub : Node → ℕ → Act Value) (funs : Nodes) (Q : Node → Type 0)
    (v : (n : Node) (e : ℕ) → Q n → Safe b e (sub n e)) where
  eval_block-Safe :
      (ns : Nodes) (r : Value) (e : ℕ) → EachNode Q ns → Safe b e (eval_block sub ns r e)
  unfolding eval_block EachNode
  eval_block-Safe no_nodes r e q = search steps
  eval_block-Safe (node n ns) r e (p, q) = search (steps, v, p, eval_block-Safe ns _ e q)

  eval_each-Safe : (c : ℕ) (ns : Nodes) (e : ℕ) → EachNode Q ns → Safe b e (eval_each sub c ns e)
  unfolding eval_each EachNode
  eval_each-Safe zero ns e q = search steps
  eval_each-Safe (suc c) no_nodes e q = search steps
  eval_each-Safe (suc c) (node n ns) e (p, q) =
      bind-Safe b e _ _ (v n e p) (λ u. search (steps, eval_each-Safe c ns e q))

  eval_fields-Safe :
      (c : ℕ) (fs : Fields) (e : ℕ) → EachField Q fs → Safe b e (eval_fields sub c fs e)
  unfolding eval_fields EachField
  eval_fields-Safe zero fs e q = search steps
  eval_fields-Safe (suc c) no_fields e q = search steps
  eval_fields-Safe (suc c) (field k n fs) e (p, p', q) =
      bind-Safe b e _ _ (v k e p)
        (λ u. bind-Safe b e _ _ (v n e p') (λ u'. search (steps, eval_fields-Safe c fs e q)))

  eval_items-Safe :
      (x : Bytes) (n : Node) (vs : Values) (r : Value) (e : ℕ)
      → Q n
      → Safe b e (eval_items sub x n vs r e)
  unfolding eval_items
  eval_items-Safe x n no_values r e p = search steps
  eval_items-Safe x n (values u vs) r e p = search (steps, v, p, eval_items-Safe x n vs)

  eval_for-Safe :
      (x : Bytes) (n : Node) (o : Option Values) (e : ℕ) → Q n → Safe b e (eval_for sub x n o e)
  unfolding eval_for
  eval_for-Safe x n none e p = search steps
  eval_for-Safe x n (some vs) e p = eval_items-Safe x n vs nil_val e p

  bind_all-Safe :
      (e : ℕ) (ps : Params) (vs : Values) → EachDefault Q ps → Safe b e (bind_all sub e ps vs)
  unfolding bind_all EachDefault
  bind_all-Safe e no_params no_values q = search steps
  bind_all-Safe e no_params (values u vs) q = search steps
  bind_all-Safe e (param x ps) no_values q =
      then-Safe b e _ _ (env_set-Safe b e x nil_val) (bind_all-Safe e ps no_values q)
  bind_all-Safe e (param x ps) (values u vs) q =
      then-Safe b e _ _ (env_set-Safe b e x u) (bind_all-Safe e ps vs q)
  bind_all-Safe e (param_or x n ps) no_values (p, q) =
      bind-Safe b e _ _ (v n e p)
        (λ u. then-Safe b e _ _ (env_set-Safe b e x u) (bind_all-Safe e ps no_values q))
  bind_all-Safe e (param_or x n ps) (values u vs) (p, q) =
      then-Safe b e _ _ (env_set-Safe b e x u) (bind_all-Safe e ps vs q)

  call_fun-Safe :
      (o : Option Fun) (vs : Values) (m : Act Value) (e : ℕ)
      → OfFun Q o
      → Safe b e m
      → Safe b e (call_fun sub o vs m)
  unfolding call_fun OfFun
  call_fun-Safe none vs m e q u = u
  call_fun-Safe (some f) vs m e (p, q) u =
      in_global-Safe b e _ (λ c. then-Safe b c _ _ (bind_all-Safe c f.params vs q) (v f.body c p))

  call_closure-Safe :
      (o : Option Closure) (vs : Values) (m : Act Value) (e : ℕ)
      → o ≡ none
      → Safe b e m
      → Safe b e (call_closure sub o vs m)
  unfolding call_closure
  call_closure-Safe none vs m e p u = u
  call_closure-Safe (some c) vs m e p u = cc

  -- There are no closures, so that no variable holds a function with a body.
  call_value-Safe :
      (f : Bytes) (o : Option Value) (vs : Values) (e : ℕ) → Safe b e (call_value h sub f o vs)
  unfolding call_value look
  call_value-Safe f o vs e = record {
    ends = λ w r.
        (call_closure-Safe (closure_at o w.closures) vs (unknown h f vs) e
            (ap (closure_at o) r.none ∙ closure_at-none o) (unknown-Safe b e h f vs)).ends
          w r;
  }

  call_named-Safe :
      (f : Bytes) (vs : Values) (e : ℕ)
      → OfFun Q (find_fun funs f)
      → Safe b e (call_named h sub funs f vs e)
  unfolding call_named
  call_named-Safe f vs e q = search (steps, call_fun-Safe, call_value-Safe, q) depth 8

  pipe_fun-Safe :
      (o : Option Fun) (vs : Values) (m : Act Value) (e : ℕ)
      → OfFun Q o
      → Safe b e m
      → Safe b e (pipe_fun sub o vs m)
  unfolding pipe_fun OfFun
  pipe_fun-Safe none vs m e q u = u
  pipe_fun-Safe (some f) vs m e (p, q) u =
      in_global-Safe b e _
        (λ c. then-Safe b c _ _ (bind_params-Safe b c f.params vs) (v f.body c p))

  take_value-Safe :
      (o : Option Value) (m : Act Value) (e : ℕ) → Safe b e m → Safe b e (take_value o m)
  unfolding take_value
  take_value-Safe none m e u = u
  take_value-Safe (some r) m e u = pure-Safe b e r

  eval_guard-Safe : (c : Bool) (n : Node) (e : ℕ) → Q n → Safe b e (eval_guard sub c n e)
  unfolding eval_guard
  eval_guard-Safe c n e p =
      branch-Safe b e c _ _ (bind-Safe b e _ _ (v n e p) (λ u. pure-Safe b e (some u)))
        (pure-Safe b e none)

  -- A clause with a guard that never uses a freed environment either.
  eval_clause-Safe :
      (p : Node) (guard : Act Bool) (n : Node) (u : Value) (e : ℕ)
      → Q n
      → Safe b e guard
      → Safe b e (eval_clause h sub p guard n u e)
  unfolding eval_clause
  eval_clause-Safe p guard n u e q g = bind-Safe b e _ _ (match_in-Safe b h p u e) (λ c.
      branch-Safe b e c _ _ (bind-Safe b e _ _ g (λ d. eval_guard-Safe d n e q))
        (pure-Safe b e none))

  eval_clauses-Safe :
      (cs : Clauses) (u : Value) (e : ℕ) → EachClause Q cs → Safe b e (eval_clauses h sub cs u e)
  unfolding eval_clauses EachClause
  eval_clauses-Safe no_clauses u e q = search steps
  eval_clauses-Safe (clause p n cs) u e (a, q) =
      bind-Safe b e _ _ (in_new-Safe b e _ (λ c. eval_clause-Safe p _ n u c a (pure-Safe b c true)))
        (λ r. take_value-Safe r _ e (eval_clauses-Safe cs u e q))
  eval_clauses-Safe (guarded p g n cs) u e (a, a', q) =
      bind-Safe b e _ _
        (in_new-Safe b e _ (λ c.
          eval_clause-Safe p _ n u c a'
            (bind-Safe b c _ _ (v g c a) (λ d. pure-Safe b c (is_truthy h d)))))
        (λ r. take_value-Safe r _ e (eval_clauses-Safe cs u e q))

  received-Safe :
      (cs : Clauses) (m : Act Value) (e : ℕ) (o : Option Wire)
      → EachClause Q cs
      → Safe b e m
      → Safe b e (received h sub cs m e o)
  unfolding received
  received-Safe cs m e none q u = u
  received-Safe cs m e (some x) q u = eval_clauses-Safe cs (deserialize_val x) e q

  eval_pipe-Safe :
      (u : Value) (o : Option Call) (e : ℕ)
      → OfPipe Q funs o
      → Safe b e (eval_pipe h sub funs u o e)
  unfolding eval_pipe OfPipe
  eval_pipe-Safe u none e q = search steps
  eval_pipe-Safe u (some c) e (p, q, q') =
      bind-Safe b e _ _ (then-Safe b e _ _ (v c.func e p) (eval_each-Safe 15 c.args e q))
        (λ vs. pipe_fun-Safe _ (values u vs) _ e q' (search steps))

  pub eval_node-Safe : (n : Node) (e : ℕ) → Kids Q funs n → Safe b e (eval_node h sub funs n e)
  unfolding eval_node eval_receive eval_catch Kids
  eval_node-Safe (n_int s) e q = search steps
  eval_node-Safe (n_float s) e q = search steps
  eval_node-Safe (n_string s) e q = search steps
  eval_node-Safe (n_atom s) e q = search steps
  eval_node-Safe n_self e q = search steps
  eval_node-Safe (n_ident x) e q = search steps
  eval_node-Safe (n_assign x n) e q = search (steps, v, q)
  eval_node-Safe (n_block ns) e q = eval_block-Safe ns nil_val e q
  eval_node-Safe (n_binop op l r) e (p, q) = search (steps, v, p, q)
  eval_node-Safe (n_unary n) e q = search (steps, v, q)
  eval_node-Safe (n_if c n) e (p, q) = search (steps, v, p, q)
  eval_node-Safe (n_if_else c n m) e (p, q, q') = search (steps, v, p, q, q')
  eval_node-Safe (n_tuple ns) e q = search (steps, eval_each-Safe, q)
  eval_node-Safe (n_list ns) e q = search (steps, eval_each-Safe, q)
  eval_node-Safe (n_pipe n m) e (p, q) = search (steps, v, p, eval_pipe-Safe, q)
  eval_node-Safe (n_call f ns) e (p, q) = search (steps, eval_each-Safe, p, call_named-Safe, q)
  eval_node-Safe (n_spawn n) e q = search (steps, v, q)
  eval_node-Safe (n_send to n) e (p, q) = search (steps, v, p, q) depth 8
  eval_node-Safe (n_map fs) e q = search (steps, eval_fields-Safe, q)
  eval_node-Safe (n_for x iter body) e (p, q) = search (steps, v, p, eval_for-Safe, q)
  eval_node-Safe (n_range n m) e (p, q) = search (steps, v, p, q)
  eval_node-Safe (n_try n x body) e (p, q) = search (steps, v, p, q) depth 12
  eval_node-Safe (n_list_cons n m) e (p, q) = search (steps, v, p, q)
  eval_node-Safe (n_fun name ps body) e q = absurd q
  eval_node-Safe (n_receive cs) e q = search (steps, received-Safe, q)
  eval_node-Safe (n_receive_after cs time n) e (p, q) = search (steps, received-Safe, v, p, q)
  eval_node-Safe (n_receive_never cs n) e (p, q) = search (steps, received-Safe, v, p, q)
  eval_node-Safe (n_module name exports fs) e q = search steps
