-- ===== src/Eval/Forms.antt =====
-- The cases of `eval` in src/swarmrt_lang.c, with the evaluation of the nodes below as a parameter.
use swarmrt.Base.{ℕ, zero, suc, Bool, true, Option, none, some, Bytes}
use swarmrt.Syntax.{
  Node, n_module, n_fun, n_block, n_assign, n_call, n_spawn, n_send, n_receive, n_receive_after,
  n_receive_never, n_if, n_if_else, n_binop, n_unary, n_pipe, n_int, n_float, n_string, n_atom,
  n_ident, n_tuple, n_list, n_self, n_map, n_for, n_range, n_try, n_list_cons, Nodes, no_nodes,
  node, Params, no_params, param, param_or, Clauses, no_clauses, clause, guarded, Fields, no_fields,
  field,
}
use swarmrt.Values.{
  Value, nil_val, int_val, float_val, string_val, atom_val, pid_val, tuple_val, list_val, map_val,
  Values, no_values, values, Entries, no_entries, entries,
}
use swarmrt.Eval.{
  Closure, Act, pure, ◌>>=◌, ◌>>◌, look, branch, or_try, env_set, env_get, in_new, or_nil,
}
use swarmrt.Eval.Operators.{Host, is_truthy, binop, unary}
use swarmrt.Eval.Messages.{Wire, deserialize_val}
use swarmrt.Eval.Builtins.{builtin, shared_builtin, assertion, range, cons}
use swarmrt.Eval.Steps.{
  Call, as_call, as_list, closure_at, Fun, find_fun, func_name, match_in, or_fail, or_assert,
  unknown, send_to, receive_any, caught, bind_params, take_value, make_closure,
}

-- `sub` evaluates a node in an environment, and 0 is the address of the global environment.
module _ (sub : Node → ℕ → Act Value) where
  -- The statements of a block; the last one has its value.
  unfoldable pub eval_block : Nodes → Value → ℕ → Act Value
  unfolding ◌>>=◌ pure
  eval_block no_nodes v e = pure v
  eval_block (node n ns) v e = sub n e >>= λ u. eval_block ns u e

  -- The first nodes, at most as many as the number.
  unfoldable pub eval_each : ℕ → Nodes → ℕ → Act Values
  unfolding ◌>>=◌ pure
  eval_each zero ns e = pure no_values
  eval_each (suc c) no_nodes e = pure no_values
  eval_each (suc c) (node n ns) e = sub n e >>= λ v. eval_each c ns e >>= λ vs. pure (values v vs)

  unfoldable pub eval_fields : ℕ → Fields → ℕ → Act Entries
  unfolding ◌>>=◌ pure
  eval_fields zero fs e = pure no_entries
  eval_fields (suc c) no_fields e = pure no_entries
  eval_fields (suc c) (field k n fs) e =
      sub k e >>= λ u. sub n e >>= λ v. eval_fields c fs e >>= λ es. pure (entries u v es)

  -- The loop of N_FOR, with the value before.
  unfoldable pub eval_items : Bytes → Node → Values → Value → ℕ → Act Value
  unfolding ◌>>=◌ ◌>>◌ pure env_set
  eval_items x body no_values r e = pure r
  eval_items x body (values v vs) r e =
      env_set e x v >> sub body e >>= λ u. eval_items x body vs u e

  unfoldable pub eval_for : Bytes → Node → Option Values → ℕ → Act Value
  unfolding eval_items pure
  eval_for x body none e = pure nil_val
  eval_for x body (some vs) e = eval_items x body vs nil_val e

  -- The variables of all parameters: the argument, or else the default, or else nil.
  unfoldable pub bind_all : ℕ → Params → Values → Act {0} Unit
  unfolding ◌>>=◌ ◌>>◌ pure env_set
  bind_all e no_params vs = pure tt
  bind_all e (param x ps) no_values = env_set e x nil_val >> bind_all e ps no_values
  bind_all e (param x ps) (values v vs) = env_set e x v >> bind_all e ps vs
  bind_all e (param_or x d ps) no_values = sub d e >>= λ v. env_set e x v >> bind_all e ps no_values
  bind_all e (param_or x d ps) (values v vs) = env_set e x v >> bind_all e ps vs

  -- A call of a function of the module, or else another step.
  unfoldable pub call_fun : Option Fun → Values → Act Value → Act Value
  unfolding in_new ◌>>◌ bind_all
  call_fun none vs m = m
  call_fun (some f) vs m = in_new 0 (λ e. bind_all e f.params vs >> sub f.body e)

  unfoldable pub call_closure : Option Closure → Values → Act Value → Act Value
  unfolding in_new ◌>>◌ bind_params
  call_closure none vs m = m
  call_closure (some c) vs m = in_new c.closure_env (λ e. bind_params e c.params vs >> sub c.body e)

  -- A pipe into a function of the module, which has no defaults, or else another step.
  unfoldable pub pipe_fun : Option Fun → Values → Act Value → Act Value
  unfolding in_new ◌>>◌ bind_params
  pipe_fun none vs m = m
  pipe_fun (some f) vs m = in_new 0 (λ e. bind_params e f.params vs >> sub f.body e)

  -- The body of a clause whose guard, if it has one, holds.
  unfoldable pub eval_guard : Bool → Node → ℕ → Act (Option Value)
  unfolding ◌>>=◌ branch pure
  eval_guard b body e = branch b (sub body e >>= λ v. pure (some v)) (pure none)

  -- N_TRY behind its body.
  unfoldable pub eval_catch : Value → Bytes → Node → ℕ → Act Value
  unfolding ◌>>=◌ ◌>>◌ look branch pure in_new env_set caught
  eval_catch v x body e = look (λ w.
      branch w.error (caught >>= λ s. in_new e (λ c. env_set c x (string_val s) >> sub body c))
        (pure v))

module _ (h : Host) (sub : Node → ℕ → Act Value) where
  -- A call of what a variable holds.
  unfoldable pub call_value : Bytes → Option Value → Values → Act Value
  unfolding call_closure unknown look closure_at
  call_value f o vs = look (λ w. call_closure sub (closure_at o w.closures) vs (unknown h f vs))

  -- A clause of a receive in its environment; none if it is not taken.
  unfoldable pub eval_clause : Node → Act Bool → Node → Value → ℕ → Act (Option Value)
  unfolding ◌>>=◌ branch pure match_in eval_guard
  eval_clause p guard body v e =
      match_in h p v e >>= λ b. branch b (guard >>= λ g. eval_guard sub g body e) (pure none)

  -- The loop over the clauses of a receive.
  unfoldable pub eval_clauses : Clauses → Value → ℕ → Act Value
  unfolding ◌>>=◌ pure in_new eval_clause take_value is_truthy
  eval_clauses no_clauses v e = pure v
  eval_clauses (clause p body cs) v e =
      in_new e (λ c. eval_clause p (pure true) body v c) >>= λ r. take_value r (eval_clauses cs v e)
  eval_clauses (guarded p guard body cs) v e =
      in_new e (λ c. eval_clause p (sub guard c >>= λ g. pure (is_truthy h g)) body v c) >>= λ r.
      take_value r (eval_clauses cs v e)

  -- N_RECEIVE, with what is done after the time.
  unfoldable pub received : Clauses → Act Value → ℕ → Option Wire → Act Value
  unfolding eval_clauses deserialize_val
  received cs after e none = after
  received cs after e (some m) = eval_clauses cs (deserialize_val m) e

  unfoldable pub eval_receive : Clauses → Act Value → ℕ → Act Value
  unfolding ◌>>=◌ receive_any received
  eval_receive cs after e = receive_any >>= λ m. received cs after e m

-- `funs` are the functions of the module.
module _ (h : Host) (sub : Node → ℕ → Act Value) (funs : Nodes) where
  -- N_CALL behind its arguments.
  unfoldable pub call_named : Bytes → Values → ℕ → Act Value
  unfolding or_try or_assert call_fun call_value ◌>>=◌ env_get find_fun builtin shared_builtin
      assertion
  call_named f vs e = or_try (shared_builtin f vs) (
      or_try (builtin h f vs) (
        or_assert (assertion h f vs)
          (call_fun sub (find_fun funs f) vs (env_get e f >>= λ v. call_value h sub f v vs))))

  -- N_PIPE with the value of its left side and its right side, if this is a call.
  unfoldable pub eval_pipe : Value → Option Call → ℕ → Act Value
  unfolding ◌>>=◌ ◌>>◌ pure eval_each pipe_fun or_try or_assert find_fun func_name shared_builtin
      assertion
  eval_pipe v none e = pure v
  eval_pipe v (some c) e = sub c.func e >> eval_each sub 15 c.args e >>= λ vs.
      pipe_fun sub (find_fun funs (func_name c.func)) (values v vs) (
        or_try (shared_builtin (func_name c.func) (values v vs))
          (or_assert (assertion h (func_name c.func) (values v vs)) (pure v)))

  -- `eval` of a node where there is no error.
  unfoldable pub eval_node : Node → ℕ → Act Value
  unfolding ◌>>=◌ ◌>>◌ pure look branch env_set env_get eval_block eval_each eval_fields eval_for
      call_named eval_pipe eval_receive eval_catch make_closure func_name send_to or_fail binop
      as_list as_call unary is_truthy range cons
  eval_node (n_int s) e = pure (int_val (h.int_of s))
  eval_node (n_float s) e = pure (float_val (h.float_of s))
  eval_node (n_string s) e = pure (string_val s)
  eval_node (n_atom s) e = pure (atom_val s)
  eval_node n_self e = look (λ w. pure (pid_val w.self))
  eval_node (n_ident x) e = env_get e x >>= λ v. pure (or_nil v)
  eval_node (n_assign x n) e = sub n e >>= λ v. env_set e x v >> pure v
  eval_node (n_block ns) e = eval_block sub ns nil_val e
  eval_node (n_binop op l r) e = sub l e >>= λ u. sub r e >>= λ v. or_fail (binop h op u v)
  eval_node (n_unary n) e = sub n e >>= λ v. pure (unary h v)
  eval_node (n_if c n) e = sub c e >>= λ v. branch (is_truthy h v) (sub n e) (pure nil_val)
  eval_node (n_if_else c n m) e = sub c e >>= λ v. branch (is_truthy h v) (sub n e) (sub m e)
  eval_node (n_tuple ns) e = eval_each sub 64 ns e >>= λ vs. pure (tuple_val vs)
  eval_node (n_list ns) e = eval_each sub 256 ns e >>= λ vs. pure (list_val vs)
  eval_node (n_pipe n m) e = sub n e >>= λ v. eval_pipe v (as_call m) e
  eval_node (n_call f ns) e = eval_each sub 16 ns e >>= λ vs. call_named (func_name f) vs e
  eval_node (n_spawn n) e = sub n e >> pure (pid_val 0)
  eval_node (n_send to n) e = sub to e >>= λ p. sub n e >>= λ v. send_to p v >> pure v
  eval_node (n_map fs) e = eval_fields sub 64 fs e >>= λ es. pure (map_val es)
  eval_node (n_for x iter body) e = sub iter e >>= λ v. eval_for sub x body (as_list v) e
  eval_node (n_range n m) e = sub n e >>= λ u. sub m e >>= λ v. pure (range u v)
  eval_node (n_try n x body) e = sub n e >>= λ v. eval_catch sub v x body e
  eval_node (n_list_cons n m) e = sub n e >>= λ u. sub m e >>= λ v. pure (cons u v)
  eval_node (n_fun name ps body) e = make_closure ps body e
  eval_node (n_receive cs) e = eval_receive h sub cs (pure nil_val) e
  eval_node (n_receive_after cs time n) e = eval_receive h sub cs (sub n e) e
  eval_node (n_receive_never cs n) e = eval_receive h sub cs (sub n e) e
  eval_node (n_module name exports fs) e = pure nil_val
