-- ===== src/Eval/Safe/Run.antt =====
-- Programs of src/swarmrt_lang.c without anonymous functions, and nodes whose calls are bounded.
use swarmrt.Base.{
  ℕ, zero, suc, refl, true, false, Bool-cases, inl, inr, Option, none, some, Bytes, bytes_eq,
}
use swarmrt.Syntax.{
  Node, n_module, n_fun, n_block, n_assign, n_call, n_spawn, n_send, n_receive, n_receive_after,
  n_receive_never, n_if, n_if_else, n_binop, n_unary, n_pipe, n_int, n_float, n_string, n_atom,
  n_ident, n_tuple, n_list, n_self, n_map, n_for, n_range, n_try, n_list_cons, Nodes, no_nodes,
  node, Params, Clauses, no_clauses, clause, guarded, Fields, no_fields, field,
}
use swarmrt.Values.{nil_val, Values}
use swarmrt.Eval.{World}
use swarmrt.Eval.Operators.{Host}
use swarmrt.Eval.Steps.{as_call, Fun, find_fun, func_name, funs_of}
use swarmrt.Eval.Run.{eval, run_fun, sw_lang_call}
use swarmrt.Eval.Safe.{Ready, Ends, Safe, pure-Safe, fuel-Safe, look-Safe, branch-Safe, then-Safe}
use swarmrt.Eval.Safe.News.{in_new-Ends}
use swarmrt.Eval.Safe.Steps.{bind_params-Safe, not_found-Ends}
use swarmrt.Eval.Safe.Kids.{EachNode, EachField, EachClause, EachDefault, OfFun, OfPipe, Kids}
use swarmrt.Eval.Safe.Forms.{eval_node-Safe}

unfoldable mutual
  -- There is no anonymous function in the node.
  pub Plain : Node → Type 0
  Plain (n_assign x n) = Plain n
  Plain (n_block ns) = PlainNodes ns
  Plain (n_binop op l r) = Plain l × Plain r
  Plain (n_unary n) = Plain n
  Plain (n_if c n) = Plain c × Plain n
  Plain (n_if_else c n m) = Plain c × Plain n × Plain m
  Plain (n_tuple ns) = PlainNodes ns
  Plain (n_list ns) = PlainNodes ns
  Plain (n_pipe n m) = Plain n × Plain m
  Plain (n_call f ns) = Plain f × PlainNodes ns
  Plain (n_spawn n) = Plain n
  Plain (n_send to n) = Plain to × Plain n
  Plain (n_map fs) = PlainFields fs
  Plain (n_for x iter body) = Plain iter × Plain body
  Plain (n_range n m) = Plain n × Plain m
  Plain (n_try n x body) = Plain n × Plain body
  Plain (n_list_cons n m) = Plain n × Plain m
  Plain (n_fun name ps body) = ⊥
  Plain (n_receive cs) = PlainClauses cs
  Plain (n_receive_after cs time n) = PlainClauses cs × Plain n
  Plain (n_receive_never cs n) = PlainClauses cs × Plain n
  Plain n = Unit

  pub PlainNodes : Nodes → Type 0
  PlainNodes no_nodes = Unit
  PlainNodes (node n ns) = Plain n × PlainNodes ns

  pub PlainFields : Fields → Type 0
  PlainFields no_fields = Unit
  PlainFields (field k n fs) = Plain k × Plain n × PlainFields fs

  pub PlainClauses : Clauses → Type 0
  PlainClauses no_clauses = Unit
  PlainClauses (clause p body cs) = Plain body × PlainClauses cs
  PlainClauses (guarded p guard body cs) = Plain guard × Plain body × PlainClauses cs

PlainNodes-EachNode : (ns : Nodes) → PlainNodes ns → EachNode Plain ns
unfolding PlainNodes EachNode
PlainNodes-EachNode no_nodes p = tt
PlainNodes-EachNode (node n ns) (p, q) = (p, PlainNodes-EachNode ns q)

PlainFields-EachField : (fs : Fields) → PlainFields fs → EachField Plain fs
unfolding PlainFields EachField
PlainFields-EachField no_fields p = tt
PlainFields-EachField (field k n fs) (p, q, r) = (p, q, PlainFields-EachField fs r)

PlainClauses-EachClause : (cs : Clauses) → PlainClauses cs → EachClause Plain cs
unfolding PlainClauses EachClause
PlainClauses-EachClause no_clauses p = tt
PlainClauses-EachClause (clause x n cs) (p, q) = (p, PlainClauses-EachClause cs q)
PlainClauses-EachClause (guarded x g n cs) (p, q, r) = (p, q, PlainClauses-EachClause cs r)

-- The predicate holds of the bodies and the defaults of the functions of a module.
unfoldable pub OfFuns : (Node → Type 0) → Nodes → Type 0
unfolding OfFun find_fun
OfFuns Q funs = (x : Bytes) → OfFun Q (find_fun funs x)

pub add_fun-OfFuns :
    (Q : Node → Type 0) (name : Bytes) (ps : Params) (body : Node) (fs : Nodes)
    → Q body
    → EachDefault Q ps
    → OfFuns Q fs
    → OfFuns Q (node (n_fun name ps body) fs)
unfolding OfFuns OfFun find_fun
add_fun-OfFuns Q name ps body fs p q rest x = elim (Bool-cases (bytes_eq name x)) [
  | inl e ↦ rw e (p, q)
  | inr e ↦ rw e (rest x)
]

module _ (funs : Nodes) (whole : OfFuns Plain funs) where
  Plain-OfPipe : (n : Node) → Plain n → OfPipe Plain funs (as_call n)
  unfolding Plain OfPipe OfFuns as_call
  Plain-OfPipe (n_call f ns) (p, q) = (p, PlainNodes-EachNode ns q, whole (func_name f))
  Plain-OfPipe (n_module name x fs) p = tt
  Plain-OfPipe (n_fun x ps m) p = tt
  Plain-OfPipe (n_block ns) p = tt
  Plain-OfPipe (n_assign x m) p = tt
  Plain-OfPipe (n_spawn m) p = tt
  Plain-OfPipe (n_send m l) p = tt
  Plain-OfPipe (n_receive cs) p = tt
  Plain-OfPipe (n_receive_after cs x m) p = tt
  Plain-OfPipe (n_receive_never cs m) p = tt
  Plain-OfPipe (n_if m l) p = tt
  Plain-OfPipe (n_if_else m l r) p = tt
  Plain-OfPipe (n_binop op l r) p = tt
  Plain-OfPipe (n_unary m) p = tt
  Plain-OfPipe (n_pipe m l) p = tt
  Plain-OfPipe (n_int s) p = tt
  Plain-OfPipe (n_float s) p = tt
  Plain-OfPipe (n_string s) p = tt
  Plain-OfPipe (n_atom s) p = tt
  Plain-OfPipe (n_ident s) p = tt
  Plain-OfPipe (n_tuple ns) p = tt
  Plain-OfPipe (n_list ns) p = tt
  Plain-OfPipe (n_map fs) p = tt
  Plain-OfPipe (n_for x m l) p = tt
  Plain-OfPipe (n_range m l) p = tt
  Plain-OfPipe (n_try m x l) p = tt
  Plain-OfPipe (n_list_cons m l) p = tt
  Plain-OfPipe n_self p = tt

  Plain-Kids : (n : Node) → Plain n → Kids Plain funs n
  unfolding Plain Kids OfFuns
  Plain-Kids (n_block ns) p = PlainNodes-EachNode ns p
  Plain-Kids (n_tuple ns) p = PlainNodes-EachNode ns p
  Plain-Kids (n_list ns) p = PlainNodes-EachNode ns p
  Plain-Kids (n_map fs) p = PlainFields-EachField fs p
  Plain-Kids (n_pipe m l) (p, q) = (p, Plain-OfPipe l q)
  Plain-Kids (n_call f ns) (p, q) = (PlainNodes-EachNode ns q, whole (func_name f))
  Plain-Kids (n_receive cs) p = PlainClauses-EachClause cs p
  Plain-Kids (n_receive_after cs x m) (p, q) = (PlainClauses-EachClause cs p, q)
  Plain-Kids (n_receive_never cs m) (p, q) = (PlainClauses-EachClause cs p, q)
  Plain-Kids (n_module name x fs) p = p
  Plain-Kids (n_fun x ps m) p = p
  Plain-Kids (n_assign x m) p = p
  Plain-Kids (n_spawn m) p = p
  Plain-Kids (n_send m l) p = p
  Plain-Kids (n_if m l) p = p
  Plain-Kids (n_if_else m l r) p = p
  Plain-Kids (n_binop op l r) p = p
  Plain-Kids (n_unary m) p = p
  Plain-Kids (n_int s) p = p
  Plain-Kids (n_float s) p = p
  Plain-Kids (n_string s) p = p
  Plain-Kids (n_atom s) p = p
  Plain-Kids (n_ident s) p = p
  Plain-Kids (n_for x m l) p = p
  Plain-Kids (n_range m l) p = p
  Plain-Kids (n_try m x l) p = p
  Plain-Kids (n_list_cons m l) p = p
  Plain-Kids n_self p = p

  eval-Plain : (h : Host) (k : ℕ) (n : Node) (e : ℕ) → Plain n → Safe true e (eval h funs k n e)
  unfolding eval
  eval-Plain h zero n e p = fuel-Safe true e refl
  eval-Plain h (suc k) n e p = look-Safe true e _ (λ w.
      branch-Safe true e w.error _ _ (pure-Safe true e nil_val)
        (eval_node-Safe true h (eval h funs k) funs Plain (eval-Plain h k) n e (Plain-Kids n p)))

-- The calls below the node, those in the functions that it calls included, are nested less deep than
-- the number, and none makes a closure.
unfoldable pub Bounded : Nodes → ℕ → Node → Type 0
unfolding Kids
Bounded funs zero n = ⊥
Bounded funs (suc k) n = Kids (Bounded funs k) funs n

eval-Bounded-Safe :
    (h : Host) (funs : Nodes) (k : ℕ) (n : Node) (e : ℕ)
    → Bounded funs k n
    → Safe false e (eval h funs k n e)
unfolding eval Bounded
eval-Bounded-Safe h funs zero n e p = absurd p
eval-Bounded-Safe h funs (suc k) n e p = look-Safe false e _ (λ w.
    branch-Safe false e w.error _ _ (pure-Safe false e nil_val) (
      eval_node-Safe false h (eval h funs k) funs (Bounded funs k) (eval-Bounded-Safe h funs k) n e
        p))

pub eval-Bounded :
    (h : Host) (funs : Nodes) (k : ℕ) (n : Node) (e : ℕ) (w : World)
    → Bounded funs k n
    → Ready w e
    → Ends false e w (eval h funs k n e w)
eval-Bounded h funs k n e w p r = (eval-Bounded-Safe h funs k n e p).ends w r

run_fun-Ends :
    (h : Host) (funs : Nodes) (k : ℕ) (o : Option Fun) (text : Bytes) (vs : Values) (i : ℕ)
    (w : World)
    → OfFuns Plain funs
    → OfFun Plain o
    → Ready w 0
    → Ends true i w (run_fun h funs k o text vs w)
unfolding run_fun OfFun
run_fun-Ends h funs k none text vs i w whole p r = not_found-Ends true i text w
run_fun-Ends h funs k (some f) text vs i w whole (p, q) r =
    in_new-Ends true i w 0 0 _ r r.global (λ c.
      then-Safe true c _ _ (bind_params-Safe true c f.params vs)
        (eval-Plain funs whole h k f.body c p))

-- A call of a function of a module without anonymous functions, with any arguments and any fuel,
-- never uses an environment that has been freed, and where it ends with a value it has not freed an
-- environment that it has not made, nor set a variable in one, so that the global variables are as
-- they were; this holds in every state without closures in which the global environment is open.
pub sw_lang_call-Safe :
    (h : Host) (n : Node) (k : ℕ) (name text : Bytes) (vs : Values) (w : World)
    → OfFuns Plain (funs_of n)
    → Ready w 0
    → Ends true w.next_env w (sw_lang_call h n k name text vs w)
unfolding sw_lang_call OfFuns
sw_lang_call-Safe h n k name text vs w whole r =
    run_fun-Ends h (funs_of n) k _ text vs w.next_env w whole (whole name) r
