-- ===== src/Eval/Safe/Kids.antt =====
-- The nodes that a node of src/swarmrt_lang.c evaluates, with those of the functions that it calls.
use swarmrt.Base.{Option, none, some}
use swarmrt.Syntax.{
  Node, n_fun, n_block, n_assign, n_call, n_spawn, n_send, n_receive, n_receive_after,
  n_receive_never, n_if, n_if_else, n_binop, n_unary, n_pipe, n_tuple, n_list, n_map, n_for,
  n_range, n_try, n_list_cons, Nodes, no_nodes, node, Params, no_params, param, param_or, Clauses,
  no_clauses, clause, guarded, Fields, no_fields, field,
}
use swarmrt.Eval.Steps.{Call, as_call, Fun, find_fun, func_name}

module _ (Q : Node → Type 0) where
  unfoldable pub EachNode : Nodes → Type 0
  EachNode no_nodes = Unit
  EachNode (node n ns) = Q n × EachNode ns

  unfoldable pub EachField : Fields → Type 0
  EachField no_fields = Unit
  EachField (field k n fs) = Q k × Q n × EachField fs

  -- The patterns of clauses are not evaluated.
  unfoldable pub EachClause : Clauses → Type 0
  EachClause no_clauses = Unit
  EachClause (clause p body cs) = Q body × EachClause cs
  EachClause (guarded p guard body cs) = Q guard × Q body × EachClause cs

  unfoldable pub EachDefault : Params → Type 0
  EachDefault no_params = Unit
  EachDefault (param x ps) = EachDefault ps
  EachDefault (param_or x n ps) = Q n × EachDefault ps

  unfoldable pub OfFun : Option Fun → Type 0
  unfolding EachDefault
  OfFun none = Unit
  OfFun (some f) = Q f.body × EachDefault f.params

  module _ (funs : Nodes) where
    unfoldable pub OfPipe : Option Call → Type 0
    unfolding EachNode OfFun find_fun func_name
    OfPipe none = Unit
    OfPipe (some c) = Q c.func × EachNode c.args × OfFun (find_fun funs (func_name c.func))

    -- The predicate holds of all nodes that the node evaluates; the node makes no closure.
    unfoldable pub Kids : Node → Type 0
    unfolding EachNode EachField EachClause OfFun OfPipe as_call find_fun func_name
    Kids (n_assign x n) = Q n
    Kids (n_block ns) = EachNode ns
    Kids (n_binop op l r) = Q l × Q r
    Kids (n_unary n) = Q n
    Kids (n_if c n) = Q c × Q n
    Kids (n_if_else c n m) = Q c × Q n × Q m
    Kids (n_tuple ns) = EachNode ns
    Kids (n_list ns) = EachNode ns
    Kids (n_pipe n m) = Q n × OfPipe (as_call m)
    Kids (n_call f ns) = EachNode ns × OfFun (find_fun funs (func_name f))
    Kids (n_spawn n) = Q n
    Kids (n_send to n) = Q to × Q n
    Kids (n_map fs) = EachField fs
    Kids (n_for x iter body) = Q iter × Q body
    Kids (n_range n m) = Q n × Q m
    Kids (n_try n x body) = Q n × Q body
    Kids (n_list_cons n m) = Q n × Q m
    Kids (n_fun name ps body) = ⊥
    Kids (n_receive cs) = EachClause cs
    Kids (n_receive_after cs time n) = EachClause cs × Q n
    Kids (n_receive_never cs n) = EachClause cs × Q n
    Kids n = Unit
