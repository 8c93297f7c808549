-- ===== src/Syntax.antt =====
-- The syntax trees of src/swarmrt_lang.h (`node_t`). Lines are left out. A number is the text of its
-- token, whose `num_val` the code stores, converted for an integer.
use swarmrt.Base.{List, Bytes}

-- `node_t`, with the lists of nodes of its kinds. A function has its parameters in `Params`, and an
-- `after` of a receive the text of its number, if it is one.
mutual
  pub data Node : Type 0 where
    n_module : Bytes → List Bytes → Nodes → Node
    n_fun : Bytes → Params → Node → Node
    n_block : Nodes → Node
    n_assign : Bytes → Node → Node
    n_call : Node → Nodes → Node
    n_spawn : Node → Node
    n_send : Node → Node → Node
    n_receive : Clauses → Node
    n_receive_after : Clauses → Bytes → Node → Node
    n_receive_never : Clauses → Node → Node
    n_if : Node → Node → Node
    n_if_else : Node → Node → Node → Node
    n_binop : Bytes → Node → Node → Node
    n_unary : Node → Node
    n_pipe : Node → Node → Node
    n_int : Bytes → Node
    n_float : Bytes → Node
    n_string : Bytes → Node
    n_atom : Bytes → Node
    n_ident : Bytes → Node
    n_tuple : Nodes → Node
    n_list : Nodes → Node
    n_self : Node
    n_map : Fields → Node
    n_for : Bytes → Node → Node → Node
    n_range : Node → Node → Node
    n_try : Node → Bytes → Node → Node
    n_list_cons : Node → Node → Node

  pub data Nodes : Type 0 where
    no_nodes : Nodes
    node : Node → Nodes → Nodes

  pub data Params : Type 0 where
    no_params : Params
    param : Bytes → Params → Params
    param_or : Bytes → Node → Params → Params

  pub data Clauses : Type 0 where
    no_clauses : Clauses
    clause : Node → Node → Clauses → Clauses
    guarded : Node → Node → Node → Clauses → Clauses

  pub data Fields : Type 0 where
    no_fields : Fields
    field : Node → Node → Fields → Fields
