-- ===== src/Parser/Forms.antt =====
-- The branches of `par_primary` in src/swarmrt_lang.c for names, functions, loops, messages and
-- receives, each from behind its first token. A parameter list may have more than 16 names here.
use swarmrt.Base.{
  ℕ, zero, suc, [], ◌∷◌, ◌++◌, Bool, ◌||◌, Option, none, some, if◌then◌else◌, take, Bytes,
}
use swarmrt.Tokens.{
  tok_eof, tok_ident, tok_after, tok_when, tok_arrow, tok_lparen, tok_rparen, tok_lbrace,
  tok_rbrace, tok_comma, tok_dot, tok_in, tok_catch, Token,
}
use swarmrt.Syntax.{
  Node, n_fun, n_block, n_call, n_spawn, n_send, n_receive, n_receive_after, n_receive_never, n_int,
  n_atom, n_ident, n_for, n_try, Nodes, no_nodes, node, Params, no_params, param, Clauses,
  no_clauses, clause, guarded,
}
use swarmrt.Parser.{
  Par, Parse, pure, ◌>>=◌, ◌>>◌, is, cur, fail, branch, on_tok, par_expect, par_match,
}
use swarmrt.Parser.Levels.{par_expr, par_stmt, par_block, items_to}

abbrev pub map_get_name : Bytes
map_get_name = b'm' ∷ b'a' ∷ b'p' ∷ b'_' ∷ b'g' ∷ b'e' ∷ b't' ∷ []

-- A statement of a clause, or a step back before the pattern of the next clause.
unfoldable pub attempt : Parse Node → (Node → Parse Nodes) → Parse Nodes
unfolding is
attempt f h p =
    let r = f p in
    let later = h r.0 r.1 in if is tok_arrow (cur r.1).type then (no_nodes, p) else later

abbrev pub ends_clauses : Par → Bool
ends_clauses p = is tok_rbrace (cur p).type || is tok_after (cur p).type || is tok_eof (cur p).type

-- One statement stands for itself.
abbrev pub clause_body : Nodes → Node
clause_body no_nodes = n_block no_nodes
clause_body (node s no_nodes) = s
clause_body (node s (node t ss)) = n_block (node s (node t ss))

abbrev pub add_clause : Node → Option Node → Node → Clauses → Clauses
add_clause pattern none body cs = clause pattern body cs
add_clause pattern (some guard) body cs = guarded pattern guard body cs

abbrev pub with_after : Clauses → Node → Node → Node
with_after cs (n_int text) body = n_receive_after cs text body
with_after cs e body = n_receive_never cs body

abbrev pub named_fun : Parse Node
named_fun = fail >> pure (n_int (b'0' ∷ []))

module _ (self : Parse Node) (k : ℕ) where
  -- What follows a name and a dot, from the name behind it.
  unfoldable pub par_dotted : Token → Token → Parse Node
  unfolding on_tok is items_to
  par_dotted t f =
      par_match tok_lparen
        (items_to self k tok_rparen >>= λ xs.
          pure (n_call (n_ident (take 255 (t.text ++ (b'.' ∷ f.text)))) xs))
        (pure
          (n_call (n_ident map_get_name) (node (n_ident t.text) (node (n_atom f.text) no_nodes))))

  -- What follows a name.
  unfoldable pub par_named : Token → Parse Node
  unfolding on_tok is par_expect par_dotted items_to
  par_named t = par_match tok_dot (par_expect tok_ident >>= par_dotted t) (
      par_match tok_lparen (items_to self k tok_rparen >>= λ xs. pure (n_call (n_ident t.text) xs))
        (pure (n_ident t.text)))

  unfoldable pub names : ℕ → Parse Params
  unfolding on_tok is par_expect
  names zero = pure no_params
  names (suc n) = par_expect tok_ident >>= λ t.
      par_match tok_comma (names n >>= λ ps. pure (param (take 127 t.text) ps))
        (pure (param (take 127 t.text) no_params))

  -- A block in braces.
  unfoldable pub braced : Parse Node
  unfolding par_expect par_block
  braced = par_expect tok_lbrace >> par_block self k >>= λ body. par_expect tok_rbrace >> pure body

  -- The branch for an anonymous function.
  unfoldable pub par_anonymous : Parse Node
  unfolding on_tok is branch par_expect names braced
  par_anonymous =
      par_match tok_lparen
        (branch (λ p. is tok_rparen (cur p).type) (pure no_params) (names k) >>= λ ps.
          par_expect tok_rparen >> braced >>= λ body. pure (n_fun [] ps body))
        named_fun

  unfoldable pub par_for : Parse Node
  unfolding par_expect par_expr braced
  par_for = par_expect tok_ident >>= λ var. par_expect tok_in >> par_expr self k >>= λ iter.
      braced >>= λ body. pure (n_for (take 127 var.text) iter body)

  unfoldable pub par_try : Parse Node
  unfolding par_expect braced
  par_try = braced >>= λ body. par_expect tok_catch >> par_expect tok_ident >>= λ var.
      braced >>= λ handler. pure (n_try body (take 127 var.text) handler)

  unfoldable pub par_spawn : Parse Node
  unfolding par_expect par_expr
  par_spawn =
      par_expect tok_lparen >> par_expr self k >>= λ e. par_expect tok_rparen >> pure (n_spawn e)

  unfoldable pub par_send : Parse Node
  unfolding par_expect par_expr
  par_send = par_expect tok_lparen >> par_expr self k >>= λ to.
      par_expect tok_comma >> par_expr self k >>= λ msg.
      par_expect tok_rparen >> pure (n_send to msg)

  unfoldable pub clause_stmts : ℕ → Parse Nodes
  unfolding branch attempt par_stmt
  clause_stmts zero = pure no_nodes
  clause_stmts (suc n) =
      branch (λ p. ends_clauses p || p.err) (pure no_nodes)
        (attempt (par_stmt self k) (λ s. clause_stmts n >>= λ ss. pure (node s ss)))

  unfoldable pub clauses : ℕ → Parse Clauses
  unfolding branch par_expr on_tok is par_expect clause_stmts
  clauses zero = pure no_clauses
  clauses (suc n) = branch ends_clauses (pure no_clauses) (
      par_expr self k >>= λ pattern.
      par_match tok_when (par_expr self k >>= λ g. pure (some g)) (pure none) >>= λ guard.
      par_expect tok_arrow >> clause_stmts k >>= λ ss.
      clauses n >>= λ cs. pure (add_clause pattern guard (clause_body ss) cs))

  unfoldable pub par_receive : Parse Node
  unfolding par_expect clauses on_tok is par_expr
  par_receive = par_expect tok_lbrace >> clauses k >>= λ cs.
      par_match tok_after
        (par_expr self k >>= λ e. par_expect tok_lbrace >> par_expr self k >>= λ body.
          par_expect tok_rbrace >> pure (with_after cs e body))
        (pure (n_receive cs))
      >>= λ r. par_expect tok_rbrace >> pure r
