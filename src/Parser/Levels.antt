-- ===== src/Parser/Levels.antt =====
-- Operators, statements and blocks of the parser of src/swarmrt_lang.c, over a parser of a primary
-- expression, `self`, and with fuel for the rounds of each loop.
use swarmrt.Base.{
  ℕ, zero, suc, List, [], ◌∷◌, Bool, ◌&&◌, ◌||◌, Option, none, some, if◌then◌else◌, take, Bytes,
}
use swarmrt.Tokens.{
  TokType, tok_eof, tok_ident, tok_pipe, tok_assign, tok_eq, tok_neq, tok_lt, tok_gt, tok_le,
  tok_ge, tok_plus, tok_minus, tok_star, tok_slash, tok_concat, tok_and, tok_or, tok_rbrace,
  tok_comma, tok_dotdot, Token,
}
use swarmrt.Syntax.{Node, n_binop, n_range, n_pipe, n_assign, n_block, Nodes, no_nodes, node}
use swarmrt.Parser.{Par, Parse, pure, ◌>>=◌, ◌>>◌, is, cur, branch, on_tok, par_expect, par_match}

-- The tokens of `par_mul`.
unfoldable pub is_mul : TokType → Bool
unfolding is
is_mul t = is tok_star t || is tok_slash t

unfoldable pub is_add : TokType → Bool
unfolding is
is_add t = is tok_plus t || is tok_minus t || is tok_concat t

unfoldable pub is_cmp : TokType → Bool
unfolding is
is_cmp t = is tok_eq t || is tok_neq t || is tok_lt t || is tok_gt t || is tok_le t || is tok_ge t

unfoldable pub is_logic : TokType → Bool
unfolding is
is_logic t = is tok_and t || is tok_or t

-- A node for an operator, of whose text three bytes are kept.
abbrev pub binop : Bytes → Node → Node → Node
binop op left right = n_binop (take 3 op) left right

-- The loop over operators of one level, which associate to the left.
unfoldable pub chain :
    (TokType → Bool) → (Bytes → Node → Node → Node) → Parse Node → ℕ → Node → Parse Node
unfolding on_tok
chain ops make sub zero left = pure left
chain ops make sub (suc n) left =
    on_tok ops (λ op. sub >>= λ right. chain ops make sub n (make op.text left right)) (pure left)

-- Whether the loop of `par_block` ends.
unfoldable pub ends_block : Par → Bool
unfolding is
ends_block p = is tok_rbrace (cur p).type || is tok_eof (cur p).type || p.err

-- The two tokens that a statement looks at: the name of an assignment, if it is one, and the rest.
abbrev pub assigned : List Token → Option (Token × List Token)
assigned [] = none
assigned (a ∷ []) = none
assigned (a ∷ b ∷ ts) = if is tok_ident a.type && is tok_assign b.type then some (a, ts) else none

module _ (self : Parse Node) (k : ℕ) where
  unfoldable pub par_mul : Parse Node
  unfolding chain is_mul
  par_mul = self >>= chain is_mul binop self k

  unfoldable pub par_add : Parse Node
  unfolding chain is_add par_mul
  par_add = par_mul >>= chain is_add binop par_mul k

  unfoldable pub par_range : Parse Node
  unfolding par_add on_tok
  par_range = par_add >>= λ left.
      par_match tok_dotdot (par_add >>= λ right. pure (n_range left right)) (pure left)

  unfoldable pub par_cmp : Parse Node
  unfolding chain is_cmp par_range
  par_cmp = par_range >>= chain is_cmp binop par_range k

  unfoldable pub par_logic : Parse Node
  unfolding chain is_logic par_cmp
  par_logic = par_cmp >>= chain is_logic binop par_cmp k

  unfoldable pub par_pipe : Parse Node
  unfolding chain is par_logic
  par_pipe = par_logic >>= chain (is tok_pipe) (λ op left right. n_pipe left right) par_logic k

  unfoldable pub par_expr : Parse Node
  unfolding par_pipe
  par_expr = par_pipe

  abbrev pub assign : Option (Token × List Token) → Parse Node
  assign none p = par_expr p
  assign (some (a, ts)) p =
      (par_expr >>= λ value. pure (n_assign (take 127 a.text) value)) (record p { toks = ts })

  unfoldable pub par_stmt : Parse Node
  unfolding par_expr is
  par_stmt p = assign (assigned p.toks) p

  unfoldable pub stmts : ℕ → Parse Nodes
  unfolding branch ends_block par_stmt
  stmts zero = pure no_nodes
  stmts (suc n) =
      branch ends_block (pure no_nodes) (par_stmt >>= λ s. stmts n >>= λ ss. pure (node s ss))

  unfoldable pub par_block : Parse Node
  unfolding stmts
  par_block = stmts k >>= λ ss. pure (n_block ss)

  -- The expressions of a list that commas separate, at least one.
  unfoldable pub items : ℕ → Parse Nodes
  unfolding par_expr on_tok
  items zero = pure no_nodes
  items (suc n) = par_expr >>= λ a.
      par_match tok_comma (items n >>= λ xs. pure (node a xs)) (pure (node a no_nodes))

  -- The expressions up to a closing token, which is taken.
  unfoldable pub items_to : TokType → Parse Nodes
  unfolding items branch par_expect is
  items_to close = branch (λ p. is close (cur p).type) (pure no_nodes) (items k) >>= λ xs.
      par_expect close >> pure xs
