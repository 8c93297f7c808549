-- ===== src/Parser/Modules.antt =====
-- Functions and modules of the parser of src/swarmrt_lang.c (`par_fun`, `par_module`) and the parse of
-- an expression (`par_expr_string`). A parameter list may have more than 16 names here.
use swarmrt.Base.{
  ℕ, zero, suc, List, [], ◌∷◌, Bool, true, false, not, ◌&&◌, ◌||◌, Option, none, some,
  if◌then◌else◌, length, take, Bytes,
}
use swarmrt.Tokens.{
  TokType, tok_eof, tok_ident, tok_module, tok_export, tok_fun, tok_assign, tok_lparen, tok_rparen,
  tok_lbracket, tok_rbracket, tok_comma, tok_import, Token,
}
use swarmrt.Syntax.{
  Node, n_module, n_fun, Nodes, no_nodes, node, Params, no_params, param, param_or,
}
use swarmrt.Parser.{
  Par, Parse, pure, ◌>>=◌, ◌>>◌, is, cur, par_adv, branch, on_tok, par_expect, par_match,
}
use swarmrt.Parser.Levels.{par_expr}
use swarmrt.Parser.Forms.{braced}

abbrev pub at_tok : TokType → Par → Bool
at_tok t p = is t (cur p).type && not p.err

abbrev pub add_param : Token → Option Node → Params → Params
add_param t none ps = param (take 127 t.text) ps
add_param t (some d) ps = param_or (take 127 t.text) d ps

module _ (self : Parse Node) (k : ℕ) where
  unfoldable pub fun_params : ℕ → Parse Params
  unfolding on_tok is par_expect par_expr
  fun_params zero = pure no_params
  fun_params (suc n) = par_expect tok_ident >>= λ t.
      par_match tok_assign (par_expr self k >>= λ d. pure (some d)) (pure none) >>= λ d.
      par_match tok_comma (fun_params n >>= λ ps. pure (add_param t d ps))
        (pure (add_param t d no_params))

  -- `par_fun` from behind its first token.
  unfoldable pub fun_tail : Parse Node
  unfolding par_expect branch is fun_params braced
  fun_tail = par_expect tok_ident >>= λ name.
      par_expect tok_lparen
      >> branch (λ p. is tok_rparen (cur p).type) (pure no_params) (fun_params k)
      >>= λ ps. par_expect tok_rparen >> braced self k >>= λ body.
          pure (n_fun (take 127 name.text) ps body)

  unfoldable pub par_fun : Parse Node
  unfolding par_expect fun_tail
  par_fun = par_expect tok_fun >> fun_tail

  -- The names of the imports.
  unfoldable pub imports : ℕ → Parse (List Bytes)
  unfolding branch is par_adv par_expect
  imports zero = pure []
  imports (suc n) =
      branch (at_tok tok_import)
        (par_adv >> par_expect tok_ident >>= λ t. imports n >>= λ ts. pure (take 127 t.text ∷ ts))
        (pure [])

  -- The loop over the exported names, which are not kept.
  unfoldable pub exports : ℕ → Parse Bool
  unfolding branch is par_adv on_tok
  exports zero = pure true
  exports (suc n) =
      branch (λ p. is tok_rbracket (cur p).type || is tok_eof (cur p).type) (pure true)
        (par_adv >> par_match tok_comma (exports n) (exports n))

  unfoldable pub funs : ℕ → Parse Nodes
  unfolding branch is par_fun
  funs zero = pure no_nodes
  funs (suc n) =
      branch (at_tok tok_fun) (par_fun >>= λ f. funs n >>= λ fs. pure (node f fs)) (pure no_nodes)

  -- `par_module`; the first 16 imports are kept.
  unfoldable pub par_module : Parse Node
  unfolding par_expect imports on_tok is exports funs
  par_module = par_expect tok_module >> par_expect tok_ident >>= λ name. imports k >>= λ is_of.
      par_match tok_export
        (par_expect tok_lbracket >> exports k >> par_expect tok_rbracket >> pure true) (pure true)
      >> funs k
      >>= λ fs. pure (n_module (take 127 name.text) (take 16 is_of) fs)

-- `par_expr_string`, on the tokens of the string.
unfoldable pub par_expr_string : (ℕ → Parse Node) → List Token → Option Node
unfolding par_expr
par_expr_string primary ts =
    let k = suc (length ts) in
    let r = par_expr (primary k) k (record { toks = ts; err = false }) in
    if r.1.err then none else some r.0
