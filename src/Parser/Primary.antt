-- ===== src/Parser/Primary.antt =====
-- Primary expressions of the parser of src/swarmrt_lang.c. `par_primary` has fuel for its depth; what
-- `parse_interp_string` makes of a string that holds expressions is a parameter.
use swarmrt.Base.{
  ℕ, zero, suc, List, [], ◌∷◌, map, Bool, false, ◌&&◌, ◌||◌, Option, none, some, if◌then◌else◌,
  ◌==◌, Bytes,
}
use swarmrt.Tokens.{
  TokType, tok_ident, tok_number, tok_string, tok_atom, tok_spawn, tok_receive, tok_send, tok_fun,
  tok_if, tok_else, tok_self, tok_farrow, tok_minus, tok_lparen, tok_rparen, tok_lbrace, tok_rbrace,
  tok_lbracket, tok_rbracket, tok_comma, tok_colon, tok_elsif, tok_for, tok_try, tok_bar,
  tok_percent, Token,
}
use swarmrt.Syntax.{
  Node, n_if, n_if_else, n_unary, n_int, n_float, n_string, n_atom, n_tuple, n_list, n_self, n_map,
  n_list_cons, Nodes, no_nodes, node, Fields, no_fields, field,
}
use swarmrt.Parser.{Parse, pure, ◌>>=◌, ◌>>◌, is, cur, fail, branch, on_tok, par_expect, par_match}
use swarmrt.Parser.Levels.{par_expr, items_to}
use swarmrt.Parser.Forms.{
  par_named, par_anonymous, par_for, par_try, par_spawn, par_send, par_receive, braced,
}

-- `restore_hash_sentinels`
abbrev pub restore_hash_sentinels : Bytes → Bytes
restore_hash_sentinels s = map (λ c. if c == 1 then b'#' else c) s

unfoldable pub has_dot : Bytes → Bool
has_dot [] = false
has_dot (c ∷ cs) = c == b'.' || has_dot cs

-- The end of the unknown token.
abbrev pub unknown : Parse Node
unknown = fail >> pure (n_atom [])

-- The type of the current token is set to `TOK_IF`.
abbrev pub as_if : List Token → List Token
as_if [] = []
as_if (t ∷ ts) = record t { type = tok_if } ∷ ts

-- The name of a key that a colon follows, and the tokens behind the colon.
abbrev pub short_key : List Token → Option (Token × List Token)
short_key [] = none
short_key (a ∷ []) = none
short_key (a ∷ b ∷ ts) = if is tok_ident a.type && is tok_colon b.type then some (a, ts) else none

module _ (self : Parse Node) (k : ℕ) where
  abbrev pub elsif : Parse Node
  elsif p = self (record p { toks = as_if p.toks })

  unfoldable pub par_if : Parse Node
  unfolding par_expect par_expr braced on_tok is branch
  par_if = par_expect tok_lparen >> par_expr self k >>= λ test.
      par_expect tok_rparen >> braced self k >>= λ then_b.
      par_match tok_else
        (branch (λ p. is tok_if (cur p).type) self (braced self k) >>= λ else_b.
          pure (n_if_else test then_b else_b))
        (branch (λ p. is tok_elsif (cur p).type)
          (elsif >>= λ else_b. pure (n_if_else test then_b else_b)) (pure (n_if test then_b)))

  unfoldable pub long_key : Parse Node
  unfolding branch is par_expr par_expect
  long_key =
      branch (λ p. is tok_string (cur p).type || is tok_atom (cur p).type) self (par_expr self k)
      >>= λ key. par_expect tok_farrow >> pure key

  abbrev pub key_of : Option (Token × List Token) → Parse Node
  key_of none p = long_key p
  key_of (some (a, ts)) p = (n_atom a.text, record p { toks = ts })

  unfoldable pub par_key : Parse Node
  unfolding long_key is
  par_key p = key_of (short_key p.toks) p

  unfoldable pub fields : ℕ → Parse Fields
  unfolding par_key par_expr on_tok is
  fields zero = pure no_fields
  fields (suc n) = par_key >>= λ key. par_expr self k >>= λ val.
      par_match tok_comma (fields n >>= λ fs. pure (field key val fs))
        (pure (field key val no_fields))

  unfoldable pub par_map : Parse Node
  unfolding par_expect branch is fields
  par_map =
      par_expect tok_lbrace
      >> branch (λ p. is tok_rbrace (cur p).type) (pure no_fields) (fields k)
      >>= λ fs. par_expect tok_rbrace >> pure (n_map fs)

  unfoldable pub more_items : ℕ → Parse Nodes
  unfolding on_tok is par_expr
  more_items zero = pure no_nodes
  more_items (suc n) =
      par_match tok_comma (par_expr self k >>= λ a. more_items n >>= λ xs. pure (node a xs))
        (pure no_nodes)

  unfoldable pub par_list : Parse Node
  unfolding on_tok is par_expr par_expect more_items
  par_list = par_match tok_rbracket (pure (n_list no_nodes)) (
      par_expr self k >>= λ a.
      par_match tok_bar
        (par_expr self k >>= λ tail. par_expect tok_rbracket >> pure (n_list_cons a tail))
        (more_items k >>= λ xs. par_expect tok_rbracket >> pure (n_list (node a xs))))

  unfoldable pub par_group : Parse Node
  unfolding par_expr par_expect
  par_group = par_expr self k >>= λ e. par_expect tok_rparen >> pure e

  unfoldable pub par_self : Parse Node
  unfolding on_tok is par_expect
  par_self = par_match tok_lparen (par_expect tok_rparen >> pure n_self) (pure n_self)

module _ (interp : Bytes → Option Node) where
  unfoldable pub string_node : Option Node → Bytes → Node
  string_node none text = n_string (restore_hash_sentinels text)
  string_node (some e) text = e

  -- `par_primary` from behind the first token.
  unfoldable pub primary_at : Parse Node → ℕ → TokType → Token → Parse Node
  unfolding string_node has_dot par_self par_named par_anonymous par_for par_try par_spawn par_send
      par_receive par_if par_map items_to par_list par_group
  primary_at self k tok_number t = pure (if has_dot t.text then n_float t.text else n_int t.text)
  primary_at self k tok_string t = pure (string_node (interp t.text) t.text)
  primary_at self k tok_atom t = pure (n_atom t.text)
  primary_at self k tok_self t = par_self self k
  primary_at self k tok_ident t = par_named self k t
  primary_at self k tok_fun t = par_anonymous self k
  primary_at self k tok_for t = par_for self k
  primary_at self k tok_try t = par_try self k
  primary_at self k tok_spawn t = par_spawn self k
  primary_at self k tok_send t = par_send self k
  primary_at self k tok_receive t = par_receive self k
  primary_at self k tok_if t = par_if self k
  primary_at self k tok_percent t = par_map self k
  primary_at self k tok_lbrace t = items_to self k tok_rbrace >>= λ xs. pure (n_tuple xs)
  primary_at self k tok_lbracket t = par_list self k
  primary_at self k tok_lparen t = par_group self k
  primary_at self k tok_minus t = self >>= λ e. pure (n_unary e)
  primary_at self k u t = unknown

  abbrev pub primary_on : Parse Node → ℕ → List Token → Parse Node
  primary_on self k [] p = unknown p
  primary_on self k (t ∷ ts) p = primary_at self k t.type t (record p { toks = ts })

  -- `par_primary`
  unfoldable pub par_primary : ℕ → Parse Node
  unfolding primary_at
  par_primary zero p = unknown p
  par_primary (suc n) p = primary_on (par_primary n) n p.toks p
