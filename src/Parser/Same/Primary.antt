-- ===== src/Parser/Same/Primary.antt =====
-- Primary expressions of the parser of src/swarmrt_lang.c with more fuel.
use swarmrt.Base.{
  ℕ, suc, ◌+◌, ◌-◌, ◌≤◌, ◌<◌, ◌≡◌, refl, List, [], ◌∷◌, Option, none, some, arith, length, Bytes,
}
use swarmrt.Tokens.{
  TokType, Token, tok_eof, tok_ident, tok_number, tok_string, tok_atom, tok_spawn, tok_receive,
  tok_send, tok_after, tok_swarm, tok_map, tok_reduce, tok_supervise, tok_module, tok_export,
  tok_fun, tok_when, tok_case, tok_end, tok_if, tok_else, tok_self, tok_arrow, tok_farrow, tok_pipe,
  tok_assign, tok_eq, tok_neq, tok_lt, tok_gt, tok_le, tok_ge, tok_plus, tok_minus, tok_star,
  tok_slash, tok_concat, tok_and, tok_or, tok_lparen, tok_rparen, tok_lbrace, tok_rbrace,
  tok_lbracket, tok_rbracket, tok_comma, tok_dot, tok_colon, tok_semi, tok_newline, tok_elsif,
  tok_for, tok_in, tok_try, tok_catch, tok_import, tok_dotdot, tok_bar, tok_percent,
}
use swarmrt.Syntax.{Node, n_atom, n_tuple, n_unary, no_nodes, node, no_fields, field}
use swarmrt.Parser.{Par, Parse, is}
use swarmrt.Parser.Levels.{par_expr, items_to}
use swarmrt.Parser.Forms.{braced}
use swarmrt.Parser.Primary.{
  unknown, as_if, elsif, par_if, short_key, long_key, key_of, par_key, fields, par_map, more_items,
  par_list, par_group, par_self, primary_at,
}
use swarmrt.Parser.Same.Forms.{
  steps, par_named-Stable, braced-Stable, par_anonymous-Stable, par_for-Stable, par_try-Stable,
  par_spawn-Stable, par_send-Stable, par_receive-Stable,
}
use swarmrt.Parser.Same.{par_expr-Stable, items_to-Stable}
use swarmrt.Parser.Loops.{Below, smaller, turn_match, Below-after, Below-first, loop}
use swarmrt.Parser.Enough.{Stable, pure-Stable, loosely, after, next, fail-Stable}

length-as_if : (ts : List Token) → length (as_if ts) ≡ length ts
length-as_if [] = refl
length-as_if (t ∷ ts) = refl

short_key-length :
    (ts : List Token) (t : Token) (us : List Token)
    → short_key ts ≡ some (t, us)
    → length us + 2 ≤ length ts
short_key-length [] t us e = cc
short_key-length (x ∷ []) t us e = cc
short_key-length (x ∷ y ∷ ts) t us e = ground (arith, e)

pub unknown-Stable : (k : ℕ) → Stable 0 k unknown unknown
unknown-Stable k = next fail-Stable (pure-Stable (n_atom []))

module _ (k : ℕ) (self self' : Parse Node) (a b : ℕ) (v : Stable 1 k self self') (la : k < a)
    (lb : k < b) where
  expr : Stable 0 k (par_expr self a) (par_expr self' b)
  expr = loosely (par_expr-Stable k self self' a b v la lb)

  itself : Stable 0 k self self'
  itself = loosely v

  arguments : (close : TokType) → Stable 0 k (items_to self a close) (items_to self' b close)
  arguments = items_to-Stable k self self' a b v la lb

  block : Stable 0 k (braced self a) (braced self' b)
  block = braced-Stable k self self' a b v la lb

  elsif-Stable : Stable 0 k (elsif self a) (elsif self' b)
  elsif-Stable = record {
    within = λ j small. record {
      same = λ p few.
          (v.within j small).same (record p { toks = as_if p.toks })
            (omega (arith, few, length-as_if p.toks));
      takes = λ p few. omega (
        arith,
        length-as_if p.toks,
        (v.within j small).takes (record p { toks = as_if p.toks })
            (omega (arith, few, length-as_if p.toks)),
      );
    };
  }

  par_if-Stable : Stable 0 k (par_if self a) (par_if self' b)
  unfolding par_if
  par_if-Stable = search (steps, expr, block, elsif-Stable, itself) depth 12

  long_key-Stable : Stable 0 k (long_key self a) (long_key self' b)
  unfolding long_key
  long_key-Stable = search (steps, expr, itself)

  key_of-Agree :
      (o : Option (Token × List Token)) (j : ℕ) (p : Par)
      → j ≤ k
      → length p.toks ≤ j
      → short_key p.toks ≡ o
      → (key_of self a o p ≡ key_of self' b o p)
        × (length (key_of self a o p).1.toks ≤ length p.toks - 0)
  key_of-Agree none j p small few e =
      let w = long_key-Stable.within j small in (w.same p few, w.takes p few)
  key_of-Agree (some (t, us)) j p small few e =
      (refl, omega (arith, short_key-length p.toks t us e))

  par_key-Stable : Stable 0 k (par_key self a) (par_key self' b)
  unfolding par_key
  par_key-Stable = record {
    within = λ j small. record {
      same = λ p few. (key_of-Agree (short_key p.toks) j p small few refl).0;
      takes = λ p few. (key_of-Agree (short_key p.toks) j p small few refl).1;
    };
  }

  fields-round :
      (n m j : ℕ)
      → j ≤ k
      → Below j (fields self a n) (fields self' b m)
      → Stable 0 j (fields self a (suc n)) (fields self' b (suc m))
  unfolding fields is
  fields-round n m j less rec = after (smaller less par_key-Stable) (λ key.
      after (smaller less expr) (λ val.
        turn_match tok_comma refl (Below-first rec (λ fs. pure-Stable (field key val fs)))
          (pure-Stable (field key val no_fields))))

  fields-Stable : Stable 0 k (fields self a a) (fields self' b b)
  fields-Stable = loop k (fields self a) (fields self' b) fields-round a b la lb

  par_map-Stable : Stable 0 k (par_map self a) (par_map self' b)
  unfolding par_map
  par_map-Stable = search (steps, fields-Stable)

  more_items-round :
      (n m j : ℕ)
      → j ≤ k
      → Below j (more_items self a n) (more_items self' b m)
      → Stable 0 j (more_items self a (suc n)) (more_items self' b (suc m))
  unfolding more_items is
  more_items-round n m j less rec =
      turn_match tok_comma refl
        (Below-after (smaller less expr) (λ x. Below-first rec (λ xs. pure-Stable (node x xs))))
        (pure-Stable no_nodes)

  more_items-Stable : Stable 0 k (more_items self a a) (more_items self' b b)
  more_items-Stable = loop k (more_items self a) (more_items self' b) more_items-round a b la lb

  par_list-Stable : Stable 0 k (par_list self a) (par_list self' b)
  unfolding par_list
  par_list-Stable = search (steps, expr, more_items-Stable) depth 12

  par_group-Stable : Stable 0 k (par_group self a) (par_group self' b)
  unfolding par_group
  par_group-Stable = search (steps, expr)

  par_self-Stable : Stable 0 k (par_self self a) (par_self self' b)
  unfolding par_self
  par_self-Stable = search steps

  module _ (interp : Bytes → Option Node) where
    pub primary_at-Stable :
        (u : TokType) (t : Token)
        → Stable 0 k (primary_at interp self a u t) (primary_at interp self' b u t)
    unfolding primary_at
    primary_at-Stable tok_eof t = unknown-Stable k
    primary_at-Stable tok_ident t = par_named-Stable k self self' a b v la lb t
    primary_at-Stable tok_number t = pure-Stable _
    primary_at-Stable tok_string t = pure-Stable _
    primary_at-Stable tok_atom t = pure-Stable _
    primary_at-Stable tok_spawn t = par_spawn-Stable k self self' a b v la lb
    primary_at-Stable tok_receive t = par_receive-Stable k self self' a b v la lb
    primary_at-Stable tok_send t = par_send-Stable k self self' a b v la lb
    primary_at-Stable tok_after t = unknown-Stable k
    primary_at-Stable tok_swarm t = unknown-Stable k
    primary_at-Stable tok_map t = unknown-Stable k
    primary_at-Stable tok_reduce t = unknown-Stable k
    primary_at-Stable tok_supervise t = unknown-Stable k
    primary_at-Stable tok_module t = unknown-Stable k
    primary_at-Stable tok_export t = unknown-Stable k
    primary_at-Stable tok_fun t = par_anonymous-Stable k self self' a b v la lb
    primary_at-Stable tok_when t = unknown-Stable k
    primary_at-Stable tok_case t = unknown-Stable k
    primary_at-Stable tok_end t = unknown-Stable k
    primary_at-Stable tok_if t = par_if-Stable
    primary_at-Stable tok_else t = unknown-Stable k
    primary_at-Stable tok_self t = par_self-Stable
    primary_at-Stable tok_arrow t = unknown-Stable k
    primary_at-Stable tok_farrow t = unknown-Stable k
    primary_at-Stable tok_pipe t = unknown-Stable k
    primary_at-Stable tok_assign t = unknown-Stable k
    primary_at-Stable tok_eq t = unknown-Stable k
    primary_at-Stable tok_neq t = unknown-Stable k
    primary_at-Stable tok_lt t = unknown-Stable k
    primary_at-Stable tok_gt t = unknown-Stable k
    primary_at-Stable tok_le t = unknown-Stable k
    primary_at-Stable tok_ge t = unknown-Stable k
    primary_at-Stable tok_plus t = unknown-Stable k
    primary_at-Stable tok_minus t = after (loosely v) (λ e. pure-Stable (n_unary e))
    primary_at-Stable tok_star t = unknown-Stable k
    primary_at-Stable tok_slash t = unknown-Stable k
    primary_at-Stable tok_concat t = unknown-Stable k
    primary_at-Stable tok_and t = unknown-Stable k
    primary_at-Stable tok_or t = unknown-Stable k
    primary_at-Stable tok_lparen t = par_group-Stable
    primary_at-Stable tok_rparen t = unknown-Stable k
    primary_at-Stable tok_lbrace t = after (arguments tok_rbrace) (λ xs. pure-Stable (n_tuple xs))
    primary_at-Stable tok_rbrace t = unknown-Stable k
    primary_at-Stable tok_lbracket t = par_list-Stable
    primary_at-Stable tok_rbracket t = unknown-Stable k
    primary_at-Stable tok_comma t = unknown-Stable k
    primary_at-Stable tok_dot t = unknown-Stable k
    primary_at-Stable tok_colon t = unknown-Stable k
    primary_at-Stable tok_semi t = unknown-Stable k
    primary_at-Stable tok_newline t = unknown-Stable k
    primary_at-Stable tok_elsif t = unknown-Stable k
    primary_at-Stable tok_for t = par_for-Stable k self self' a b v la lb
    primary_at-Stable tok_in t = unknown-Stable k
    primary_at-Stable tok_try t = par_try-Stable k self self' a b v la lb
    primary_at-Stable tok_catch t = unknown-Stable k
    primary_at-Stable tok_import t = unknown-Stable k
    primary_at-Stable tok_dotdot t = unknown-Stable k
    primary_at-Stable tok_bar t = unknown-Stable k
    primary_at-Stable tok_percent t = par_map-Stable
