-- ===== src/Parser/Same/Modules.antt =====
-- Functions and modules of the parser of src/swarmrt_lang.c with more fuel.
use swarmrt.Base.{
  ℕ, suc, ◌≤◌, ◌<◌, ◌≡◌, refl, [], ◌∷◌, false, true, ◌||◌, take, none, some, arith, length,
}
use swarmrt.Tokens.{
  TokType, tok_eof, tok_comma, tok_assign, tok_ident, tok_fun, tok_import, tok_rbracket,
}
use swarmrt.Syntax.{Node, Nodes, no_nodes, node, no_params}
use swarmrt.Parser.{
  Par, Parse, pure, ◌>>=◌, ◌>>◌, is, cur, par_adv, branch, on_tok, par_expect, par_match,
}
use swarmrt.Parser.Levels.{par_expr}
use swarmrt.Parser.Forms.{braced}
use swarmrt.Parser.Modules.{
  at_tok, add_param, fun_params, fun_tail, par_fun, imports, exports, funs, par_module,
}
use swarmrt.Parser.Same.Forms.{steps, braced-Stable}
use swarmrt.Parser.Same.{par_expr-Stable}
use swarmrt.Parser.Loops.{
  Below, smaller, turn_match, Below-first, Below-match, pointwise, rounds, rounds_while, loop,
}
use swarmrt.Parser.Enough.{
  adv-Agree, no_tokens, Stable, pure-Stable, loosely, after, next_some, expect-Stable,
}

at_tok-end :
    (t : TokType) → is t tok_eof ≡ false → (p : Par) → length p.toks ≤ 0 → at_tok t p ≡ false
at_tok-end t e p small = rw (no_tokens p.toks small, e) refl

exports-end :
    (p : Par) → length p.toks ≤ 0 → (is tok_rbracket (cur p).type || is tok_eof (cur p).type) ≡ true
unfolding is
exports-end p small = rw (no_tokens p.toks small) (ground arith)

adv-Stable : (k : ℕ) → Stable 1 k par_adv par_adv
adv-Stable k = record { within = λ j small. adv-Agree j }

-- At the first token of a function, the parser takes it.
at_fun :
    (tail : Parse Node) (h : Node → Parse Nodes) (g : Parse Nodes) (p : Par)
    → branch (at_tok tok_fun) (par_expect tok_fun >> tail >>= h) g p
      ≡ branch (at_tok tok_fun) (par_adv >> tail >>= h) g p
unfolding branch par_expect on_tok ◌>>=◌ ◌>>◌ pure
at_fun tail h g p = ground arith

module _ (k : ℕ) (self self' : Parse Node) (a b : ℕ) (v : Stable 1 k self self') (la : k < a)
    (lb : k < b) where
  expr : Stable 0 k (par_expr self a) (par_expr self' b)
  expr = loosely (par_expr-Stable k self self' a b v la lb)

  block : Stable 0 k (braced self a) (braced self' b)
  block = braced-Stable k self self' a b v la lb

  default :
      Stable 0 k
        (par_match tok_assign (par_expr self a >>= λ d. pure (some d)) (pure none))
        (par_match tok_assign (par_expr self' b >>= λ d. pure (some d)) (pure none))
  default = search (steps, expr)

  fun_params-round :
      (n m j : ℕ)
      → j ≤ k
      → Below j (fun_params self a n) (fun_params self' b m)
      → Stable 0 j (fun_params self a (suc n)) (fun_params self' b (suc m))
  unfolding fun_params is
  fun_params-round n m j less rec = after (expect-Stable tok_ident) (λ t.
      after (smaller less default) (λ d.
        turn_match tok_comma refl (Below-first rec (λ ps. pure-Stable (add_param t d ps)))
          (pure-Stable (add_param t d no_params))))

  fun_params-Stable : Stable 0 k (fun_params self a a) (fun_params self' b b)
  fun_params-Stable = loop k (fun_params self a) (fun_params self' b) fun_params-round a b la lb

  fun_tail-Stable : Stable 0 k (fun_tail self a) (fun_tail self' b)
  unfolding fun_tail
  fun_tail-Stable = search (steps, fun_params-Stable, block) depth 12

  imports-round :
      (n m j : ℕ)
      → j ≤ k
      → Below j (imports self a n) (imports self' b m)
      → Stable 0 j (imports self a (suc n)) (imports self' b (suc m))
  unfolding imports is
  imports-round n m j less rec =
      rounds_while (at_tok tok_import) (at_tok-end tok_import refl) (pure-Stable [])
        (next_some (adv-Stable j) (expect-Stable tok_ident))
        (λ t. Below-first rec (λ ts. pure-Stable (take 127 t.text ∷ ts)))

  imports-Stable : Stable 0 k (imports self a a) (imports self' b b)
  imports-Stable = loop k (imports self a) (imports self' b) imports-round a b la lb

  exports-round :
      (n m j : ℕ)
      → j ≤ k
      → Below j (exports self a n) (exports self' b m)
      → Stable 0 j (exports self a (suc n)) (exports self' b (suc m))
  unfolding exports is ◌>>◌
  exports-round n m j less rec =
      rounds (λ p. is tok_rbracket (cur p).type || is tok_eof (cur p).type) exports-end
        (pure-Stable true) (adv-Stable j) (λ t. Below-match tok_comma rec rec)

  exports-Stable : Stable 0 k (exports self a a) (exports self' b b)
  exports-Stable = loop k (exports self a) (exports self' b) exports-round a b la lb

  funs-round :
      (n m j : ℕ)
      → j ≤ k
      → Below j (funs self a n) (funs self' b m)
      → Stable 0 j (funs self a (suc n)) (funs self' b (suc m))
  unfolding funs par_fun is
  funs-round n m j less rec =
      pointwise
        (at_fun (fun_tail self a) (λ f. funs self a n >>= λ fs. pure (node f fs)) (pure no_nodes))
        (at_fun (fun_tail self' b) (λ f. funs self' b m >>= λ fs. pure (node f fs)) (pure no_nodes))
        (rounds_while (at_tok tok_fun) (at_tok-end tok_fun refl) (pure-Stable no_nodes)
          (next_some (adv-Stable j) (smaller less fun_tail-Stable))
          (λ f. Below-first rec (λ fs. pure-Stable (node f fs))))

  funs-Stable : Stable 0 k (funs self a a) (funs self' b b)
  funs-Stable = loop k (funs self a) (funs self' b) funs-round a b la lb

  pub par_module-Stable : Stable 0 k (par_module self a) (par_module self' b)
  unfolding par_module
  par_module-Stable = search (steps, imports-Stable, exports-Stable, funs-Stable) depth 16
