-- ===== src/Parser/Same.antt =====
-- Which parts of the parser of src/swarmrt_lang.c do the same with more fuel.
pub mod Forms
pub mod Primary
pub mod Modules
use swarmrt.Base.{
  ℕ, zero, suc, ◌+◌, ◌-◌, ◌≤◌, ◌<◌, ◌≡◌, refl, List, [], ◌∷◌, Bool, true, false, Option, none, some,
  arith, length, take, Bytes,
}
use swarmrt.Tokens.{TokType, tok_eof, tok_comma, tok_pipe, Token}
use swarmrt.Syntax.{Node, n_assign, n_pipe, no_nodes, node}
use swarmrt.Parser.{Par, Parse, pure, ◌>>=◌, is}
use swarmrt.Parser.Levels.{
  is_mul, is_add, is_cmp, is_logic, binop, chain, par_mul, par_add, par_range, par_cmp, par_logic,
  par_pipe, par_expr, assigned, assign, par_stmt, ends_block, stmts, par_block, items, items_to,
}
use swarmrt.Parser.Loops.{Below, smaller, turn_match, Below-first, rounds, loop}
use swarmrt.Parser.Enough.{
  Agree, pure-Agree, weaken-Agree, bind-Agree, turn-Agree, no_tokens, Stable, pure-Stable, loosely,
  branch-Stable, match-Stable, after, after_some, next, expect-Stable,
}

pub chain-Agree :
    (ops : TokType → Bool) (make : Bytes → Node → Node → Node) (sub sub' : Parse Node) (a b j : ℕ)
    (left : Node)
    → ops tok_eof ≡ false
    → j < a
    → j < b
    → ((i : ℕ) → i ≤ j → Agree 1 i sub sub')
    → Agree 0 j (chain ops make sub a left) (chain ops make sub' b left)
unfolding chain
chain-Agree ops make sub sub' zero b j left ends la lb v = absurd (omega (arith, la))
chain-Agree ops make sub sub' (suc a) zero j left ends la lb v = absurd (omega (arith, lb))
chain-Agree ops make sub sub' (suc a) (suc b) j left ends la lb v =
    turn-Agree j ops _ _ (pure left) (pure left) ends
      (λ i e op. weaken-Agree 0 1 i _ _ (omega arith) (
        bind-Agree 1 0 i sub sub' _ _ (v i (omega (arith, e))) (λ right.
          chain-Agree ops make sub sub' a b (i - 1) (make op.text left right) ends
            (omega (arith, la, e)) (omega (arith, lb, e))
            (λ l small. v l (omega (arith, small, e))))))
      (pure-Agree j left)

assigned-length :
    (ts : List Token) (t : Token) (us : List Token)
    → assigned ts ≡ some (t, us)
    → length us + 2 ≤ length ts
assigned-length [] t us e = cc
assigned-length (x ∷ []) t us e = cc
assigned-length (x ∷ y ∷ ts) t us e = ground (arith, e)

block-ends : (p : Par) → length p.toks ≤ 0 → ends_block p ≡ true
unfolding ends_block is
block-ends p small = rw (no_tokens p.toks small) (ground arith)

-- A parser of primary expressions that takes a token, and two amounts of fuel.
module _ (k : ℕ) (self self' : Parse Node) (a b : ℕ) (v : Stable 1 k self self') (la : k < a)
    (lb : k < b) where
  operators :
      (ops : TokType → Bool) (make : Bytes → Node → Node → Node) (sub sub' : Parse Node)
      → ops tok_eof ≡ false
      → Stable 1 k sub sub'
      → Stable 1 k (sub >>= chain ops make sub a) (sub' >>= chain ops make sub' b)
  operators ops make sub sub' ends w = after_some w (λ left. record {
    within = λ j small.
        chain-Agree ops make sub sub' a b j left ends (omega (arith, la, small))
          (omega (arith, lb, small)) (λ i less. w.within i (omega (arith, small, less)));
  })

  pub par_mul-Stable : Stable 1 k (par_mul self a) (par_mul self' b)
  unfolding par_mul is_mul is
  par_mul-Stable = operators is_mul binop self self' refl v

  pub par_add-Stable : Stable 1 k (par_add self a) (par_add self' b)
  unfolding par_add is_add is
  par_add-Stable = operators is_add binop (par_mul self a) (par_mul self' b) refl par_mul-Stable

  pub par_range-Stable : Stable 1 k (par_range self a) (par_range self' b)
  unfolding par_range
  par_range-Stable = search (after_some, after, match-Stable, pure-Stable, loosely, par_add-Stable)

  pub par_cmp-Stable : Stable 1 k (par_cmp self a) (par_cmp self' b)
  unfolding par_cmp is_cmp is
  par_cmp-Stable =
      operators is_cmp binop (par_range self a) (par_range self' b) refl par_range-Stable

  pub par_logic-Stable : Stable 1 k (par_logic self a) (par_logic self' b)
  unfolding par_logic is_logic is
  par_logic-Stable = operators is_logic binop (par_cmp self a) (par_cmp self' b) refl par_cmp-Stable

  pub par_expr-Stable : Stable 1 k (par_expr self a) (par_expr self' b)
  unfolding par_expr par_pipe is
  par_expr-Stable =
      operators (is tok_pipe) (λ op left right. n_pipe left right) (par_logic self a)
        (par_logic self' b) refl par_logic-Stable

  par_stmt-Stable : Stable 1 k (par_stmt self a) (par_stmt self' b)
  unfolding par_stmt
  par_stmt-Stable = record {
    within = λ j small. record {
      same = λ p few. (assign-Agree (assigned p.toks) j p small few refl).0;
      takes = λ p few. (assign-Agree (assigned p.toks) j p small few refl).1;
    };
  }
    where
      assign-Agree :
          (o : Option (Token × List Token)) (j : ℕ) (p : Par)
          → j ≤ k
          → length p.toks ≤ j
          → assigned p.toks ≡ o
          → (assign self a o p ≡ assign self' b o p)
            × (length (assign self a o p).1.toks ≤ length p.toks - 1)
      assign-Agree none j p small few e =
          let v = par_expr-Stable.within j small in (v.same p few, v.takes p few)
      assign-Agree (some (t, us)) j p small few e =
          let q : Par = record p { toks = us } in
          let fewer = assigned-length p.toks t us e in
          let value : (n : Node)
              → Stable 0 k (pure (n_assign (take 127 t.text) n))
                  (pure (n_assign (take 127 t.text) n)) =
            λ n. pure-Stable _ in
          let v = (after_some par_expr-Stable value).within j small in
          (
            v.same q (omega (arith, fewer, few)),
            omega (arith, fewer, v.takes q (omega (arith, fewer, few))),
          )

  stmts-round :
      (n m j : ℕ)
      → j ≤ k
      → Below j (stmts self a n) (stmts self' b m)
      → Stable 0 j (stmts self a (suc n)) (stmts self' b (suc m))
  unfolding stmts
  stmts-round n m j less rec =
      rounds ends_block block-ends (pure-Stable no_nodes) (smaller less par_stmt-Stable)
        (λ s. Below-first rec (λ ss. pure-Stable (node s ss)))

  pub stmts-Stable : Stable 0 k (stmts self a a) (stmts self' b b)
  stmts-Stable = loop k (stmts self a) (stmts self' b) stmts-round a b la lb

  pub par_block-Stable : Stable 0 k (par_block self a) (par_block self' b)
  unfolding par_block
  par_block-Stable = search (after, stmts-Stable, pure-Stable)

  items-round :
      (n m j : ℕ)
      → j ≤ k
      → Below j (items self a n) (items self' b m)
      → Stable 0 j (items self a (suc n)) (items self' b (suc m))
  unfolding items is
  items-round n m j less rec = after (loosely (smaller less par_expr-Stable)) (λ x.
      turn_match tok_comma refl (Below-first rec (λ xs. pure-Stable (node x xs)))
        (pure-Stable (node x no_nodes)))

  pub items-Stable : Stable 0 k (items self a a) (items self' b b)
  items-Stable = loop k (items self a) (items self' b) items-round a b la lb

  pub items_to-Stable :
      (close : TokType) → Stable 0 k (items_to self a close) (items_to self' b close)
  unfolding items_to
  items_to-Stable close =
      search (after, next, branch-Stable, items-Stable, expect-Stable, pure-Stable)
