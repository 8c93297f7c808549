-- ===== src/Parser/Same/Forms.antt =====
-- Names, functions, loops, messages and receives in the parser of src/swarmrt_lang.c do the same with
-- more fuel.
use swarmrt.Base.{ℕ, suc, ◌-◌, ◌≤◌, ◌<◌, ◌≡◌, refl, true, ◌||◌, none, some, arith, length, take}
use swarmrt.Tokens.{TokType, tok_comma, tok_ident, tok_arrow, tok_when, Token}
use swarmrt.Syntax.{Node, Nodes, no_nodes, node, no_params, param, no_clauses}
use swarmrt.Parser.{Par, Parse, pure, ◌>>=◌, is, par_match}
use swarmrt.Parser.Levels.{par_expr, par_stmt, items_to, par_block}
use swarmrt.Parser.Forms.{
  par_dotted, par_named, names, braced, par_anonymous, par_for, par_try, par_spawn, par_send,
  attempt, ends_clauses, clause_stmts, add_clause, clauses, clause_body, par_receive,
}
use swarmrt.Parser.Same.{par_expr-Stable, par_stmt-Stable, par_block-Stable, items_to-Stable}
use swarmrt.Parser.Loops.{Below, smaller, turn_match, Below-after, Below-first, rounds, loop}
use swarmrt.Parser.Enough.{
  Agree, pure-Agree, weaken-Agree, fewer-Agree, branch-Agree, bind-Agree, round-Agree, no_tokens,
  Stable, pure-Stable, loosely, branch-Stable, on_tok-Stable, match-Stable, after, after_some, next,
  expect-Stable, fail-Stable,
}

pub ruleset steps =
    (after, next, loosely, match-Stable, branch-Stable, expect-Stable, pure-Stable, fail-Stable)

clauses-end : (p : Par) → length p.toks ≤ 0 → ends_clauses p ≡ true
unfolding is
clauses-end p small = rw (no_tokens p.toks small) (ground arith)

-- A step that goes back if an arrow follows.
attempt-Agree :
    (j : ℕ) (f f' : Parse Node) (h h' : Node → Parse Nodes)
    → Agree 1 j f f'
    → Agree 0 j (f >>= h) (f' >>= h')
    → Agree 0 j (attempt f h) (attempt f' h')
unfolding attempt ◌>>=◌
attempt-Agree j f f' h h' v w = record {
  same = λ p small. ground (arith, v.same p small, w.same p small);
  takes = λ p small. ground (arith, w.takes p small);
}

module _ (k : ℕ) (self self' : Parse Node) (a b : ℕ) (v : Stable 1 k self self') (la : k < a)
    (lb : k < b) where
  expr : Stable 0 k (par_expr self a) (par_expr self' b)
  expr = loosely (par_expr-Stable k self self' a b v la lb)

  block : Stable 0 k (par_block self a) (par_block self' b)
  block = par_block-Stable k self self' a b v la lb

  arguments : (close : TokType) → Stable 0 k (items_to self a close) (items_to self' b close)
  arguments = items_to-Stable k self self' a b v la lb

  par_dotted-Stable : (t u : Token) → Stable 0 k (par_dotted self a t u) (par_dotted self' b t u)
  unfolding par_dotted
  par_dotted-Stable t u = search (steps, arguments)

  pub par_named-Stable : (t : Token) → Stable 0 k (par_named self a t) (par_named self' b t)
  unfolding par_named
  par_named-Stable t = search (steps, arguments, par_dotted-Stable)

  pub braced-Stable : Stable 0 k (braced self a) (braced self' b)
  unfolding braced
  braced-Stable = search (steps, block)

  names-round :
      (n m j : ℕ)
      → j ≤ k
      → Below j (names self a n) (names self' b m)
      → Stable 0 j (names self a (suc n)) (names self' b (suc m))
  unfolding names is
  names-round n m j less rec = after (expect-Stable tok_ident) (λ t.
      turn_match tok_comma refl (Below-first rec (λ ps. pure-Stable (param (take 127 t.text) ps)))
        (pure-Stable (param (take 127 t.text) no_params)))

  names-Stable : Stable 0 k (names self a a) (names self' b b)
  names-Stable = loop k (names self a) (names self' b) names-round a b la lb

  pub par_anonymous-Stable : Stable 0 k (par_anonymous self a) (par_anonymous self' b)
  unfolding par_anonymous
  par_anonymous-Stable = search (steps, names-Stable, braced-Stable)

  pub par_for-Stable : Stable 0 k (par_for self a) (par_for self' b)
  unfolding par_for
  par_for-Stable = search (steps, expr, braced-Stable)

  pub par_try-Stable : Stable 0 k (par_try self a) (par_try self' b)
  unfolding par_try
  par_try-Stable = search (steps, braced-Stable)

  pub par_spawn-Stable : Stable 0 k (par_spawn self a) (par_spawn self' b)
  unfolding par_spawn
  par_spawn-Stable = search (steps, expr)

  pub par_send-Stable : Stable 0 k (par_send self a) (par_send self' b)
  unfolding par_send
  par_send-Stable = search (steps, expr)

  clause_stmts-round :
      (n m j : ℕ)
      → j ≤ k
      → Below j (clause_stmts self a n) (clause_stmts self' b m)
      → Stable 0 j (clause_stmts self a (suc n)) (clause_stmts self' b (suc m))
  unfolding clause_stmts
  clause_stmts-round n m j less rec = record {
    within = λ l small.
        round-Agree l (λ p. ends_clauses p || p.err) _ _ _ _ (λ p few. rw (clauses-end p few) refl)
          ((pure-Stable no_nodes).within l small)
          (λ i e.
            let f = (smaller less (par_stmt-Stable k self self' a b v la lb)).within l small in
            attempt-Agree l (par_stmt self a) (par_stmt self' b)
              (λ s. clause_stmts self a n >>= λ ss. pure (node s ss))
              (λ s. clause_stmts self' b m >>= λ ss. pure (node s ss)) f
              (weaken-Agree 0 1 l _ _ (omega arith) (
                bind-Agree 1 0 l (par_stmt self a) (par_stmt self' b)
                  (λ s. clause_stmts self a n >>= λ ss. pure (node s ss))
                  (λ s. clause_stmts self' b m >>= λ ss. pure (node s ss)) f
                  (λ s.
                    (Below-first rec (λ ss. pure-Stable (node s ss))).under (l - 1)
                      (omega (arith, e, small))))));
  }

  clause_stmts-Stable : Stable 0 k (clause_stmts self a a) (clause_stmts self' b b)
  clause_stmts-Stable =
      loop k (clause_stmts self a) (clause_stmts self' b) clause_stmts-round a b la lb

  guard-Stable :
      Stable 0 k
        (par_match tok_when (par_expr self a >>= λ g. pure (some g)) (pure none))
        (par_match tok_when (par_expr self' b >>= λ g. pure (some g)) (pure none))
  guard-Stable = search (steps, expr)

  clauses-round :
      (n m j : ℕ)
      → j ≤ k
      → Below j (clauses self a n) (clauses self' b m)
      → Stable 0 j (clauses self a (suc n)) (clauses self' b (suc m))
  unfolding clauses
  clauses-round n m j less rec =
      rounds ends_clauses clauses-end (pure-Stable no_clauses)
        (smaller less (par_expr-Stable k self self' a b v la lb))
        (λ pattern. Below-after (smaller less guard-Stable) (λ guard.
          Below-after (smaller less (next (expect-Stable tok_arrow) clause_stmts-Stable)) (λ ss.
            Below-first rec (λ cs. pure-Stable (add_clause pattern guard (clause_body ss) cs)))))

  clauses-Stable : Stable 0 k (clauses self a a) (clauses self' b b)
  clauses-Stable = loop k (clauses self a) (clauses self' b) clauses-round a b la lb

  pub par_receive-Stable : Stable 0 k (par_receive self a) (par_receive self' b)
  unfolding par_receive
  par_receive-Stable = search (steps, clauses-Stable, expr) depth 12
