-- ===== src/Parser/Operands.antt =====
-- The parser of src/swarmrt_lang.c reads the operands of the grammar, and so its expressions.
use swarmrt.Base.{
  ℕ, zero, suc, ◌<◌, ◌≡◌, refl, ap, ◌∙◌, List, [], ◌∷◌, ◌++◌, Bool, false, Option, append_assoc,
  arith, length, length-append, Bytes,
}
use swarmrt.Tokens.{Token, tok_rparen}
use swarmrt.Syntax.{Node, n_unary}
use swarmrt.Parser.{Parse, pure, ◌>>=◌, ◌>>◌, is, type_code, first, fail, par_expect}
use swarmrt.Parser.Levels.{is_mul, is_add, is_cmp, is_logic, par_expr}
use swarmrt.Parser.Primary.{par_group, primary_at, par_primary}
use swarmrt.Parser.Grammar.{Category, Reads, on_tok-yes, bind-then}
use swarmrt.Parser.Operators.{
  Literal, number, atom, Operand, literal, group, minus, Expression, Deep, follow, par_expr-Reads,
}

rparen-stops : follow tok_rparen ≡ false
unfolding is_add is_mul is_cmp is_logic is type_code
rparen-stops = refl

-- A closing parenthesis is taken.
expect_rparen :
    (g : Parse Node) (u : Token) (ts : List Token) (err : Bool)
    → u.type ≡ tok_rparen
    → (par_expect tok_rparen >> g) (record { toks = u ∷ ts; err = err })
      ≡ g (record { toks = ts; err = err })
unfolding par_expect ◌>>◌ ◌>>=◌ pure is type_code
expect_rparen g u ts err e =
    ap (λ r. g r.1) (on_tok-yes (is tok_rparen) pure fail u ts err (rw e refl))

module _ (interp : Bytes → Option Node) where
  par_primary-Literal : (a : ℕ) → Reads (par_primary interp a) a (λ t. false) Literal
  unfolding Reads par_primary primary_at pure
  par_primary-Literal zero n ts rest err d free less = absurd (omega (arith, less))
  par_primary-Literal (suc a) n ts rest err (number t e) free less = rw e
  par_primary-Literal (suc a) n ts rest err (atom t e) free less = rw e

  par_primary-Operand :
      (a : ℕ) (Sub : Category)
      → Reads (par_primary interp a) a (λ t. false) Sub
      → Reads (par_primary interp (suc a)) (suc a) (λ t. false) (Operand Sub)
  unfolding Reads par_primary primary_at par_group pure
  par_primary-Operand a Sub reads n ts rest err (literal d) free less =
      par_primary-Literal (suc a) n ts rest err d free less
  par_primary-Operand a Sub reads n ts rest err (group {ts = us} t u e e' d) free less =
      let room = length-append us (u ∷ []) in
      let inner =
        par_expr-Reads (par_primary interp a) a Sub reads n us (u ∷ rest) err d
          (ap follow e' ∙ rparen-stops) (omega (arith, less, room)) in
      rw (e, append_assoc)
        (bind-then (par_expr (par_primary interp a) a) (λ x. par_expect tok_rparen >> pure x)
            (record { toks = us ++ (u ∷ rest); err = err }) (record { toks = u ∷ rest; err = err })
            n inner
          ∙ expect_rparen (pure n) u rest err e')
  par_primary-Operand a Sub reads n ts rest err (minus {n = m} {ts = us} t e d) free less =
      let inner = reads m us rest err d refl (omega (arith, less)) in
      rw e (
        bind-then (par_primary interp a) (λ x. pure (n_unary x))
          (record { toks = us ++ rest; err = err }) (record { toks = rest; err = err }) m inner)

  par_primary-Deep : (d a : ℕ) → Reads (par_primary interp a) a (λ t. false) (Deep d)
  unfolding Reads
  par_primary-Deep zero a = par_primary-Literal a
  par_primary-Deep (suc d) zero = none-Reads
    where
      none-Reads : Reads (par_primary interp 0) 0 (λ t. false) (Deep (suc d))
      none-Reads n ts rest err e free less = absurd (omega (arith, less))
  par_primary-Deep (suc d) (suc a) = par_primary-Operand a (Deep d) (par_primary-Deep d a)

  -- From the tokens of an expression of the grammar, with operands of any depth, and tokens that do
  -- not go on with it, the parser reads the tree of the expression and leaves these tokens, and there
  -- is no new error, if its fuel is more than the tokens of the expression.
  pub par_expr-Expression :
      (d a : ℕ) (n : Node) (ts rest : List Token) (err : Bool)
      → Expression (Deep d) n ts
      → follow (first rest).type ≡ false
      → length ts < a
      → par_expr (par_primary interp a) a (record { toks = ts ++ rest; err = err })
        ≡ (n, record { toks = rest; err = err })
  unfolding Reads
  par_expr-Expression d a = par_expr-Reads (par_primary interp a) a (Deep d) (par_primary-Deep d a)
