-- ===== src/Parser/Operators.antt =====
-- The parser of src/swarmrt_lang.c reads the grammar of operators.
use swarmrt.Base.{
  ℕ, zero, suc, ◌≡◌, refl, ◌∙◌, List, [], ◌∷◌, ◌++◌, Bool, true, false, ◌||◌, if◌then◌else◌,
  append_assoc, arith, length-append,
}
use swarmrt.Tokens.{
  TokType, Token, tok_number, tok_atom, tok_lparen, tok_rparen, tok_minus, tok_dotdot, tok_pipe,
}
use swarmrt.Syntax.{Node, n_int, n_float, n_atom, n_unary, n_range, n_pipe}
use swarmrt.Parser.{Parse, pure, ◌>>=◌, is, type_code, first, par_match}
use swarmrt.Parser.Levels.{
  is_mul, is_add, is_cmp, is_logic, binop, par_mul, par_add, par_range, par_cmp, par_logic,
  par_pipe, par_expr,
}
use swarmrt.Parser.Primary.{has_dot}
use swarmrt.Parser.Grammar.{Category, Level, Reads, on_tok-no, on_tok-yes, bind-then, level-Reads}

-- The bounds of a range, or an operand of the level below.
pub data Range (Sub : Category) : Node → List Token → Type 0 where
  single : {n : Node} {ts : List Token} → Sub n ts → Range Sub n ts
  range :
      {l r : Node} {us vs : List Token}
      → (t : Token) → is tok_dotdot t.type ≡ true
      → Sub l us
      → Sub r vs
      → Range Sub (n_range l r) (us ++ (t ∷ vs))

-- A number or an atom.
pub data Literal : Node → List Token → Type 0 where
  number :
      (t : Token)
      → t.type ≡ tok_number
      → Literal (if has_dot t.text then n_float t.text else n_int t.text) (t ∷ [])
  atom : (t : Token) → t.type ≡ tok_atom → Literal (n_atom t.text) (t ∷ [])

abbrev pub Sums : Category → Category
Sums Prim = Level is_add binop (Level is_mul binop Prim)

-- All expressions of operators over these operands.
abbrev pub Expression : Category → Category
Expression Prim =
    Level (is tok_pipe) (λ op l r. n_pipe l r)
      (Level is_logic binop (Level is_cmp binop (Range (Sums Prim))))

-- An operand: a literal, an expression in parentheses, or an operand after a minus sign.
pub data Operand (Sub : Category) : Node → List Token → Type 0 where
  literal : {n : Node} {ts : List Token} → Literal n ts → Operand Sub n ts
  group :
      {n : Node} {ts : List Token}
      → (t u : Token) → t.type ≡ tok_lparen
      → u.type ≡ tok_rparen
      → Expression Sub n ts
      → Operand Sub n (t ∷ (ts ++ (u ∷ [])))
  minus :
      {n : Node} {ts : List Token}
      → (t : Token) → t.type ≡ tok_minus
      → Sub n ts
      → Operand Sub (n_unary n) (t ∷ ts)

-- The operands with signs and parentheses to some depth.
abbrev pub Deep : ℕ → Category
Deep zero n ts = Literal n ts
Deep (suc d) n ts = Operand (Deep d) n ts

-- The tokens that go on with an expression.
abbrev pub follow_range : TokType → Bool
follow_range t = (is_mul t || is_add t) || is tok_dotdot t

abbrev pub follow : TokType → Bool
follow t = ((follow_range t || is_cmp t) || is_logic t) || is tok_pipe t

-- No token is an operator of two levels.
apart_add : (t : TokType) → is_add t ≡ true → is_mul t ≡ false
unfolding is_add is_mul is type_code
apart_add t e = ground arith

apart_dots : (t : TokType) → is tok_dotdot t ≡ true → (is_mul t || is_add t) ≡ false
unfolding is_add is_mul is type_code
apart_dots t e = ground arith

apart_cmp : (t : TokType) → is_cmp t ≡ true → follow_range t ≡ false
unfolding is_add is_mul is_cmp is type_code
apart_cmp t e = ground arith

apart_logic : (t : TokType) → is_logic t ≡ true → (follow_range t || is_cmp t) ≡ false
unfolding is_add is_mul is_cmp is_logic is type_code
apart_logic t e = ground arith

apart_pipe :
    (t : TokType) → is tok_pipe t ≡ true → ((follow_range t || is_cmp t) || is_logic t) ≡ false
unfolding is_add is_mul is_cmp is_logic is type_code
apart_pipe t e = ground arith

neither : (a b : Bool) → (a || b) ≡ false → (a ≡ false) × (b ≡ false)
neither a b e = ground arith

module _ (self : Parse Node) (k : ℕ) (Prim : Category)
    (reads : Reads self k (λ t. false) Prim) where
  par_mul-Reads : Reads (par_mul self k) k is_mul (Level is_mul binop Prim)
  unfolding par_mul
  par_mul-Reads = level-Reads is_mul (λ t. false) binop Prim self k (λ t e. refl) reads

  par_add-Reads : Reads (par_add self k) k (λ t. is_mul t || is_add t) (Sums Prim)
  unfolding par_add
  par_add-Reads =
      level-Reads is_add is_mul binop (Level is_mul binop Prim) (par_mul self k) k apart_add
        par_mul-Reads

  par_range-Reads : Reads (par_range self k) k follow_range (Range (Sums Prim))
  unfolding par_range Reads par_match pure
  par_range-Reads n ts rest err (single d) free less =
      let (no_sum, no_dots) = neither _ (is tok_dotdot (first rest).type) free in
      bind-then (par_add self k) upper (record { toks = ts ++ rest; err = err })
        (record { toks = rest; err = err }) n (par_add-Reads n ts rest err d no_sum less)
      ∙ on_tok-no (is tok_dotdot) (λ t. par_add self k >>= λ right. pure (n_range n right)) (pure n)
          (record { toks = rest; err = err }) no_dots
    where
      upper : Node → Parse Node
      upper left =
          par_match tok_dotdot (par_add self k >>= λ right. pure (n_range left right)) (pure left)
  par_range-Reads n ts rest err (range {l = l} {r = r} {us = us} {vs = vs} t is_t dl dr) free less =
      let (no_sum, no_dots) = neither _ (is tok_dotdot (first rest).type) free in
      let room = length-append us (t ∷ vs) in
      rw append_assoc (
        bind-then (par_add self k) upper (record { toks = us ++ (t ∷ (vs ++ rest)); err = err })
          (record { toks = t ∷ (vs ++ rest); err = err }) l
          (par_add-Reads l us (t ∷ (vs ++ rest)) err dl (apart_dots t.type is_t)
            (omega (arith, less, room)))
        ∙ on_tok-yes (is tok_dotdot) (λ u. par_add self k >>= λ right. pure (n_range l right))
            (pure l) t (vs ++ rest) err is_t
        ∙ bind-then (par_add self k) (λ right. pure (n_range l right))
            (record { toks = vs ++ rest; err = err }) (record { toks = rest; err = err }) r
            (par_add-Reads r vs rest err dr no_sum (omega (arith, less, room))))
    where
      upper : Node → Parse Node
      upper left =
          par_match tok_dotdot (par_add self k >>= λ right. pure (n_range left right)) (pure left)

  pub par_expr-Reads : Reads (par_expr self k) k follow (Expression Prim)
  unfolding par_expr par_pipe par_logic par_cmp
  par_expr-Reads = level-Reads (is tok_pipe) _ _ _ (par_logic self k) k apart_pipe (
      level-Reads is_logic _ binop _ (par_cmp self k) k apart_logic (
        level-Reads is_cmp follow_range binop (Range (Sums Prim)) (par_range self k) k apart_cmp
          par_range-Reads))
