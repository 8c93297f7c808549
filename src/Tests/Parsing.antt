-- ===== src/Tests/Parsing.antt =====
-- The parser on concrete tokens.
use swarmrt.Base.{◌≡◌, ◌≤◌, refl, List, [], ◌∷◌, false, Bytes, Option, none, some, arith, length}
use swarmrt.Tokens.{
  TokType, Token, tok_number, tok_plus, tok_star, tok_ident, tok_lparen, tok_rparen, tok_comma,
  tok_pipe,
}
use swarmrt.Syntax.{Node, n_int, n_binop, n_ident, n_call, n_pipe, node, no_nodes}
use swarmrt.Parser.{Par, is, type_code, par_match, ◌>>◌}
use swarmrt.Parser.Levels.{is_mul, is_add, is_cmp, is_logic, binop, par_expr}
use swarmrt.Parser.Primary.{has_dot, par_primary}
use swarmrt.Parser.Modules.{par_module, par_expr_string}
use swarmrt.Parser.Grammar.{Level, goes_on, ends, alone}
use swarmrt.Parser.Operators.{Expression, Deep, number, single}
use swarmrt.Parser.Operands.{par_expr-Expression}
use swarmrt.Parser.Fuel.{parse-fuel}

abbrev tok : TokType → Bytes → Token
tok type text = record { type = type; text = text; at = record { line = 1; col = 1 } }

-- 1 + 2 * f(x, 3) |> g
abbrev sum : List Token
sum =
    tok tok_number (b'1' ∷ [])
    ∷ tok tok_plus (b'+' ∷ [])
    ∷ tok tok_number (b'2' ∷ [])
    ∷ tok tok_star (b'*' ∷ [])
    ∷ tok tok_ident (b'f' ∷ [])
    ∷ tok tok_lparen (b'(' ∷ [])
    ∷ tok tok_ident (b'x' ∷ [])
    ∷ tok tok_comma (b',' ∷ [])
    ∷ tok tok_number (b'3' ∷ [])
    ∷ tok tok_rparen (b')' ∷ [])
    ∷ tok tok_pipe (b'|' ∷ b'>' ∷ [])
    ∷ tok tok_ident (b'g' ∷ [])
    ∷ []

abbrev plain : Bytes → Option Node
plain s = none

sum_parse :
    par_expr_string (par_primary plain) sum
    ≡ some (
        n_pipe
          (n_binop (b'+' ∷ []) (n_int (b'1' ∷ [])) (
            n_binop (b'*' ∷ []) (n_int (b'2' ∷ [])) (
              n_call
                (n_ident (b'f' ∷ []))
                (node (n_ident (b'x' ∷ [])) (node (n_int (b'3' ∷ [])) no_nodes)))))
          (n_ident (b'g' ∷ [])))
unfolding par_expr_string par_match par_primary ◌>>◌
sum_parse = refl

abbrev at_sum : Par
at_sum = record { toks = sum; err = false }

parse-fuel_example :
    (par_expr (par_primary plain 13) 13 at_sum ≡ par_expr (par_primary plain 90) 90 at_sum)
    × (par_module (par_primary plain 13) 13 at_sum ≡ par_module (par_primary plain 90) 90 at_sum)
    × (length (par_expr (par_primary plain 13) 13 at_sum).1.toks ≤ 11)
parse-fuel_example = parse-fuel plain 13 90 at_sum (omega arith) (omega arith)

abbrev one : Token
one = tok tok_number (b'1' ∷ [])

abbrev two : Token
two = tok tok_number (b'2' ∷ [])

abbrev three : Token
three = tok tok_number (b'3' ∷ [])

abbrev plus : Token
plus = tok tok_plus (b'+' ∷ [])

abbrev times : Token
times = tok tok_star (b'*' ∷ [])

abbrev comma : Token
comma = tok tok_comma (b',' ∷ [])

-- 1 + 2 * 3
product-Level :
    Level is_mul binop
      (Deep 0)
      (n_binop (b'*' ∷ []) (n_int (b'2' ∷ [])) (n_int (b'3' ∷ [])))
      (two ∷ times ∷ three ∷ [])
unfolding is_mul is type_code has_dot
product-Level = record {
  left = n_int (b'2' ∷ []);
  head = two ∷ [];
  tail = times ∷ three ∷ [];
  first_operand = number two refl;
  others = goes_on times refl (number three refl) ends;
  whole = refl;
}

sum-Expression :
    Expression
      (Deep 0)
      (n_binop
        (b'+' ∷ [])
        (n_int (b'1' ∷ []))
        (n_binop (b'*' ∷ []) (n_int (b'2' ∷ [])) (n_int (b'3' ∷ []))))
      (one ∷ plus ∷ two ∷ times ∷ three ∷ [])
unfolding is_add is type_code has_dot
sum-Expression = alone (
    alone (
      alone (
        single (record {
          left = n_int (b'1' ∷ []);
          head = one ∷ [];
          tail = plus ∷ two ∷ times ∷ three ∷ [];
          first_operand = alone (number one refl);
          others = goes_on plus refl product-Level ends;
          whole = refl;
        }))))

par_expr-Expression_example :
    par_expr
      (par_primary plain 7)
      7
      (record { toks = one ∷ plus ∷ two ∷ times ∷ three ∷ comma ∷ []; err = false })
    ≡ (
      n_binop
          (b'+' ∷ [])
          (n_int (b'1' ∷ []))
          (n_binop (b'*' ∷ []) (n_int (b'2' ∷ [])) (n_int (b'3' ∷ []))),
      record { toks = comma ∷ []; err = false },
    )
unfolding is_mul is_add is_cmp is_logic is type_code
par_expr-Expression_example =
    par_expr-Expression plain 0 7 _ (one ∷ plus ∷ two ∷ times ∷ three ∷ []) (comma ∷ []) false
      sum-Expression refl (omega arith)
