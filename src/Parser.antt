-- ===== src/Parser.antt =====
-- The parser of src/swarmrt_lang.c, as far as its own state goes. What `lnext` returns one after the
-- other is a list of tokens, the current one first; at its end every further token is that of the end
-- of the input. Of the message of an error, only that there is one is kept. A parser is a function on
-- this state, and the recursion of `par_primary` is open: the functions for operators, statements and
-- blocks take the parser of a primary expression.
pub mod Levels
pub mod Forms
pub mod Primary
pub mod Modules
pub mod Enough
pub mod Loops
pub mod Same
pub mod Fuel
pub mod Grammar
pub mod Operators
pub mod Operands
use swarmrt.Base.{ℕ, List, [], ◌∷◌, Bool, true, if◌then◌else◌, ◌==◌}
use swarmrt.Tokens.{
  TokType, tok_eof, tok_ident, tok_number, tok_string, tok_atom, tok_spawn, tok_receive, tok_send,
  tok_after, tok_swarm, tok_map, tok_reduce, tok_supervise, tok_module, tok_export, tok_fun,
  tok_when, tok_case, tok_end, tok_if, tok_else, tok_self, tok_arrow, tok_farrow, tok_pipe,
  tok_assign, tok_eq, tok_neq, tok_lt, tok_gt, tok_le, tok_ge, tok_plus, tok_minus, tok_star,
  tok_slash, tok_concat, tok_and, tok_or, tok_lparen, tok_rparen, tok_lbrace, tok_rbrace,
  tok_lbracket, tok_rbracket, tok_comma, tok_dot, tok_colon, tok_semi, tok_newline, tok_elsif,
  tok_for, tok_in, tok_try, tok_catch, tok_import, tok_dotdot, tok_bar, tok_percent, Token,
}

-- `par_t`
pub record Par : Type 0 where
  pub toks : List Token
  pub err : Bool

abbrev pub Parse : Type 0 → Type 0
Parse A = Par → A × Par

unfoldable pub pure : {A : Type 0} → A → Parse A
pure a p = (a, p)

infixl 1 ◌>>=◌ ◌>>◌
unfoldable pub ◌>>=◌ : {A B : Type 0} → Parse A → (A → Parse B) → Parse B
◌>>=◌ m f p = let r = m p in f r.0 r.1

unfoldable pub ◌>>◌ : {A B : Type 0} → Parse A → Parse B → Parse B
unfolding ◌>>=◌
m >> k = m >>= λ _. k

-- The number of an enumerator, by which types are compared.
unfoldable pub type_code : TokType → ℕ
type_code tok_eof = 0
type_code tok_ident = 1
type_code tok_number = 2
type_code tok_string = 3
type_code tok_atom = 4
type_code tok_spawn = 5
type_code tok_receive = 6
type_code tok_send = 7
type_code tok_after = 8
type_code tok_swarm = 9
type_code tok_map = 10
type_code tok_reduce = 11
type_code tok_supervise = 12
type_code tok_module = 13
type_code tok_export = 14
type_code tok_fun = 15
type_code tok_when = 16
type_code tok_case = 17
type_code tok_end = 18
type_code tok_if = 19
type_code tok_else = 20
type_code tok_self = 21
type_code tok_arrow = 22
type_code tok_farrow = 23
type_code tok_pipe = 24
type_code tok_assign = 25
type_code tok_eq = 26
type_code tok_neq = 27
type_code tok_lt = 28
type_code tok_gt = 29
type_code tok_le = 30
type_code tok_ge = 31
type_code tok_plus = 32
type_code tok_minus = 33
type_code tok_star = 34
type_code tok_slash = 35
type_code tok_concat = 36
type_code tok_and = 37
type_code tok_or = 38
type_code tok_lparen = 39
type_code tok_rparen = 40
type_code tok_lbrace = 41
type_code tok_rbrace = 42
type_code tok_lbracket = 43
type_code tok_rbracket = 44
type_code tok_comma = 45
type_code tok_dot = 46
type_code tok_colon = 47
type_code tok_semi = 48
type_code tok_newline = 49
type_code tok_elsif = 50
type_code tok_for = 51
type_code tok_in = 52
type_code tok_try = 53
type_code tok_catch = 54
type_code tok_import = 55
type_code tok_dotdot = 56
type_code tok_bar = 57
type_code tok_percent = 58

unfoldable pub is : TokType → TokType → Bool
unfolding type_code
is t u = type_code t == type_code u

-- The token of the end of the input.
abbrev pub end_token : Token
end_token = record { type = tok_eof; text = []; at = record { line = 0; col = 0 } }

abbrev pub first : List Token → Token
first [] = end_token
first (t ∷ ts) = t

abbrev pub rest : List Token → List Token
rest [] = []
rest (t ∷ ts) = ts

-- `cur`
abbrev pub cur : Par → Token
cur p = first p.toks

-- `par_adv`
unfoldable pub par_adv : Parse Token
par_adv p = (cur p, record p { toks = rest p.toks })

unfoldable pub fail : Parse Token
fail p = (cur p, record p { err = true })

unfoldable pub branch : {A : Type 0} → (Par → Bool) → Parse A → Parse A → Parse A
branch test f g p = if test p then f p else g p

-- A step over the current token, if it is of the right type.
unfoldable pub on_tok : {A : Type 0} → (TokType → Bool) → (Token → Parse A) → Parse A → Parse A
unfolding branch par_adv ◌>>=◌
on_tok test f g = branch (λ p. test (cur p).type) (par_adv >>= f) g

-- `par_expect`
unfoldable pub par_expect : TokType → Parse Token
unfolding on_tok is pure fail
par_expect t = on_tok (is t) pure fail

-- `par_match` with what follows in either case.
unfoldable pub par_match : {A : Type 0} → TokType → Parse A → Parse A → Parse A
unfolding on_tok is
par_match t f g = on_tok (is t) (λ _. f) g
