-- ===== src/Tokens.antt =====
-- The tokens of the language in src/swarmrt_lang.c (`tok_type_t`, `tok_t`, `kw_table`) and the
-- character classes of <ctype.h> that the lexer uses, as they are in the C locale.
use swarmrt.Base.{
  ℕ, List, [], ◌∷◌, Bool, ◌&&◌, ◌||◌, Option, none, some, if◌then◌else◌, ◌==◌, leb, Bytes, bytes_eq,
}

-- `tok_type_t`
pub data TokType : Type 0 where
  tok_eof : TokType
  tok_ident : TokType
  tok_number : TokType
  tok_string : TokType
  tok_atom : TokType
  tok_spawn : TokType
  tok_receive : TokType
  tok_send : TokType
  tok_after : TokType
  tok_swarm : TokType
  tok_map : TokType
  tok_reduce : TokType
  tok_supervise : TokType
  tok_module : TokType
  tok_export : TokType
  tok_fun : TokType
  tok_when : TokType
  tok_case : TokType
  tok_end : TokType
  tok_if : TokType
  tok_else : TokType
  tok_self : TokType
  tok_arrow : TokType
  tok_farrow : TokType
  tok_pipe : TokType
  tok_assign : TokType
  tok_eq : TokType
  tok_neq : TokType
  tok_lt : TokType
  tok_gt : TokType
  tok_le : TokType
  tok_ge : TokType
  tok_plus : TokType
  tok_minus : TokType
  tok_star : TokType
  tok_slash : TokType
  tok_concat : TokType
  tok_and : TokType
  tok_or : TokType
  tok_lparen : TokType
  tok_rparen : TokType
  tok_lbrace : TokType
  tok_rbrace : TokType
  tok_lbracket : TokType
  tok_rbracket : TokType
  tok_comma : TokType
  tok_dot : TokType
  tok_colon : TokType
  tok_semi : TokType
  tok_newline : TokType
  tok_elsif : TokType
  tok_for : TokType
  tok_in : TokType
  tok_try : TokType
  tok_catch : TokType
  tok_import : TokType
  tok_dotdot : TokType
  tok_bar : TokType
  tok_percent : TokType

-- The `line` and `col` of `lex_t`.
pub record Pos : Type 0 where
  pub line : ℕ
  pub col : ℕ

-- `tok_t`. Its `num_val` is `atof` of the text of a number and has no field. The text is what the
-- lexer writes before the final zero.
pub record Token : Type 0 where
  pub type : TokType
  pub text : Bytes
  pub at : Pos

unfoldable pub is_digit : ℕ → Bool
is_digit c = leb b'0' c && leb c b'9'

unfoldable pub is_alpha : ℕ → Bool
is_alpha c = (leb b'A' c && leb c b'Z') || (leb b'a' c && leb c b'z')

-- The characters of a word after the first.
unfoldable pub is_word : ℕ → Bool
unfolding is_alpha is_digit
is_word c = is_alpha c || is_digit c || c == b'_' || c == b'?'

-- `kw_table`
abbrev pub keywords : List (Bytes × TokType)
keywords =
    (b's' ∷ b'p' ∷ b'a' ∷ b'w' ∷ b'n' ∷ [], tok_spawn)
    ∷ (b'r' ∷ b'e' ∷ b'c' ∷ b'e' ∷ b'i' ∷ b'v' ∷ b'e' ∷ [], tok_receive)
    ∷ (b's' ∷ b'e' ∷ b'n' ∷ b'd' ∷ [], tok_send)
    ∷ (b'a' ∷ b'f' ∷ b't' ∷ b'e' ∷ b'r' ∷ [], tok_after)
    ∷ (b's' ∷ b'w' ∷ b'a' ∷ b'r' ∷ b'm' ∷ [], tok_swarm)
    ∷ (b'm' ∷ b'o' ∷ b'd' ∷ b'u' ∷ b'l' ∷ b'e' ∷ [], tok_module)
    ∷ (b'e' ∷ b'x' ∷ b'p' ∷ b'o' ∷ b'r' ∷ b't' ∷ [], tok_export)
    ∷ (b'f' ∷ b'u' ∷ b'n' ∷ [], tok_fun)
    ∷ (b'w' ∷ b'h' ∷ b'e' ∷ b'n' ∷ [], tok_when)
    ∷ (b'c' ∷ b'a' ∷ b's' ∷ b'e' ∷ [], tok_case)
    ∷ (b'e' ∷ b'n' ∷ b'd' ∷ [], tok_end)
    ∷ (b'i' ∷ b'f' ∷ [], tok_if)
    ∷ (b'e' ∷ b'l' ∷ b's' ∷ b'e' ∷ [], tok_else)
    ∷ (b's' ∷ b'e' ∷ b'l' ∷ b'f' ∷ [], tok_self)
    ∷ (b'e' ∷ b'l' ∷ b's' ∷ b'i' ∷ b'f' ∷ [], tok_elsif)
    ∷ (b'f' ∷ b'o' ∷ b'r' ∷ [], tok_for)
    ∷ (b'i' ∷ b'n' ∷ [], tok_in)
    ∷ (b't' ∷ b'r' ∷ b'y' ∷ [], tok_try)
    ∷ (b'c' ∷ b'a' ∷ b't' ∷ b'c' ∷ b'h' ∷ [], tok_catch)
    ∷ (b'i' ∷ b'm' ∷ b'p' ∷ b'o' ∷ b'r' ∷ b't' ∷ [], tok_import)
    ∷ (b't' ∷ b'r' ∷ b'u' ∷ b'e' ∷ [], tok_atom)
    ∷ (b'f' ∷ b'a' ∷ b'l' ∷ b's' ∷ b'e' ∷ [], tok_atom)
    ∷ (b'n' ∷ b'i' ∷ b'l' ∷ [], tok_atom)
    ∷ []

-- The loop over the table, with what a word is that is not in it.
unfoldable pub keyword_in : List (Bytes × TokType) → Bytes → TokType
keyword_in [] w = tok_ident
keyword_in (k ∷ ks) w = if bytes_eq w k.0 then k.1 else keyword_in ks w

abbrev pub word_type : Bytes → TokType
word_type w = keyword_in keywords w

-- The tokens of two characters; for a percent sign before a brace the lexer takes one character.
abbrev pub two_chars : List (ℕ × ℕ × TokType)
two_chars =
    (b'-', b'>', tok_arrow)
    ∷ (b'=', b'>', tok_farrow)
    ∷ (b'=', b'=', tok_eq)
    ∷ (b'!', b'=', tok_neq)
    ∷ (b'<', b'=', tok_le)
    ∷ (b'>', b'=', tok_ge)
    ∷ (b'|', b'>', tok_pipe)
    ∷ (b'+', b'+', tok_concat)
    ∷ (b'&', b'&', tok_and)
    ∷ (b'|', b'|', tok_or)
    ∷ (b'.', b'.', tok_dotdot)
    ∷ []

unfoldable pub two_char_in : List (ℕ × ℕ × TokType) → ℕ → ℕ → Option TokType
two_char_in [] c d = none
two_char_in (t ∷ ts) c d = if c == t.0 && d == t.1 then some t.2 else two_char_in ts c d

abbrev pub one_chars : List (ℕ × TokType)
one_chars =
    (b'=', tok_assign)
    ∷ (b'<', tok_lt)
    ∷ (b'>', tok_gt)
    ∷ (b'+', tok_plus)
    ∷ (b'-', tok_minus)
    ∷ (b'*', tok_star)
    ∷ (b'/', tok_slash)
    ∷ (b'(', tok_lparen)
    ∷ (b')', tok_rparen)
    ∷ (b'{', tok_lbrace)
    ∷ (b'}', tok_rbrace)
    ∷ (b'[', tok_lbracket)
    ∷ (b']', tok_rbracket)
    ∷ (b',', tok_comma)
    ∷ (b'.', tok_dot)
    ∷ (b':', tok_colon)
    ∷ (b';', tok_semi)
    ∷ (b'|', tok_bar)
    ∷ (b'%', tok_percent)
    ∷ []

-- The switch on one character. A character that is in no case makes the token of the end of the input.
unfoldable pub one_char_in : List (ℕ × TokType) → ℕ → TokType
one_char_in [] c = tok_eof
one_char_in (t ∷ ts) c = if c == t.0 then t.1 else one_char_in ts c
