-- ===== src/Tests/Sources.antt =====
-- The lexer on concrete sources.
use swarmrt.Base.{◌<◌, ◌≡◌, refl, ◌⊎◌, [], ◌∷◌, ◌++◌, arith, length, Bytes}
use swarmrt.Tokens.{
  tok_eof, tok_ident, tok_string, Token, is_digit, is_alpha, is_word, keyword_in, two_char_in,
  one_char_in,
}
use swarmrt.Lexer.{
  Lex, lex_init, peek, advance, ladv, skip, scan_word, scan_string, lex_string, unbounded, fault,
  token, lex_operator, lex_token, lnext_with, lnext,
}
use swarmrt.Lexer.Bounds.{last_or, lnext-token, Settles, lnext_with-Settles}
use swarmrt.Lexer.Strings.{escape, end_of, lnext-escape}

-- A comment, a line and a word.
abbrev source : Bytes
source = b'#' ∷ b'!' ∷ b'\n' ∷ b' ' ∷ b'x' ∷ b'1' ∷ b'+' ∷ []

lnext_with-Settles_example : Settles (lex_init source) (lnext_with 8 (lex_init source))
lnext_with-Settles_example = lnext_with-Settles 8 (lex_init source) (omega arith)

lnext-token_example :
    (t : Token) × ((l' : Lex) × (lnext (lex_init source) ≡ token t l')
      × ((t.type ≡ tok_eof) ⊎ (length l'.rest < length (lex_init source).rest)))
unfolding last_or
lnext-token_example = lnext-token (lex_init source) (omega arith) (ground arith)

-- A tab, a quote and a letter.
abbrev hard_text : Bytes
hard_text = 9 ∷ b'"' ∷ b'a' ∷ []

lnext-escape_example :
    lnext (record { rest = b'"' ∷ (escape hard_text ++ (b'"' ∷ [])); at = (lex_init []).at })
    ≡ token
        (record { type = tok_string; text = hard_text; at = (lex_init []).at })
        (record {
          rest = [];
          at = end_of (escape hard_text ++ (b'"' ∷ [])) (advance b'"' (lex_init []).at);
        })
lnext-escape_example = lnext-escape hard_text [] (lex_init []).at (omega arith)

lnext-source :
    lnext (lex_init source)
    ≡ token
        (record { type = tok_ident; text = b'x' ∷ b'1' ∷ []; at = record { line = 2; col = 2 } })
        (record { rest = b'+' ∷ []; at = record { line = 2; col = 4 } })
unfolding lnext lnext_with skip peek ladv advance lex_token scan_word is_word is_digit is_alpha
    unbounded keyword_in
lnext-source = refl

-- A character that begins no token makes a token of the end of the input.
lnext-unknown :
    lnext (lex_init (b'!' ∷ b'x' ∷ []))
    ≡ token
        (record { type = tok_eof; text = b'!' ∷ []; at = record { line = 1; col = 1 } })
        (record { rest = b'x' ∷ []; at = record { line = 1; col = 2 } })
unfolding lnext lnext_with skip peek advance lex_token is_digit is_alpha lex_operator two_char_in
    one_char_in
lnext-unknown = refl

-- A source that ends in a backslash within a string is stepped past.
lnext-open_escape : lnext (lex_init (b'"' ∷ b'\\' ∷ [])) ≡ fault
unfolding lnext lnext_with skip peek advance lex_token is_digit is_alpha lex_string scan_string
lnext-open_escape = refl
