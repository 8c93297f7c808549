-- ===== src/Lexer.antt =====
-- The lexer of the language in src/swarmrt_lang.c (`lex_init`, `ladv`, `lskip`, `lnext`). The source is
-- the list of the bytes before its final zero; a step past this zero and a write past the 2048 bytes
-- of the text of a token are faults.
pub mod Ends
pub mod Bounds
pub mod Strings
use swarmrt.Base.{
  ℕ, zero, suc, ◌+◌, [], ◌∷◌, Bool, false, not, ◌&&◌, ◌||◌, Option, none, some, if◌then◌else◌, ◌==◌,
  ltb, leb, length, Bytes,
}
use swarmrt.Tokens.{
  TokType, tok_eof, tok_number, tok_string, tok_atom, tok_percent, Pos, Token, is_digit, is_alpha,
  is_word, keyword_in, keywords, two_char_in, two_chars, one_char_in, one_chars,
}

-- `lex_t`, with the bytes from `pos` on.
pub record Lex : Type 0 where
  pub rest : Bytes
  pub at : Pos

-- `lex_init`
abbrev pub lex_init : Bytes → Lex
lex_init src = record { rest = src; at = record { line = 1; col = 1 } }

-- `lpeek`: the final zero at the end.
unfoldable pub peek : Bytes → ℕ
peek [] = 0
peek (c ∷ cs) = c

-- The line and the column after a byte.
unfoldable pub advance : ℕ → Pos → Pos
advance c p =
    if c == b'\n'
    then record { line = p.line + 1; col = 1 }
    else record { line = p.line; col = p.col + 1 }

-- `ladv` where there is a byte.
unfoldable pub ladv : Lex → Lex
unfolding advance
ladv l = elim l.rest [ [] ↦ l | c ∷ cs ↦ record { rest = cs; at = advance c l.at } ]

-- `lskip`, in a comment or not.
unfoldable pub skip : Bool → Bytes → Pos → Lex
unfolding advance
skip b [] p = record { rest = []; at = p }
skip b (c ∷ cs) p =
    let later = skip (b || c == b'#') cs (advance c p) in
    if (if b then not (c == b'\n') else c == b' ' || c == b'\t' || c == b'\r' || c == b'#')
    then later
    else record { rest = c ∷ cs; at = p }

-- The text that a loop has copied, and where it has stopped.
pub record Scan : Type 0 where
  pub text : Bytes
  pub after : Lex

abbrev pub stop : Bytes → Pos → Scan
stop cs p = record { text = []; after = record { rest = cs; at = p } }

abbrev pub copy : ℕ → Scan → Scan
copy c s = record s { text = c ∷ s.text }

-- The loop over a number; two dots end it.
unfoldable pub scan_number : Bytes → Pos → Scan
unfolding is_digit peek advance
scan_number [] p = stop [] p
scan_number (c ∷ cs) p =
    let later = scan_number cs (advance c p) in
    if is_digit c || (c == b'.' && not (peek cs == b'.')) then copy c later else stop (c ∷ cs) p

-- The loop over a word.
unfoldable pub scan_word : Bytes → Pos → Scan
unfolding is_word advance
scan_word [] p = stop [] p
scan_word (c ∷ cs) p =
    let later = scan_word cs (advance c p) in if is_word c then copy c later else stop (c ∷ cs) p

-- The loop over a quoted atom.
unfoldable pub scan_atom : Bytes → Pos → Scan
unfolding advance
scan_atom [] p = stop [] p
scan_atom (c ∷ cs) p =
    let later = scan_atom cs (advance c p) in if c == b'\'' then stop (c ∷ cs) p else copy c later

-- What a character after a backslash stands for.
unfoldable pub unescape : ℕ → ℕ
unescape c =
    if c == b'n'
    then 10
    else if c == b't'
    then 9
    else if c == b'r'
    then 13
    else if c == b'e'
    then 27
    else if c == b'0'
    then 0
    else if c == b'#'
    then 1
    else c

abbrev pub map_copy : ℕ → Option Scan → Option Scan
map_copy c none = none
map_copy c (some s) = some (copy c s)

-- The loop over a string with `i` bytes written, after a backslash or not; none for a backslash before
-- the final zero, which the code steps over.
unfoldable pub scan_string : Bool → ℕ → Bytes → Pos → Option Scan
unfolding unescape advance
scan_string b i [] p = if b then none else some (stop [] p)
scan_string b i (c ∷ cs) p =
    let slash = not b && c == b'\\' in
    let later = scan_string slash (if slash then i else i + 1) cs (advance c p) in
    if b
    then map_copy (unescape c) later
    else if c == b'"' || leb 2046 i
    then some (stop (c ∷ cs) p)
    else if slash
    then later
    else map_copy c later

-- What a call gives: a token and the lexer after it.
pub data Lexed : Type 0 where
  out_of_fuel : Lexed
  fault : Lexed
  token : Token → Lex → Lexed

-- Passes over a closing quote, if it is there.
unfoldable pub close_quote : ℕ → Lex → Lex
unfolding peek ladv
close_quote q l = if peek l.rest == q then ladv l else l

-- A token whose text was copied without a bound; the final zero is within the 2048 bytes of the text
-- if there are at most 2047 before it.
unfoldable pub unbounded : TokType → Pos → Scan → Lex → Lexed
unbounded type p s after =
    if ltb (length s.text) 2048
    then token (record { type = type; text = s.text; at = p }) after
    else fault

unfoldable pub lex_string : Pos → Option Scan → Lexed
unfolding close_quote
lex_string p none = fault
lex_string p (some s) =
    token (record { type = tok_string; text = s.text; at = p }) (close_quote b'"' s.after)

-- The operators, from the first two characters.
unfoldable pub lex_operator : ℕ → Bytes → Pos → Lexed
unfolding advance peek ladv
lex_operator c cs p =
    let one : Lex = record { rest = cs; at = advance c p } in
    elim (two_char_in two_chars c (peek cs)) [
      | some type ↦ token (record { type = type; text = c ∷ peek cs ∷ []; at = p }) (ladv one)
      | none ↦
          if c == b'%' && peek cs == b'{'
          then token (record { type = tok_percent; text = b'%' ∷ []; at = p }) one
          else token (record { type = one_char_in one_chars c; text = c ∷ []; at = p }) one
    ]

-- `lnext` from the first character of a token.
unfoldable pub lex_token : Bytes → Pos → Lexed
unfolding is_digit is_alpha advance scan_number scan_word scan_atom scan_string unbounded
    close_quote lex_string lex_operator
lex_token [] p = token (record { type = tok_eof; text = []; at = p }) (record { rest = []; at = p })
lex_token (c ∷ cs) p =
    if is_digit c
    then (let s = scan_number (c ∷ cs) p in unbounded tok_number p s s.after)
    else if c == b'"'
    then lex_string p (scan_string false 0 cs (advance c p))
    else if c == b'\''
    then (let s = scan_atom cs (advance c p) in unbounded tok_atom p s (close_quote b'\'' s.after))
    else if is_alpha c || c == b'_'
    then (let s = scan_word (c ∷ cs) p in unbounded (keyword_in keywords s.text) p s s.after)
    else lex_operator c cs p

-- `lnext`, with as many calls of itself as the fuel.
unfoldable pub lnext_with : ℕ → Lex → Lexed
unfolding skip peek ladv lex_token
lnext_with zero l = out_of_fuel
lnext_with (suc n) l =
    let s = skip false l.rest l.at in
    let later = lnext_with n (ladv s) in
    if peek s.rest == b'\n' then later else lex_token s.rest s.at

-- `lnext`, with fuel for every byte that is left.
unfoldable pub lnext : Lex → Lexed
unfolding lnext_with
lnext l = lnext_with (suc (length l.rest)) l
