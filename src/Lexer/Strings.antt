-- ===== src/Lexer/Strings.antt =====
-- Strings with escapes, written and read.
use swarmrt.Base.{
  ℕ, ◌+◌, ◌≤◌, ◌≡◌, refl, ap, ◌≢◌, inl, inr, [], ◌∷◌, ◌++◌, false, Option, some, if◌then◌else◌,
  ◌==◌, leb, arith, length, Bool-cases, ==_iff, Bytes,
}
use swarmrt.Tokens.{tok_string, Pos, is_digit}
use swarmrt.Lexer.{
  peek, advance, ladv, skip, Scan, map_copy, scan_string, unescape, token, close_quote, lex_string,
  lex_token, lnext_with, lnext,
}

-- The character that stands for a byte after a backslash, 0 for a byte that is written as it is.
unfoldable pub escape_of : ℕ → ℕ
escape_of c =
    if c == 10
    then b'n'
    else if c == 9
    then b't'
    else if c == 13
    then b'r'
    else if c == 27
    then b'e'
    else if c == 0
    then b'0'
    else if c == 1
    then b'#'
    else if c == b'"'
    then b'"'
    else if c == b'\\'
    then b'\\'
    else 0

-- A text with its escapes.
unfoldable pub escape : Bytes → Bytes
unfolding escape_of
escape [] = []
escape (c ∷ cs) = if escape_of c == 0 then c ∷ escape cs else b'\\' ∷ escape_of c ∷ escape cs

-- Where a text ends that starts at a place.
unfoldable pub end_of : Bytes → Pos → Pos
end_of [] p = p
end_of (c ∷ cs) p = end_of cs (advance c p)

plain_byte : (c : ℕ) → escape_of c ≡ 0 → ((c == b'"') ≡ false) × ((c == b'\\') ≡ false)
unfolding escape_of
plain_byte c h = (ground arith, ground arith)

unescape-escape_of : (c : ℕ) → escape_of c ≢ 0 → unescape (escape_of c) ≡ c
unfolding escape_of unescape
unescape-escape_of c h = ground arith

-- The text read with the place where the closing quote is.
quoted : Bytes → Bytes → Pos → Option Scan
quoted cs more p =
    some (record { text = cs; after = record { rest = b'"' ∷ more; at = end_of (escape cs) p } })

scan_string-escape :
    (cs more : Bytes) (i : ℕ) (p : Pos)
    → i + length cs ≤ 2046
    → scan_string false i (escape cs ++ (b'"' ∷ more)) p ≡ quoted cs more p
unfolding scan_string escape quoted end_of
scan_string-escape [] more i p h = refl
scan_string-escape (c ∷ cs) more i p h = elim (Bool-cases (escape_of c == 0)) [
  | inl e ↦
      let plain = plain_byte c ((==_iff (escape_of c) 0).0 e) in
      let room : leb 2046 i ≡ false = ground (arith, h) in
      let rest = scan_string-escape cs more (i + 1) (advance c p) (omega (arith, h)) in
      rw (e, scan_string) (rw (plain.1, plain.0, room) (ap (map_copy c) rest))
  | inr e ↦
      let room : leb 2046 i ≡ false = ground (arith, h) in
      let back = unescape-escape_of c (ground (arith, e)) in
      let rest =
        scan_string-escape cs more (i + 1) (advance (escape_of c) (advance b'\\' p))
          (omega (arith, h)) in
      rw (e, scan_string) (rw (room, back) (ap (map_copy c) rest))
]

end_of-snoc : (cs : Bytes) (c : ℕ) (p : Pos) → end_of (cs ++ (c ∷ [])) p ≡ advance c (end_of cs p)
unfolding end_of
end_of-snoc [] c p = refl
end_of-snoc (d ∷ cs) c p = end_of-snoc cs c (advance d p)

-- A text of at most 2046 bytes that is written between quotes, with a backslash before the bytes that
-- need it, is read as one token of a string with this text, and the lexer stands after the quote.
pub lnext-escape :
    (cs more : Bytes) (p : Pos)
    → length cs ≤ 2046
    → lnext (record { rest = b'"' ∷ (escape cs ++ (b'"' ∷ more)); at = p })
      ≡ token
          (record { type = tok_string; text = cs; at = p })
          (record { rest = more; at = end_of (escape cs ++ (b'"' ∷ [])) (advance b'"' p) })
unfolding lnext lnext_with skip peek lex_token is_digit quoted lex_string close_quote ladv advance
lnext-escape cs more p h =
    rw (scan_string-escape cs more 0 (advance b'"' p) (omega (arith, h)))
      (rw (end_of-snoc (escape cs) b'"' (advance b'"' p)) refl)
