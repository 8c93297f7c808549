-- ===== src/Lexer/Ends.antt =====
-- The bytes that lnext takes, and its fuel.
use swarmrt.Base.{
  ℕ, zero, suc, ◌+◌, ◌≤◌, ◌<◌, ◌≡◌, refl, ◌⊎◌, inl, inr, [], ◌∷◌, Bool, true, false, ◌&&◌, ◌||◌,
  Option, none, some, if◌then◌else◌, ◌==◌, ltb, arith, length, Bool-cases, Option-cases, Bytes,
}
use swarmrt.Tokens.{
  TokType, tok_eof, tok_atom, tok_percent, Pos, Token, is_digit, is_alpha, is_word, keyword_in,
  keywords, two_char_in, two_chars, one_char_in, one_chars,
}
use swarmrt.Lexer.{
  Lex, peek, advance, ladv, skip, Scan, stop, map_copy, scan_number, scan_word, scan_atom,
  scan_string, Lexed, out_of_fuel, fault, token, close_quote, unbounded, lex_string, lex_operator,
  lex_token, lnext_with,
}

pub length-skip : (b : Bool) (cs : Bytes) (p : Pos) → length (skip b cs p).rest ≤ length cs
unfolding skip
length-skip b [] p = omega arith
length-skip b (c ∷ cs) p = ground (arith, length-skip (b || c == b'#') cs (advance c p))

length-scan_number : (cs : Bytes) (p : Pos) → length (scan_number cs p).after.rest ≤ length cs
unfolding scan_number
length-scan_number [] p = omega arith
length-scan_number (c ∷ cs) p = ground (arith, length-scan_number cs (advance c p))

length-scan_word : (cs : Bytes) (p : Pos) → length (scan_word cs p).after.rest ≤ length cs
unfolding scan_word
length-scan_word [] p = omega arith
length-scan_word (c ∷ cs) p = ground (arith, length-scan_word cs (advance c p))

length-scan_atom : (cs : Bytes) (p : Pos) → length (scan_atom cs p).after.rest ≤ length cs
unfolding scan_atom
length-scan_atom [] p = omega arith
length-scan_atom (c ∷ cs) p = ground (arith, length-scan_atom cs (advance c p))

pub Within : ℕ → Option Scan → Type 0
Within n none = Unit
Within n (some s) = length s.after.rest ≤ n

map_copy-Within : (n c : ℕ) (s : Option Scan) → Within n s → Within (suc n) (map_copy c s)
unfolding Within
map_copy-Within n c none h = tt
map_copy-Within n c (some s) h = omega (arith, h)

Within-suc : (n : ℕ) (s : Option Scan) → Within n s → Within (suc n) s
unfolding Within
Within-suc n none h = tt
Within-suc n (some s) h = omega (arith, h)

Within-stop : (cs : Bytes) (p : Pos) → Within (length cs) (some (stop cs p))
unfolding Within
Within-stop cs p = omega arith

either-Within :
    (t : Bool) (n : ℕ) (r s : Option Scan) → Within n r → Within n s → Within n (if t then r else s)
either-Within true n r s h k = h
either-Within false n r s h k = k

scan_string-Within :
    (b : Bool) (i : ℕ) (cs : Bytes) (p : Pos) → Within (length cs) (scan_string b i cs p)
unfolding scan_string
scan_string-Within true i [] p = unfold Within in tt
scan_string-Within false i [] p = Within-stop [] p
scan_string-Within true i (c ∷ cs) p = map_copy-Within _ _ _ (scan_string-Within _ _ cs _)
scan_string-Within false i (c ∷ cs) p =
    let rest = scan_string-Within (c == b'\\') (if c == b'\\' then i else i + 1) cs (advance c p) in
    either-Within _ _ _ _ (Within-stop (c ∷ cs) p)
      (either-Within _ _ _ _ (Within-suc _ _ rest) (map_copy-Within _ _ _ rest))

-- After a token what is left is shorter, but at the end of the input.
unfoldable pub Ends : ℕ → Lexed → Type 0
Ends n out_of_fuel = ⊥
Ends n fault = Unit
Ends n (token t l) = (t.type ≡ tok_eof) ⊎ (length l.rest < n)

length-ladv : (l : Lex) → length (ladv l).rest ≤ length l.rest
unfolding ladv
length-ladv l = elim l.rest as (λ r. length (ladv (record l { rest = r })).rest ≤ length r) [
  | [] ↦ omega arith
  | c ∷ cs ↦ omega arith
]

length-close_quote : (q : ℕ) (l : Lex) → length (close_quote q l).rest ≤ length l.rest
unfolding close_quote
length-close_quote q l = elim (Bool-cases (peek l.rest == q)) [
  | inl e ↦ rw (e, close_quote) (length-ladv l)
  | inr e ↦ rw (e, close_quote) (omega arith)
]

unbounded-Ends :
    (type : TokType) (p : Pos) (s : Scan) (after : Lex) (n : ℕ)
    → length after.rest < n
    → Ends n (unbounded type p s after)
unfolding unbounded Ends
unbounded-Ends type p s after n h = elim (Bool-cases (ltb (length s.text) 2048)) [
  | inl e ↦ rw e (inr h)
  | inr e ↦ rw e tt
]

lex_string-Ends : (p : Pos) (s : Option Scan) (n : ℕ) → Within n s → Ends (suc n) (lex_string p s)
unfolding lex_string Within Ends
lex_string-Ends p none n h = tt
lex_string-Ends p (some s) n h = inr (omega (arith, h, length-close_quote b'"' s.after))

token-Ends : (t : Token) (l : Lex) (n : ℕ) → length l.rest < n → Ends n (token t l)
unfolding Ends
token-Ends t l n h = inr h

either-Ends :
    (t : Bool) (n : ℕ) (r s : Lexed)
    → (t ≡ true → Ends n r)
    → Ends n s
    → Ends n (if t then r else s)
either-Ends true n r s h k = h refl
either-Ends false n r s h k = k

lex_operator-Ends : (c : ℕ) (cs : Bytes) (p : Pos) → Ends (suc (length cs)) (lex_operator c cs p)
unfolding lex_operator
lex_operator-Ends c cs p = elim (Option-cases (two_char_in two_chars c (peek cs))) [
  | inl e ↦
      let one : length cs < suc (length cs) = omega arith in
      rw (e, lex_operator)
        (either-Ends (c == b'%' && peek cs == b'{') _
          (token (record { type = tok_percent; text = b'%' ∷ []; at = p })
            (record { rest = cs; at = advance c p }))
          _ (λ h. token-Ends _ _ _ one)
          (token-Ends (record { type = one_char_in one_chars c; text = c ∷ []; at = p })
            (record { rest = cs; at = advance c p }) _ one))
  | inr e ↦
      rw (e.1, lex_operator)
        (unfold Ends in inr (omega (arith, length-ladv (record { rest = cs; at = advance c p }))))
]

scan_number-shorter :
    (c : ℕ) (cs : Bytes) (p : Pos)
    → is_digit c ≡ true
    → length (scan_number (c ∷ cs) p).after.rest < suc (length cs)
unfolding scan_number
scan_number-shorter c cs p e = rw e (omega (arith, length-scan_number cs (advance c p)))

scan_word-shorter :
    (c : ℕ) (cs : Bytes) (p : Pos)
    → is_alpha c || c == b'_' ≡ true
    → length (scan_word (c ∷ cs) p).after.rest < suc (length cs)
unfolding scan_word is_word
scan_word-shorter c cs p e = ground (arith, e, length-scan_word cs (advance c p))

scan_atom-shorter :
    (c : ℕ) (cs : Bytes) (p : Pos)
    → length (close_quote b'\'' (scan_atom cs (advance c p)).after).rest < suc (length cs)
scan_atom-shorter c cs p = omega (
  arith,
  length-close_quote b'\'' (scan_atom cs (advance c p)).after,
  length-scan_atom cs (advance c p),
)

lex_token-Ends : (cs : Bytes) (p : Pos) → Ends (length cs) (lex_token cs p)
unfolding lex_token
lex_token-Ends [] p = unfold Ends in inl refl
lex_token-Ends (c ∷ cs) p =
    let n : ℕ = suc (length cs) in
    let words : Scan = scan_word (c ∷ cs) p in
    let atoms : Scan = scan_atom cs (advance c p) in
    let word : Lexed = unbounded (keyword_in keywords words.text) p words words.after in
    let atom : Lexed = unbounded tok_atom p atoms (close_quote b'\'' atoms.after) in
    let text : Lexed = lex_string p (scan_string false 0 cs (advance c p)) in
    let op : Lexed = lex_operator c cs p in
    let or_op : Lexed = if is_alpha c || c == b'_' then word else op in
    let or_word : Lexed = if c == b'\'' then atom else or_op in
    either-Ends (is_digit c) n _ _
      (λ e. unbounded-Ends _ _ (scan_number (c ∷ cs) p) _ _ (scan_number-shorter c cs p e))
      (either-Ends (c == b'"') n text or_word
        (λ e. lex_string-Ends p _ _ (scan_string-Within false 0 cs (advance c p)))
        (either-Ends (c == b'\'') n atom or_op
          (λ e. unbounded-Ends tok_atom p atoms _ _ (scan_atom-shorter c cs p))
          (either-Ends (is_alpha c || c == b'_') n word op
            (λ e.
              unbounded-Ends (keyword_in keywords words.text) p words words.after _
                (scan_word-shorter c cs p e))
            (lex_operator-Ends c cs p))))

Ends-monotone : (m n : ℕ) (r : Lexed) → m ≤ n → Ends m r → Ends n r
unfolding Ends
Ends-monotone m n out_of_fuel h e = e
Ends-monotone m n fault h e = e
Ends-monotone m n (token t l) h e = ground arith

pub length-ladv_found :
    (cs : Bytes) (p : Pos)
    → (peek cs == b'\n') ≡ true
    → suc (length (ladv (record { rest = cs; at = p })).rest) ≤ length cs
unfolding peek ladv
length-ladv_found [] p e = absurd (ground (arith, e))
length-ladv_found (c ∷ cs) p e = omega arith

-- With more fuel than there are bytes left, `lnext` ends, and if it gives a token, it leaves fewer
-- bytes or the token is one of the end of the input.
pub lnext_with-Ends : (n : ℕ) (l : Lex) → length l.rest < n → Ends (length l.rest) (lnext_with n l)
unfolding lnext_with
lnext_with-Ends zero l h = absurd (omega arith)
lnext_with-Ends (suc n) l h =
    let shorter = length-skip false l.rest l.at in
    let s = skip false l.rest l.at in
    either-Ends _ _ _ _
      (λ e.
        let fewer = length-ladv_found s.rest s.at e in
        Ends-monotone _ _ _ (omega (arith, fewer, shorter))
          (lnext_with-Ends n (ladv s) (omega (arith, fewer, shorter, h))))
      (Ends-monotone _ _ _ shorter (lex_token-Ends s.rest s.at))
