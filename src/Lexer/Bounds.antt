-- ===== src/Lexer/Bounds.antt =====
-- The accesses of the lexer to the source and to the text of a token.
use swarmrt.Base.{
  ℕ, zero, suc, ◌+◌, ◌≤◌, ◌<◌, ◌≡◌, refl, ◌≢◌, ◌⊎◌, inl, inr, [], ◌∷◌, Bool, true, false, ◌&&◌,
  ◌||◌, Option, none, some, if◌then◌else◌, ◌==◌, ltb, arith, length, Bool-cases, Option-cases,
  ==_iff, Bytes,
}
use mathlib.Core.Bool.{false≢true}
use swarmrt.Tokens.{
  TokType, tok_eof, tok_atom, Pos, Token, is_digit, is_alpha, keyword_in, keywords, two_char_in,
  two_chars,
}
use swarmrt.Lexer.{
  Lex, peek, advance, ladv, skip, Scan, stop, map_copy, scan_number, scan_word, scan_atom,
  scan_string, Lexed, out_of_fuel, fault, token, close_quote, unbounded, lex_string, lex_operator,
  lex_token, lnext_with, lnext,
}
use swarmrt.Lexer.Ends.{Ends, lnext_with-Ends, length-skip, length-ladv_found}

-- The last byte, with what it is of no bytes.
unfoldable pub last_or : ℕ → Bytes → ℕ
last_or x [] = x
last_or x (c ∷ cs) = last_or c cs

length-scan_number :
    (cs : Bytes) (p : Pos)
    → length (scan_number cs p).text + length (scan_number cs p).after.rest ≡ length cs
unfolding scan_number
length-scan_number [] p = refl
length-scan_number (c ∷ cs) p = ground (arith, length-scan_number cs (advance c p))

length-scan_word :
    (cs : Bytes) (p : Pos)
    → length (scan_word cs p).text + length (scan_word cs p).after.rest ≡ length cs
unfolding scan_word
length-scan_word [] p = refl
length-scan_word (c ∷ cs) p = ground (arith, length-scan_word cs (advance c p))

length-scan_atom :
    (cs : Bytes) (p : Pos)
    → length (scan_atom cs p).text + length (scan_atom cs p).after.rest ≡ length cs
unfolding scan_atom
length-scan_atom [] p = refl
length-scan_atom (c ∷ cs) p = ground (arith, length-scan_atom cs (advance c p))

pub Found : Option Scan → Type 0
Found none = ⊥
Found (some s) = Unit

map_copy-Found : (c : ℕ) (s : Option Scan) → Found s → Found (map_copy c s)
unfolding Found
map_copy-Found c none h = h
map_copy-Found c (some s) h = tt

either-Found : (t : Bool) (r s : Option Scan) → Found r → Found s → Found (if t then r else s)
either-Found true r s h k = h
either-Found false r s h k = k

stop-Found : (cs : Bytes) (p : Pos) → Found (some (stop cs p))
unfolding Found
stop-Found cs p = tt

scan_string-Found :
    (b : Bool) (i x : ℕ) (cs : Bytes) (p : Pos)
    → (b ≡ true → x ≡ b'\\')
    → last_or x cs ≢ b'\\'
    → Found (scan_string b i cs p)
unfolding scan_string last_or
scan_string-Found true i x [] p after h = absurd (h (after refl))
scan_string-Found false i x [] p after h = unfold Found in tt
scan_string-Found true i x (c ∷ cs) p after h =
    map_copy-Found _ _ (scan_string-Found _ _ c cs _ (λ e. absurd (false≢true e)) h)
scan_string-Found false i x (c ∷ cs) p after h =
    let rest =
      scan_string-Found (c == b'\\') (if c == b'\\' then i else i + 1) c cs (advance c p)
        (λ e. (==_iff c b'\\').0 e) h in
    either-Found _ _ _ (stop-Found (c ∷ cs) p) (either-Found _ _ _ rest (map_copy-Found _ _ rest))

last_or-skip :
    (b : Bool) (x : ℕ) (cs : Bytes) (p : Pos)
    → last_or x cs ≢ b'\\'
    → last_or 0 (skip b cs p).rest ≢ b'\\'
unfolding skip last_or
last_or-skip b x [] p h = ground arith
last_or-skip b x (c ∷ cs) p h = ground (arith, last_or-skip (b || c == b'#') c cs (advance c p) h)

-- No access is outside the source or the text.
pub NoFault : Lexed → Type 0
NoFault out_of_fuel = Unit
NoFault fault = ⊥
NoFault (token t l) = Unit

either-NoFault :
    (t : Bool) (r s : Lexed) → (t ≡ true → NoFault r) → NoFault s → NoFault (if t then r else s)
either-NoFault true r s h k = h refl
either-NoFault false r s h k = k

unbounded-NoFault :
    (type : TokType) (p : Pos) (s : Scan) (after : Lex)
    → length s.text < 2048
    → NoFault (unbounded type p s after)
unfolding unbounded NoFault
unbounded-NoFault type p s after h =
    let e : ltb (length s.text) 2048 ≡ true = ground (arith, h) in rw e tt

lex_string-NoFault : (p : Pos) (s : Option Scan) → Found s → NoFault (lex_string p s)
unfolding lex_string NoFault Found
lex_string-NoFault p none h = h
lex_string-NoFault p (some s) h = tt

lex_operator-NoFault : (c : ℕ) (cs : Bytes) (p : Pos) → NoFault (lex_operator c cs p)
unfolding lex_operator
lex_operator-NoFault c cs p = elim (Option-cases (two_char_in two_chars c (peek cs))) [
  | inl e ↦
      rw (e, lex_operator)
        (elim (Bool-cases (c == b'%' && peek cs == b'{')) [
          | inl h ↦ rw h (unfold NoFault in tt)
          | inr h ↦ rw h (unfold NoFault in tt)
        ])
  | inr e ↦ rw (e.1, lex_operator) (unfold NoFault in tt)
]

lex_token-NoFault :
    (cs : Bytes) (p : Pos) → length cs < 2048 → last_or 0 cs ≢ b'\\' → NoFault (lex_token cs p)
unfolding lex_token last_or
lex_token-NoFault [] p h k = unfold NoFault in tt
lex_token-NoFault (c ∷ cs) p h k =
    let words : Scan = scan_word (c ∷ cs) p in
    let atoms : Scan = scan_atom cs (advance c p) in
    let word : Lexed = unbounded (keyword_in keywords words.text) p words words.after in
    let atom : Lexed = unbounded tok_atom p atoms (close_quote b'\'' atoms.after) in
    let text : Lexed = lex_string p (scan_string false 0 cs (advance c p)) in
    let op : Lexed = lex_operator c cs p in
    let or_op : Lexed = if is_alpha c || c == b'_' then word else op in
    let or_word : Lexed = if c == b'\'' then atom else or_op in
    either-NoFault (is_digit c) _ _
      (λ e.
        unbounded-NoFault _ _ (scan_number (c ∷ cs) p) _
          (omega (arith, length-scan_number (c ∷ cs) p, h)))
      (either-NoFault (c == b'"') text or_word
        (λ e.
          lex_string-NoFault p _
            (scan_string-Found false 0 c cs (advance c p) (λ f. absurd (false≢true f)) k))
        (either-NoFault (c == b'\'') atom or_op
          (λ e.
            unbounded-NoFault tok_atom p atoms _
              (omega (arith, length-scan_atom cs (advance c p), h)))
          (either-NoFault (is_alpha c || c == b'_') word op
            (λ e.
              unbounded-NoFault (keyword_in keywords words.text) p words words.after
                (omega (arith, length-scan_word (c ∷ cs) p, h)))
            (lex_operator-NoFault c cs p))))

last_or-ladv :
    (cs : Bytes) (p : Pos)
    → (peek cs == b'\n') ≡ true
    → last_or 0 cs ≢ b'\\'
    → last_or 0 (ladv (record { rest = cs; at = p })).rest ≢ b'\\'
unfolding peek ladv last_or
last_or-ladv [] p e h = absurd (ground (arith, e))
last_or-ladv (c ∷ []) p e h = ground arith
last_or-ladv (c ∷ d ∷ cs) p e h = h

lnext_with-NoFault :
    (n : ℕ) (l : Lex) → length l.rest < 2048 → last_or 0 l.rest ≢ b'\\' → NoFault (lnext_with n l)
unfolding lnext_with
lnext_with-NoFault zero l h k = unfold NoFault in tt
lnext_with-NoFault (suc n) l h k =
    let s = skip false l.rest l.at in
    let shorter = length-skip false l.rest l.at in
    let last = last_or-skip false 0 l.rest l.at k in
    either-NoFault _ _ _
      (λ e.
        lnext_with-NoFault n (ladv s) (omega (arith, length-ladv_found s.rest s.at e, shorter, h))
          (last_or-ladv s.rest s.at e last))
      (lex_token-NoFault s.rest s.at (omega (arith, shorter, h)) last)

settled :
    (n : ℕ) (r : Lexed)
    → Ends n r
    → NoFault r
    → (t : Token) × ((l : Lex) × (r ≡ token t l) × ((t.type ≡ tok_eof) ⊎ (length l.rest < n)))
unfolding Ends NoFault
settled n out_of_fuel h k = absurd h
settled n fault h k = absurd k
settled n (token t l) h k = (t, (l, refl, h))

-- With fewer than 2048 bytes left, the last of which is no backslash, `lnext` neither steps past the
-- final zero nor writes outside the text of its token: it gives a token, and leaves fewer bytes
-- unless it is one of the end of the input.
pub lnext-token :
    (l : Lex)
    → length l.rest < 2048
    → last_or 0 l.rest ≢ b'\\'
    → (t : Token) × ((l' : Lex) × (lnext l ≡ token t l')
        × ((t.type ≡ tok_eof) ⊎ (length l'.rest < length l.rest)))
unfolding lnext
lnext-token l h k =
    settled (length l.rest) (lnext l) (lnext_with-Ends (suc (length l.rest)) l (omega arith))
      (lnext_with-NoFault (suc (length l.rest)) l h k)

-- A token that leaves fewer bytes or is one of the end of the input; a fault, if there are so many
-- bytes that a word may outgrow the text of a token, or the last one is a backslash.
unfoldable pub Settles : Lex → Lexed → Type 0
Settles l out_of_fuel = ⊥
Settles l fault = (2048 ≤ length l.rest) ⊎ (last_or 0 l.rest ≡ b'\\')
Settles l (token t l') = (t.type ≡ tok_eof) ⊎ (length l'.rest < length l.rest)

settles :
    (l : Lex) (r : Lexed)
    → Ends (length l.rest) r
    → (length l.rest < 2048 → last_or 0 l.rest ≢ b'\\' → NoFault r)
    → Settles l r
unfolding Settles Ends NoFault
settles l out_of_fuel h k = h
settles l fault h k = elim (Bool-cases (ltb (length l.rest) 2048)) [
  | inl e ↦ elim (Bool-cases (last_or 0 l.rest == b'\\')) [
    | inl q ↦ inr ((==_iff (last_or 0 l.rest) b'\\').0 q)
    | inr q ↦ absurd (k (ground (arith, e)) (λ z. ground (arith, q, z)))
  ]
  | inr e ↦ inl (ground (arith, e))
]
settles l (token t l') h k = h

-- With more fuel than there are bytes left, `lnext` ends with a token that leaves fewer bytes or is
-- one of the end of the input, or else with a fault, a step past the final zero or a write outside
-- the text of the token; and a fault only if 2048 bytes or more are left or the last byte is a
-- backslash.
pub lnext_with-Settles : (n : ℕ) (l : Lex) → length l.rest < n → Settles l (lnext_with n l)
lnext_with-Settles n l h =
    settles l (lnext_with n l) (lnext_with-Ends n l h) (lnext_with-NoFault n l)
