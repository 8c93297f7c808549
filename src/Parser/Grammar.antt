-- ===== src/Parser/Grammar.antt =====
-- The grammar of the operators of the language, from which the parser of src/swarmrt_lang.c reads:
-- `|>` binds least, then `&&` and `||`, comparisons, a range, sums, products, and operands. Operators
-- of one level associate to the left, and ranges do not chain.
use swarmrt.Base.{
  ℕ, zero, suc, ◌+◌, ◌<◌, ◌≡◌, sym, ap, ◌∙◌, List, [], ◌∷◌, ◌++◌, Bool, true, false, ◌||◌,
  append-nil, append_assoc, arith, length, length-append, Bytes,
}
use swarmrt.Tokens.{TokType, Token}
use swarmrt.Syntax.{Node}
use swarmrt.Parser.{Par, Parse, pure, ◌>>=◌, cur, first, par_adv, branch, on_tok}
use swarmrt.Parser.Levels.{chain}

-- A syntactic category: which nodes which tokens stand for.
abbrev pub Category : Type 1
Category = Node → List Token → Type 0

-- What may follow a first operand on a level: operators of the level with further operands.
pub data Tail (ops : TokType → Bool) (make : Bytes → Node → Node → Node) (Sub : Category)
    : Node → Node → List Token → Type 0 where
  ends : {n : Node} → Tail ops make Sub n n []
  goes_on :
      {left right n : Node} {us vs : List Token}
      → (op : Token) → ops op.type ≡ true
      → Sub right us
      → Tail ops make Sub (make op.text left right) n vs
      → Tail ops make Sub left n (op ∷ (us ++ vs))

-- Operands of a category with the operators of a level between them.
pub record Level (ops : TokType → Bool) (make : Bytes → Node → Node → Node) (Sub : Category)
    (n : Node) (ts : List Token) : Type 0 where
  pub left : Node
  pub head : List Token
  pub tail : List Token
  pub first_operand : Sub left head
  pub others : Tail ops make Sub left n tail
  pub whole : ts ≡ head ++ tail

-- An operand by itself.
pub alone :
    {ops : TokType → Bool} {make : Bytes → Node → Node → Node} {Sub : Category} {n : Node}
    {ts : List Token}
    → Sub n ts
    → Level ops make Sub n ts
alone {n = n} {ts = ts} d = record {
  left = n;
  head = ts;
  tail = [];
  first_operand = d;
  others = ends;
  whole = sym (append-nil ts);
}

-- A parser reads a category, given tokens that do not go on with one of these, within its fuel.
unfoldable pub Reads : Parse Node → ℕ → (TokType → Bool) → Category → Type 0
Reads parse k follow Sub =
    (n : Node) (ts rest : List Token) (err : Bool)
    → Sub n ts
    → follow (first rest).type ≡ false
    → length ts < k
    → parse (record { toks = ts ++ rest; err = err }) ≡ (n, record { toks = rest; err = err })

module _ {A : Type 0} where
  pub on_tok-no :
      (test : TokType → Bool) (f : Token → Parse A) (g : Parse A) (p : Par)
      → test (cur p).type ≡ false
      → on_tok test f g p ≡ g p
  unfolding on_tok branch
  on_tok-no test f g p e = rw e

  pub on_tok-yes :
      (test : TokType → Bool) (f : Token → Parse A) (g : Parse A) (t : Token) (ts : List Token)
      (err : Bool)
      → test t.type ≡ true
      → on_tok test f g (record { toks = t ∷ ts; err = err })
        ≡ f t (record { toks = ts; err = err })
  unfolding on_tok branch par_adv ◌>>=◌
  on_tok-yes test f g t ts err e = rw e

pub bind-then :
    {A B : Type 0} (f : Parse A) (h : A → Parse B) (p q : Par) (a : A)
    → f p ≡ (a, q)
    → (f >>= h) p ≡ h a q
unfolding ◌>>=◌
bind-then f h p q a e = ap (λ r. h r.0 r.1) e

module _ (ops follow : TokType → Bool) (make : Bytes → Node → Node → Node) (Sub : Category)
    (sub : Parse Node) (k : ℕ) (apart : (t : TokType) → ops t ≡ true → follow t ≡ false)
    (reads : Reads sub k follow Sub) where
  follow-Tail :
      {left n : Node} (ts rest : List Token)
      → Tail ops make Sub left n ts
      → follow (first rest).type ≡ false
      → follow (first (ts ++ rest)).type ≡ false
  follow-Tail ts rest ends free = free
  follow-Tail ts rest (goes_on op is_op operand others) free = apart op.type is_op

  chain-Tail :
      (i : ℕ) {left n : Node} (ts rest : List Token) (err : Bool)
      → Tail ops make Sub left n ts
      → follow (first rest).type ≡ false
      → ops (first rest).type ≡ false
      → length ts < i
      → length ts < k
      → chain ops make sub i left (record { toks = ts ++ rest; err = err })
        ≡ (n, record { toks = rest; err = err })
  unfolding chain pure Reads
  chain-Tail zero ts rest err d free stops less fuel = absurd (omega (arith, less))
  chain-Tail (suc i) {left} ts rest err ends free stops less fuel =
      on_tok-no ops (λ o. sub >>= λ r. chain ops make sub i (make o.text left r)) (pure left)
        (record { toks = rest; err = err }) stops
  chain-Tail (suc i) {left} ts rest err
        (goes_on {right = right} {us = us} {vs = vs} op is_op operand others) free stops less fuel =
      let room = length-append us vs in
      let p : Par = record { toks = us ++ (vs ++ rest); err = err } in
      let read =
        reads right us (vs ++ rest) err operand (follow-Tail vs rest others free)
          (omega (arith, fuel, room)) in
      rw append_assoc (
        on_tok-yes ops (λ o. sub >>= λ r. chain ops make sub i (make o.text left r)) (pure left) op
          (us ++ (vs ++ rest)) err is_op
        ∙ bind-then sub (λ r. chain ops make sub i (make op.text left r)) p
            (record { toks = vs ++ rest; err = err }) right read
        ∙ chain-Tail i vs rest err others free stops (omega (arith, less, room))
            (omega (arith, fuel, room)))

  -- A level is read by the loop over its operators.
  pub level-Reads :
      Reads (sub >>= chain ops make sub k) k (λ t. follow t || ops t) (Level ops make Sub)
  unfolding Reads
  level-Reads n ts rest err d free less =
      let (no_more, stops) = neither (follow (first rest).type) (ops (first rest).type) free in
      let room = length-append d.head d.tail in
      let small : length d.head + length d.tail < k =
        omega (arith, less, room, ap length d.whole) in
      let p : Par = record { toks = d.head ++ (d.tail ++ rest); err = err } in
      rw (d.whole, append_assoc)
        (bind-then sub (chain ops make sub k) p (record { toks = d.tail ++ rest; err = err }) d.left
            (reads d.left d.head (d.tail ++ rest) err d.first_operand
              (follow-Tail d.tail rest d.others no_more) (omega (arith, small)))
          ∙ chain-Tail k d.tail rest err d.others no_more stops (omega (arith, small))
              (omega (arith, small)))
    where
      neither : (a b : Bool) → (a || b) ≡ false → (a ≡ false) × (b ≡ false)
      neither a b e = ground arith
