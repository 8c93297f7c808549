-- ===== src/Parser/Loops.antt =====
-- How much fuel is enough for a loop of the parser of src/swarmrt_lang.c.
use swarmrt.Base.{
  ℕ, zero, suc, ◌-◌, ◌≤◌, ◌<◌, ◌≡◌, sym, ap, ◌∙◌, Bool, true, false, not, arith, length,
}
use swarmrt.Tokens.{TokType, tok_eof, Token}
use swarmrt.Parser.{Par, Parse, ◌>>=◌, is, branch, on_tok, par_match}
use swarmrt.Parser.Enough.{
  Agree, weaken-Agree, bind-Agree, round-Agree, turn-Agree, Stable, match-Stable,
}

-- Agreement on all states of fewer than `k` tokens.
pub record Below {A : Type 0} (k : ℕ) (f f' : Parse A) : Type 0 where
  pub under : (i : ℕ) → suc i ≤ k → Agree 0 i f f'

module _ {A : Type 0} {k : ℕ} where
  pub smaller : {d l : ℕ} {f f' : Parse A} → l ≤ k → Stable d k f f' → Stable d l f f'
  smaller less v = record { within = λ j small. v.within j (omega (arith, less, small)) }

  pub below : {f f' : Parse A} → Stable 0 k f f' → Below k f f'
  below v = record { under = λ i less. v.within i (omega (arith, less)) }

  -- A round that begins with a token.
  pub turn :
      (test : TokType → Bool) {f f' : Token → Parse A} {g g' : Parse A}
      → test tok_eof ≡ false
      → ((t : Token) → Below k (f t) (f' t))
      → Stable 0 k g g'
      → Stable 0 k (on_tok test f g) (on_tok test f' g')
  turn test {f} {f'} {g} {g'} ends v w = record {
    within = λ j small.
        turn-Agree j test f f' g g' ends (λ i e t. (v t).under i (omega (arith, e, small)))
          (w.within j small);
  }

  pub turn_match :
      (t : TokType) {f f' g g' : Parse A}
      → is t tok_eof ≡ false
      → Below k f f'
      → Stable 0 k g g'
      → Stable 0 k (par_match t f g) (par_match t f' g')
  unfolding par_match
  turn_match t ends v w = turn (is t) ends (λ u. v) w

pub Below-match :
    {A : Type 0} {k : ℕ} (t : TokType) {f f' g g' : Parse A}
    → Below k f f'
    → Below k g g'
    → Below k (par_match t f g) (par_match t f' g')
Below-match t v w = record {
  under = λ i less.
      (match-Stable {k = i} t
          (record { within = λ j small. v.under j (omega (arith, less, small)) })
          (record { within = λ j small. w.under j (omega (arith, less, small)) })).within
        i (omega arith);
}

module _ {A B : Type 0} {k : ℕ} where
  pub Below-after :
      {f f' : Parse A} {h h' : A → Parse B}
      → Stable 0 k f f'
      → ((a : A) → Below k (h a) (h' a))
      → Below k (f >>= h) (f' >>= h')
  Below-after {f} {f'} {h} {h'} v w = record {
    under = λ i less.
        bind-Agree 0 0 i f f' h h' (v.within i (omega (arith, less)))
          (λ a. (w a).under (i - 0) (omega (arith, less)));
  }

  pub Below-first :
      {f f' : Parse A} {h h' : A → Parse B}
      → Below k f f'
      → ((a : A) → Stable 0 k (h a) (h' a))
      → Below k (f >>= h) (f' >>= h')
  Below-first {f} {f'} {h} {h'} v w = record {
    under = λ i less.
        bind-Agree 0 0 i f f' h h' (v.under i less)
          (λ a. (w a).within (i - 0) (omega (arith, less)));
  }

  -- A round that ends when there are no tokens left, and otherwise begins with a parser that takes one.
  pub rounds :
      (test : Par → Bool) {f f' : Parse A} {h h' : A → Parse B} {g g' : Parse B}
      → ((p : Par) → length p.toks ≤ 0 → test p ≡ true)
      → Stable 0 k g g'
      → Stable 1 k f f'
      → ((a : A) → Below k (h a) (h' a))
      → Stable 0 k (branch test g (f >>= h)) (branch test g' (f' >>= h'))
  rounds test {f} {f'} {h} {h'} {g} {g'} ends v w x = record {
    within = λ j small.
        round-Agree j test g g' (f >>= h) (f' >>= h') ends (v.within j small) (λ i e.
          weaken-Agree 0 1 j (f >>= h) (f' >>= h') (omega arith) (
            bind-Agree 1 0 j f f' h h' (w.within j small)
              (λ a. (x a).under (j - 1) (omega (arith, e, small)))));
  }

-- Parsers that are the same on each state.
pub pointwise :
    {A : Type 0} {k : ℕ} {f f' g g' : Parse A}
    → ((p : Par) → f p ≡ g p)
    → ((p : Par) → f' p ≡ g' p)
    → Stable 0 k g g'
    → Stable 0 k f f'
pointwise e e' v = record {
  within = λ j small. record {
    same = λ p few. e p ∙ (v.within j small).same p few ∙ sym (e' p);
    takes = λ p few. rw e ((v.within j small).takes p few);
  };
}

module _ {A B : Type 0} {k : ℕ} where
  -- A round that does not begin when there are no tokens left, and begins with a parser that takes one.
  pub rounds_while :
      (test : Par → Bool) {f f' : Parse A} {h h' : A → Parse B} {g g' : Parse B}
      → ((p : Par) → length p.toks ≤ 0 → test p ≡ false)
      → Stable 0 k g g'
      → Stable 1 k f f'
      → ((a : A) → Below k (h a) (h' a))
      → Stable 0 k (branch test (f >>= h) g) (branch test (f' >>= h') g')
  unfolding branch
  rounds_while test {f} {f'} {h} {h'} {g} {g'} ends v w x =
      let turned = rounds (λ p. not (test p)) (λ p small. ap not (ends p small)) v w x in
      record {
        within = λ j small. record {
          same = λ p few. ground (arith, (turned.within j small).same p few);
          takes = λ p few. ground (arith, (turned.within j small).takes p few);
        };
      }

-- A loop whose round does the same with more fuel, if the rounds that follow on fewer tokens do.
pub loop :
    {A : Type 0} (K : ℕ) (F F' : ℕ → Parse A)
    → ((a b k : ℕ) → k ≤ K → Below k (F a) (F' b) → Stable 0 k (F (suc a)) (F' (suc b)))
    → (a b : ℕ) → K < a
    → K < b
    → Stable 0 K (F a) (F' b)
loop K F F' body a b la lb = from a b K la lb (omega arith)
  where
    from : (a b k : ℕ) → k < a → k < b → k ≤ K → Stable 0 k (F a) (F' b)
    from zero b k la lb less = absurd (omega (arith, la))
    from (suc a) zero k la lb less = absurd (omega (arith, lb))
    from (suc a) (suc b) k la lb less = body a b k less (record {
      under = λ i small.
          (from a b i (omega (arith, la, small)) (omega (arith, lb, small))
              (omega (arith, less, small))).within
            i (omega arith);
    })
