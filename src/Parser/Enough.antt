-- ===== src/Parser/Enough.antt =====
-- What fuel is enough for the parser of src/swarmrt_lang.c.
use swarmrt.Base.{
  ℕ, zero, suc, ◌+◌, ◌-◌, ◌≤◌, ◌≡◌, refl, ap, ◌∙◌, List, [], ◌∷◌, Bool, true, false, arith, length,
}
use swarmrt.Tokens.{TokType, tok_eof, Token}
use swarmrt.Parser.{
  Par, Parse, pure, ◌>>=◌, ◌>>◌, is, cur, first, rest, par_adv, fail, branch, on_tok, par_expect,
  par_match,
}

-- Two parsers do the same on every state of at most `k` tokens, and take at least `d` of them, or all
-- that there are.
pub record Agree {A : Type 0} (d k : ℕ) (f g : Parse A) : Type 0 where
  pub same : (p : Par) → length p.toks ≤ k → f p ≡ g p
  pub takes : (p : Par) → length p.toks ≤ k → length (f p).1.toks ≤ length p.toks - d

module _ {A : Type 0} where
  pub pure-Agree : (k : ℕ) (a : A) → Agree 0 k (pure a) (pure a)
  unfolding pure
  pure-Agree k a = record { same = λ p small. refl; takes = λ p small. omega arith }

  pub weaken-Agree : (d e k : ℕ) (f g : Parse A) → d ≤ e → Agree e k f g → Agree d k f g
  weaken-Agree d e k f g less v = record {
    same = v.same;
    takes = λ p small. omega (arith, less, v.takes p small);
  }

  pub fewer-Agree : (d k l : ℕ) (f g : Parse A) → l ≤ k → Agree d k f g → Agree d l f g
  fewer-Agree d k l f g less v = record {
    same = λ p small. v.same p (omega (arith, less, small));
    takes = λ p small. v.takes p (omega (arith, less, small));
  }

  pub branch-Agree :
      (d k : ℕ) (test : Par → Bool) (f f' g g' : Parse A)
      → Agree d k f f'
      → Agree d k g g'
      → Agree d k (branch test f g) (branch test f' g')
  unfolding branch
  branch-Agree d k test f f' g g' a b = record {
    same = λ p small. ground (arith, a.same p small, b.same p small);
    takes = λ p small. ground (arith, a.takes p small, b.takes p small);
  }

pub bind-Agree :
    {A B : Type 0} (d e k : ℕ) (f f' : Parse A) (h h' : A → Parse B)
    → Agree d k f f'
    → ((a : A) → Agree e (k - d) (h a) (h' a))
    → Agree (d + e) k (f >>= h) (f' >>= h')
unfolding ◌>>=◌
bind-Agree d e k f f' h h' v w = record {
  same = λ p small.
      let less : length (f p).1.toks ≤ k - d = omega (arith, small, v.takes p small) in
      (w (f p).0).same (f p).1 less ∙ ap (λ r. h' r.0 r.1) (v.same p small);
  takes = λ p small.
      let less : length (f p).1.toks ≤ k - d = omega (arith, small, v.takes p small) in
      omega (arith, v.takes p small, (w (f p).0).takes (f p).1 less);
}

pub adv-Agree : (k : ℕ) → Agree 1 k par_adv par_adv
unfolding par_adv
adv-Agree k = record { same = λ p small. refl; takes = λ p small. length-rest p.toks }
  where
    length-rest : (ts : List Token) → length (rest ts) ≤ length ts - 1
    length-rest [] = omega arith
    length-rest (t ∷ ts) = omega arith

pub fail-Agree : (k : ℕ) → Agree 0 k fail fail
unfolding fail
fail-Agree k = record { same = λ p small. refl; takes = λ p small. omega arith }

-- A step over a token that is not the end.
pub on_tok-Agree :
    {A : Type 0} (k : ℕ) (test : TokType → Bool) (f f' : Token → Parse A) (g g' : Parse A)
    → ((t : Token) → Agree 0 (k - 1) (f t) (f' t))
    → Agree 0 k g g'
    → Agree 0 k (on_tok test f g) (on_tok test f' g')
unfolding on_tok
on_tok-Agree k test f f' g g' v w =
    branch-Agree 0 k (λ p. test (cur p).type) (par_adv >>= f) (par_adv >>= f') g g'
      (weaken-Agree 0 1 k (par_adv >>= f) (par_adv >>= f') (omega arith)
        (bind-Agree 1 0 k par_adv par_adv f f' (adv-Agree k) v))
      w

pub expect-Agree : (k : ℕ) (t : TokType) → Agree 0 k (par_expect t) (par_expect t)
unfolding par_expect
expect-Agree k t =
    on_tok-Agree k (is t) pure pure fail fail (λ u. pure-Agree (k - 1) u) (fail-Agree k)

pub no_tokens : (ts : List Token) → length ts ≤ 0 → (first ts).type ≡ tok_eof
no_tokens [] small = refl
no_tokens (t ∷ ts) small = absurd (omega (arith, small))

module _ {A : Type 0} where
  -- A round of a loop that ends when there are no tokens left.
  pub round-Agree :
      (k : ℕ) (test : Par → Bool) (f f' g g' : Parse A)
      → ((p : Par) → length p.toks ≤ 0 → test p ≡ true)
      → Agree 0 k f f'
      → ((j : ℕ) → k ≡ suc j → Agree 0 k g g')
      → Agree 0 k (branch test f g) (branch test f' g')
  unfolding branch
  round-Agree zero test f f' g g' ends v w = record {
    same = λ p small. rw (ends p small) (v.same p small);
    takes = λ p small. rw (ends p small) (v.takes p small);
  }
  round-Agree (suc j) test f f' g g' ends v w = branch-Agree 0 (suc j) test f f' g g' v (w j refl)

  on_tok-none :
      (test : TokType → Bool) (f : Token → Parse A) (g : Parse A) (p : Par)
      → test tok_eof ≡ false
      → length p.toks ≤ 0
      → on_tok test f g p ≡ g p
  unfolding on_tok branch
  on_tok-none test f g p ends small =
      let e : test (cur p).type ≡ false = ap test (no_tokens p.toks small) ∙ ends in rw e

  -- A round of a loop that begins with a token of some kind.
  pub turn-Agree :
      (k : ℕ) (test : TokType → Bool) (f f' : Token → Parse A) (g g' : Parse A)
      → test tok_eof ≡ false
      → ((j : ℕ) → k ≡ suc j → (t : Token) → Agree 0 j (f t) (f' t))
      → Agree 0 k g g'
      → Agree 0 k (on_tok test f g) (on_tok test f' g')
  turn-Agree zero test f f' g g' ends v w = record {
    same = λ p small.
        rw (on_tok-none test f g p ends small, on_tok-none test f' g' p ends small)
          (w.same p small);
    takes = λ p small. rw (on_tok-none test f g p ends small) (w.takes p small);
  }
  turn-Agree (suc j) test f f' g g' ends v w =
      on_tok-Agree (suc j) test f f' g g'
        (λ t. fewer-Agree 0 j (suc j - 1) (f t) (f' t) (omega arith) (v j refl t)) w

-- Agreement on all states of at most `k` tokens and fewer.
pub record Stable {A : Type 0} (d k : ℕ) (f f' : Parse A) : Type 0 where
  pub within : (j : ℕ) → j ≤ k → Agree d j f f'

module _ {A : Type 0} {k : ℕ} where
  pub pure-Stable : (a : A) → Stable 0 k (pure a) (pure a)
  pure-Stable a = record { within = λ j small. pure-Agree j a }

  pub loosely : {f f' : Parse A} → Stable 1 k f f' → Stable 0 k f f'
  loosely {f} {f'} v = record {
    within = λ j small. weaken-Agree 0 1 j f f' (omega arith) (v.within j small);
  }

  pub branch-Stable :
      {d : ℕ} (test : Par → Bool) {f f' g g' : Parse A}
      → Stable d k f f'
      → Stable d k g g'
      → Stable d k (branch test f g) (branch test f' g')
  branch-Stable {d} test {f} {f'} {g} {g'} v w = record {
    within = λ j small. branch-Agree d j test f f' g g' (v.within j small) (w.within j small);
  }

  pub on_tok-Stable :
      (test : TokType → Bool) {f f' : Token → Parse A} {g g' : Parse A}
      → ((t : Token) → Stable 0 k (f t) (f' t))
      → Stable 0 k g g'
      → Stable 0 k (on_tok test f g) (on_tok test f' g')
  on_tok-Stable test {f} {f'} {g} {g'} v w = record {
    within = λ j small.
        on_tok-Agree j test f f' g g' (λ t. (v t).within (j - 1) (omega (arith, small)))
          (w.within j small);
  }

pub match-Stable :
    {A : Type 0} {k : ℕ} (t : TokType) {f f' g g' : Parse A}
    → Stable 0 k f f'
    → Stable 0 k g g'
    → Stable 0 k (par_match t f g) (par_match t f' g')
unfolding par_match
match-Stable t v w = on_tok-Stable (is t) (λ u. v) w

module _ {A B : Type 0} {k : ℕ} {f f' : Parse A} {h h' : A → Parse B} where
  -- One parser after another.
  pub after :
      Stable 0 k f f' → ((a : A) → Stable 0 k (h a) (h' a)) → Stable 0 k (f >>= h) (f' >>= h')
  after v w = record {
    within = λ j small.
        bind-Agree 0 0 j f f' h h' (v.within j small)
          (λ a. (w a).within (j - 0) (omega (arith, small)));
  }

  -- One parser after another that takes a token.
  pub after_some :
      Stable 1 k f f' → ((a : A) → Stable 0 k (h a) (h' a)) → Stable 1 k (f >>= h) (f' >>= h')
  after_some v w = record {
    within = λ j small.
        bind-Agree 1 0 j f f' h h' (v.within j small)
          (λ a. (w a).within (j - 1) (omega (arith, small)));
  }

module _ {A B : Type 0} {k : ℕ} {f f' : Parse A} {g g' : Parse B} where
  pub next : Stable 0 k f f' → Stable 0 k g g' → Stable 0 k (f >> g) (f' >> g')
  unfolding ◌>>◌
  next v w = after v (λ a. w)

module _ {A B : Type 0} {k : ℕ} {f f' : Parse A} {g g' : Parse B} where
  pub next_some : Stable 1 k f f' → Stable 0 k g g' → Stable 1 k (f >> g) (f' >> g')
  unfolding ◌>>◌
  next_some v w = after_some v (λ a. w)

pub expect-Stable : {k : ℕ} (t : TokType) → Stable 0 k (par_expect t) (par_expect t)
expect-Stable {k} t = record { within = λ j small. expect-Agree j t }

pub fail-Stable : {k : ℕ} → Stable 0 k fail fail
fail-Stable {k} = record { within = λ j small. fail-Agree j }
