-- ===== src/Parser/Fuel.antt =====
-- The parser of src/swarmrt_lang.c with more fuel than there are tokens.
use swarmrt.Base.{
  ℕ, zero, suc, ◌-◌, ◌≤◌, ◌<◌, ◌≡◌, refl, ap, List, [], ◌∷◌, Option, arith, length, Bytes,
}
use swarmrt.Tokens.{Token}
use swarmrt.Syntax.{Node}
use swarmrt.Parser.{Par, ◌>>◌}
use swarmrt.Parser.Levels.{par_expr}
use swarmrt.Parser.Primary.{par_primary}
use swarmrt.Parser.Enough.{Stable}
use swarmrt.Parser.Same.{par_expr-Stable}
use swarmrt.Parser.Modules.{par_module}
use swarmrt.Parser.Same.Modules.{par_module-Stable}
use swarmrt.Parser.Same.Primary.{unknown-Stable, primary_at-Stable}

module _ (interp : Bytes → Option Node) where
  primary-Agree :
      (a b k : ℕ) (p : Par) (ts : List Token)
      → k < a
      → k < b
      → p.toks ≡ ts
      → length ts ≤ k
      → (par_primary interp a p ≡ par_primary interp b p)
        × (length (par_primary interp a p).1.toks ≤ length ts - 1)
  unfolding par_primary ◌>>◌
  primary-Agree zero b k p ts la lb e small = absurd (omega (arith, la))
  primary-Agree (suc a) zero k p ts la lb e small = absurd (omega (arith, lb))
  primary-Agree (suc a) (suc b) k p [] la lb e small =
      let none : length p.toks ≤ 0 = omega (arith, ap length e) in
      let left = ((unknown-Stable 0).within 0 (omega arith)).takes p none in
      rw e (refl, omega (arith, left, none))
  primary-Agree (suc a) (suc b) k p (t ∷ ts) la lb e small =
      let self : Stable 1 (k - 1) (par_primary interp a) (par_primary interp b) = record {
        within = λ j less. record {
          same = λ q few.
              (primary-Agree a b j q q.toks (omega (arith, la, less, small))
                (omega (arith, lb, less, small)) refl few).0;
          takes = λ q few.
              (primary-Agree a b j q q.toks (omega (arith, la, less, small))
                (omega (arith, lb, less, small)) refl few).1;
        };
      } in
      let at =
        (primary_at-Stable (k - 1) (par_primary interp a) (par_primary interp b) a b self
            (omega (arith, la, small)) (omega (arith, lb, small)) interp t.type t).within
          (k - 1) (omega arith) in
      let q : Par = record p { toks = ts } in
      rw e (at.same q (omega (arith, small)), omega (arith, at.takes q (omega (arith, small))))

  pub primary-Stable :
      (a b k : ℕ) → k < a → k < b → Stable 1 k (par_primary interp a) (par_primary interp b)
  primary-Stable a b k la lb = record {
    within = λ j less. record {
      same = λ p few.
          (primary-Agree a b j p p.toks (omega (arith, la, less)) (omega (arith, lb, less)) refl
            few).0;
      takes = λ p few.
          (primary-Agree a b j p p.toks (omega (arith, la, less)) (omega (arith, lb, less)) refl
            few).1;
    };
  }

  -- A parse of an expression or of a module with fuel for more tokens than there are does the same as
  -- one with any more fuel, so that no loop or call has run out; and the parse of an expression takes
  -- a token, if there is one.
  pub parse-fuel :
      (a b : ℕ) (p : Par)
      → length p.toks < a
      → length p.toks < b
      → (par_expr (par_primary interp a) a p ≡ par_expr (par_primary interp b) b p)
        × (par_module (par_primary interp a) a p ≡ par_module (par_primary interp b) b p)
        × (length (par_expr (par_primary interp a) a p).1.toks ≤ length p.toks - 1)
  parse-fuel a b p la lb =
      let k = length p.toks in
      let self = primary-Stable a b k la lb in
      let v =
        (par_expr-Stable k (par_primary interp a) (par_primary interp b) a b self la lb).within k
          (omega arith) in
      let w =
        (par_module-Stable k (par_primary interp a) (par_primary interp b) a b self la lb).within k
          (omega arith) in
      (v.same p (omega arith), w.same p (omega arith), v.takes p (omega arith))
