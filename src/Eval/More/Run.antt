-- ===== src/Eval/More/Run.antt =====
-- The fuel of the evaluator of src/swarmrt_lang.c.
use swarmrt.Base.{ℕ, zero, suc, ◌+◌, ◌≡◌, ◌⊎◌, refl, sym, true, false, inl, inr, arith}
use swarmrt.Syntax.{Node, Nodes}
use swarmrt.Values.{Value, nil_val}
use swarmrt.Eval.{World, Outcome, no_fuel, pure, fail_fuel}
use swarmrt.Eval.Operators.{Host}
use swarmrt.Eval.Run.{eval}
use swarmrt.Eval.Safe.{Ready, Ends}
use swarmrt.Eval.Safe.Run.{Bounded, eval-Bounded}
use swarmrt.Eval.More.{More, same-More, look-More, branch-More}
use swarmrt.Eval.More.Forms.{eval_node-More}

-- With any more fuel the evaluation of a node does the same, unless it has run out of fuel.
pub eval-More :
    (h : Host) (funs : Nodes) (k j : ℕ) (n : Node) (e : ℕ)
    → More (eval h funs k n e) (eval h funs (k + j) n e)
unfolding eval fail_fuel
eval-More h funs zero j n e = record { same = λ w. inl refl }
eval-More h funs (suc k) j n e =
    let step : suc k + j ≡ suc (k + j) = omega arith in
    rw step (
      look-More _ _ (λ w. branch-More w.error _ _ _ _ (same-More (pure nil_val)) (
        eval_node-More h (eval h funs k) (eval h funs (k + j)) funs
          (λ m d. eval-More h funs k j m d) n e)))

same_outcome :
    (i : ℕ) (w : World) (o o' : Outcome Value)
    → Ends false i w o
    → (o ≡ no_fuel) ⊎ (o ≡ o')
    → o' ≡ o
unfolding Ends
same_outcome i w o o' h (inl e) = let never : false ≡ true = rw e at h in cc
same_outcome i w o o' h (inr e) = sym e

-- Where the nodes that a node evaluates, in the functions that it calls too, are nested no deeper
-- than the fuel, and make no closures, the evaluation of the node does the same with any more fuel,
-- does not run out of fuel and uses no freed environment, and where it ends with a value the
-- environments that there were are as live as they were, with the variables that they had but for
-- those of the node's own environment; this holds in every state without closures, in which the
-- environment, its parents and the global one are open.
pub eval-enough :
    (h : Host) (funs : Nodes) (k j : ℕ) (n : Node) (e : ℕ) (w : World)
    → Bounded funs k n
    → Ready w e
    → (eval h funs (k + j) n e w ≡ eval h funs k n e w) × Ends false e w (eval h funs k n e w)
eval-enough h funs k j n e w p r =
    let ended = eval-Bounded h funs k n e w p r in
    (same_outcome e w _ _ ended ((eval-More h funs k j n e).same w), ended)
