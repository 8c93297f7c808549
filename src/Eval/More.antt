-- ===== src/Eval/More.antt =====
-- Steps of the evaluator of src/swarmrt_lang.c that do the same wherever they do not run out of fuel.
pub mod Forms
pub mod Run
use swarmrt.Base.{ℕ, ◌≡◌, refl, ap, ◌∙◌, ◌⊎◌, inl, inr, Bool, true, false, Option, none, some}
use swarmrt.Values.{Value}
use swarmrt.Eval.{
  World, Outcome, done, freed, overrun, no_fuel, Act, pure, go_on, ◌>>=◌, ◌>>◌, look, branch,
  or_try, env_new, in_new,
}
use swarmrt.Eval.Steps.{or_assert, take_value}

-- The second step does what the first one does, unless this runs out of fuel.
pub record More {ℓ} {A : Type ℓ} (m m' : Act A) : Type ℓ where
  pub same : (w : World) → (m w ≡ no_fuel) ⊎ (m w ≡ m' w)

pub same-More : {A : Type 0} (m : Act A) → More m m
same-More m = record { same = λ w. inr refl }

module _ {A B : Type 0} where
  go_on-More :
      (o o' : Outcome A) (k k' : A → Act B)
      → (o ≡ no_fuel) ⊎ (o ≡ o')
      → ((a : A) → More (k a) (k' a))
      → (go_on o k ≡ no_fuel) ⊎ (go_on o k ≡ go_on o' k')
  unfolding go_on
  go_on-More o o' k k' (inl e) v = inl (ap (λ q. go_on q k) e)
  go_on-More (done a w) o' k k' (inr e) v = elim ((v a).same w) [
    | inl f ↦ inl f
    | inr f ↦ inr (f ∙ ap (λ q. go_on q k') e)
  ]
  go_on-More freed o' k k' (inr e) v = inr (ap (λ q. go_on q k') e)
  go_on-More overrun o' k k' (inr e) v = inr (ap (λ q. go_on q k') e)
  go_on-More no_fuel o' k k' (inr e) v = inl refl

  pub bind-More :
      (f f' : Act A) (k k' : A → Act B)
      → More f f'
      → ((a : A) → More (k a) (k' a))
      → More (f >>= k) (f' >>= k')
  unfolding ◌>>=◌
  bind-More f f' k k' v u = record { same = λ w. go_on-More (f w) (f' w) k k' (v.same w) u }

  pub then-More : (f f' : Act A) (k k' : Act B) → More f f' → More k k' → More (f >> k) (f' >> k')
  unfolding ◌>>◌
  then-More f f' k k' v u = bind-More f f' (λ a. k) (λ a. k') v (λ a. u)

module _ {A : Type 0} where
  pub look-More :
      (f f' : World → Act A) → ((w : World) → More (f w) (f' w)) → More (look f) (look f')
  unfolding look
  look-More f f' v = record { same = λ w. (v w).same w }

  pub branch-More :
      (c : Bool) (m m' k k' : Act A) → More m m' → More k k' → More (branch c m k) (branch c m' k')
  unfolding branch
  branch-More true m m' k k' v u = v
  branch-More false m m' k k' v u = u

  pub in_new-More :
      (e : ℕ) (body body' : ℕ → Act A)
      → ((f : ℕ) → More (body f) (body' f))
      → More (in_new e body) (in_new e body')
  unfolding in_new
  in_new-More e body body' v =
      bind-More (env_new e) (env_new e) _ _ (same-More (env_new e))
        (λ f. bind-More (body f) (body' f) _ _ (v f) (λ a. same-More _))

pub or_try-More :
    (o : Option Value) (m m' : Act Value) → More m m' → More (or_try o m) (or_try o m')
unfolding or_try
or_try-More none m m' v = v
or_try-More (some u) m m' v = same-More (pure u)

pub or_assert-More :
    (o : Option Bool) (m m' : Act Value) → More m m' → More (or_assert o m) (or_assert o m')
unfolding or_assert
or_assert-More none m m' v = record { same = λ w. v.same w }
or_assert-More (some true) m m' v = record { same = λ w. inr refl }
or_assert-More (some false) m m' v = record { same = λ w. inr refl }

pub take_value-More :
    (o : Option Value) (m m' : Act Value) → More m m' → More (take_value o m) (take_value o m')
unfolding take_value
take_value-More none m m' v = v
take_value-More (some u) m m' v = same-More (pure u)

pub ruleset more = (
  same-More, bind-More, then-More, look-More, branch-More, in_new-More, or_try-More, or_assert-More,
  take_value-More,
)
