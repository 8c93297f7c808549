-- ===== src/Eval/Safe.antt =====
-- What a step of the evaluator of src/swarmrt_lang.c leaves as it was, and steps put together.
pub mod Kids
pub mod News
pub mod Steps
pub mod Forms
pub mod Run
use swarmrt.Base.{
  ℕ, ◌≤◌, ◌<◌, ◌≡◌, ◌≢◌, refl, ◌∙◌, List, [], ◌∷◌, Bool, true, false, Option, none, some, arith,
  Bytes,
}
use swarmrt.Values.{Value}
use swarmrt.Eval.{
  World, Outcome, done, freed, overrun, no_fuel, Act, pure, go_on, ◌>>=◌, ◌>>◌, look, branch,
  fail_overrun, or_try, env_set, fail_fuel, found_or, get_in, env_get,
}

-- The environments that there were are as live as before and have the same parents, all of them but
-- one have the same variables, and there are no more closures.
pub record Keeps (i : ℕ) (w w' : World) : Type 0 where
  pub room : w.next_env ≤ w'.next_env
  pub live : (e : ℕ) → e < w.next_env → w'.live e ≡ w.live e
  pub chain : (e : ℕ) → e < w.next_env → w'.chain e ≡ w.chain e
  pub frames : (e : ℕ) → e < w.next_env → e ≢ i → w'.frames e ≡ w.frames e
  pub closures : w'.closures ≡ w.closures

-- Environments that there are and that are not freed.
unfoldable pub AllOpen : World → List ℕ → Type 0
AllOpen w [] = Unit
AllOpen w (e ∷ es) = (e < w.next_env) × (w.live e ≡ true) × AllOpen w es

-- An environment that can be used with its parents, and so can the global one; there are no closures.
pub record Ready (w : World) (e : ℕ) : Type 0 where
  pub self : AllOpen w (e ∷ w.chain e)
  pub global : AllOpen w (0 ∷ w.chain 0)
  pub none : w.closures ≡ []

-- How a step may end that sets the variables of one environment: never with the use of a freed
-- environment, and for lack of fuel only if this is allowed.
unfoldable pub Ends {ℓ} : {A : Type ℓ} → Bool → ℕ → World → Outcome A → Type 0
Ends b i w (done a w') = Keeps i w w'
Ends b i w freed = ⊥
Ends b i w overrun = Unit
Ends b i w no_fuel = b ≡ true

pub record Safe {ℓ} {A : Type ℓ} (b : Bool) (e : ℕ) (m : Act A) : Type ℓ where
  pub ends : (w : World) → Ready w e → Ends b e w (m w)

pub same-Keeps : {i : ℕ} (w : World) → Keeps i w w
same-Keeps w = record {
  room = omega arith;
  live = λ e less. refl;
  chain = λ e less. refl;
  frames = λ e less other. refl;
  closures = refl;
}

pub trans-Keeps : {i : ℕ} (u v w : World) → Keeps i u v → Keeps i v w → Keeps i u w
trans-Keeps u v w k l = record {
  room = omega (arith, k.room, l.room);
  live = λ e less. l.live e (omega (arith, less, k.room)) ∙ k.live e less;
  chain = λ e less. l.chain e (omega (arith, less, k.room)) ∙ k.chain e less;
  frames = λ e less other. l.frames e (omega (arith, less, k.room)) other ∙ k.frames e less other;
  closures = l.closures ∙ k.closures;
}

pub AllOpen-Keeps :
    {i : ℕ} (w w' : World) (es : List ℕ) → Keeps i w w' → AllOpen w es → AllOpen w' es
unfolding AllOpen
AllOpen-Keeps w w' [] k h = tt
AllOpen-Keeps w w' (e ∷ es) k (less, on, rest) =
    (omega (arith, less, k.room), k.live e less ∙ on, AllOpen-Keeps w w' es k rest)

pub AllOpen-chain :
    {i : ℕ} (w w' : World) (e : ℕ)
    → Keeps i w w'
    → AllOpen w (e ∷ w.chain e)
    → AllOpen w' (e ∷ w'.chain e)
unfolding AllOpen
AllOpen-chain w w' e k h = rw (k.chain e h.0) (AllOpen-Keeps w w' (e ∷ w.chain e) k h)

pub Ready-Keeps : {i : ℕ} (w w' : World) (e : ℕ) → Keeps i w w' → Ready w e → Ready w' e
Ready-Keeps w w' e k r = record {
  self = AllOpen-chain w w' e k r.self;
  global = AllOpen-chain w w' 0 k r.global;
  none = k.closures ∙ r.none;
}

module _ {ℓ} {A : Type ℓ} (b : Bool) where
  pub trans-Ends : {i : ℕ} (u v : World) (o : Outcome A) → Keeps i u v → Ends b i v o → Ends b i u o
  unfolding Ends
  trans-Ends u v (done a w) k h = trans-Keeps u v w k h
  trans-Ends u v freed k h = h
  trans-Ends u v overrun k h = h
  trans-Ends u v no_fuel k h = h

  pub pure-Safe : (e : ℕ) (a : A) → Safe b e (pure a)
  unfolding pure Ends
  pure-Safe e a = record { ends = λ w r. same-Keeps w }

  pub overrun-Safe : (e : ℕ) → Safe b e (fail_overrun {A = A})
  unfolding fail_overrun Ends
  overrun-Safe e = record { ends = λ w r. tt }

  pub look-Safe : (e : ℕ) (f : World → Act A) → ((w : World) → Safe b e (f w)) → Safe b e (look f)
  unfolding look
  look-Safe e f v = record { ends = λ w r. (v w).ends w r }

  pub fuel-Safe : (e : ℕ) → b ≡ true → Safe b e (fail_fuel {A = A})
  unfolding fail_fuel Ends
  fuel-Safe e allowed = record { ends = λ w r. allowed }

  pub branch-Safe :
      (e : ℕ) (c : Bool) (m k : Act A) → Safe b e m → Safe b e k → Safe b e (branch c m k)
  unfolding branch
  branch-Safe e true m k v u = v
  branch-Safe e false m k v u = u

module _ {A B : Type 0} (b : Bool) (e : ℕ) where
  go_on-Ends :
      (w : World) (o : Outcome A) (k : A → Act B)
      → Ready w e
      → Ends b e w o
      → ((a : A) → Safe b e (k a))
      → Ends b e w (go_on o k)
  unfolding go_on Ends
  go_on-Ends w (done a w') k r h v =
      trans-Ends b w w' (k a w') h ((v a).ends w' (Ready-Keeps w w' e h r))
  go_on-Ends w freed k r h v = h
  go_on-Ends w overrun k r h v = h
  go_on-Ends w no_fuel k r h v = h

  pub bind-Safe :
      (f : Act A) (k : A → Act B) → Safe b e f → ((a : A) → Safe b e (k a)) → Safe b e (f >>= k)
  unfolding ◌>>=◌
  bind-Safe f k v u = record { ends = λ w r. go_on-Ends w (f w) k r (v.ends w r) u }

  pub then-Safe : (f : Act A) (k : Act B) → Safe b e f → Safe b e k → Safe b e (f >> k)
  unfolding ◌>>◌
  then-Safe f k v u = bind-Safe f (λ a. k) v (λ a. u)

-- A step that changes no environment and makes no closure.
pub done-Safe {ℓ} :
    {A : Type ℓ} (b : Bool) (e : ℕ) (f : World → A) (g : World → World)
    → ((w : World) → Keeps e w (g w))
    → Safe b e (λ w. done (f w) (g w))
unfolding Ends
done-Safe b e f g v = record { ends = λ w r. v w }

pub or_try-Safe :
    (b : Bool) (e : ℕ) (o : Option Value) (m : Act Value) → Safe b e m → Safe b e (or_try o m)
unfolding or_try
or_try-Safe b e none m v = v
or_try-Safe b e (some u) m v = pure-Safe b e u

pub env_set-Safe : (b : Bool) (e : ℕ) (n : Bytes) (v : Value) → Safe b e (env_set e n v)
unfolding env_set Ends AllOpen
env_set-Safe b e n v = record {
  ends = λ w r. rw r.self.1 (record {
    room = omega arith;
    live = λ x less. refl;
    chain = λ x less. refl;
    frames = λ x less other. ground (arith, other);
    closures = refl;
  });
}

found_or-Ends :
    (b : Bool) (i : ℕ) (w : World) (v : Option Value) (o : Outcome (Option Value))
    → Ends b i w o
    → Ends b i w (found_or v o w)
unfolding found_or Ends
found_or-Ends b i w none o h = h
found_or-Ends b i w (some v) o h = same-Keeps w

get_in-Ends :
    (b : Bool) (i : ℕ) (n : Bytes) (es : List ℕ) (w : World)
    → AllOpen w es
    → Ends b i w (get_in n es w)
unfolding get_in Ends AllOpen
get_in-Ends b i n [] w h = same-Keeps w
get_in-Ends b i n (e ∷ es) w (less, on, rest) =
    rw on (found_or-Ends b i w _ (get_in n es w) (get_in-Ends b i n es w rest))

pub env_get-Safe : (b : Bool) (e : ℕ) (n : Bytes) → Safe b e (env_get e n)
unfolding env_get AllOpen
env_get-Safe b e n = record { ends = λ w r. get_in-Ends b e n (w.chain e) w r.self.2 }
