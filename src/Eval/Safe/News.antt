-- ===== src/Eval/Safe/News.antt =====
-- A step of the evaluator of src/swarmrt_lang.c in a new environment, which is freed behind it.
use swarmrt.Base.{ℕ, ◌≡◌, refl, ap, ◌∙◌, ◌∷◌, Bool, true, if◌then◌else◌, ◌==◌, ==_refl, arith}
use swarmrt.Eval.{
  ◌>>=◌, World, Outcome, done, freed, overrun, no_fuel, Act, pure, go_on, env_new, env_free,
  add_env, in_new,
}
use swarmrt.Eval.Safe.{Keeps, AllOpen, Ready, Ends, Safe, trans-Keeps, AllOpen-Keeps, AllOpen-chain}

-- The state with a new environment keeps what there was, and is ready for the environment.
add_env-Keeps : {i : ℕ} (w : World) (p : ℕ) → Keeps i w (add_env p w)
add_env-Keeps w p = record {
  room = omega arith;
  live = λ x less. ground (arith, less);
  chain = λ x less. ground (arith, less);
  frames = λ x less other. ground (arith, less);
  closures = refl;
}

add_env-Ready :
    (w : World) (e p : ℕ) → Ready w e → AllOpen w (p ∷ w.chain p) → Ready (add_env p w) w.next_env
unfolding AllOpen
add_env-Ready w e p r o =
    let k : Keeps 0 w (add_env p w) = add_env-Keeps w p in
    let own : (w.next_env == w.next_env) ≡ true = ==_refl w.next_env in
    let here = ap (λ c. if c then true else w.live w.next_env) own in
    record {
      self = (
        omega arith,
        here,
        rw own (omega arith, here, (AllOpen-Keeps w (add_env p w) (w.chain p) k o.2)),
      );
      global = AllOpen-chain w (add_env p w) 0 k r.global;
      none = r.none;
    }

module _ {ℓ} {A : Type ℓ} (b : Bool) where
  freed-Ends :
      (i : ℕ) (w : World) (p : ℕ) (o : Outcome A)
      → Ends b w.next_env (add_env p w) o
      → Ends b i w (go_on o (λ a. λ w'. go_on (env_free w.next_env w') (λ u. pure a)))
  unfolding go_on env_free pure Ends
  freed-Ends i w p (done a w') h =
      let own : w'.live w.next_env ≡ true =
        h.live w.next_env (omega arith)
        ∙ ap (λ c. if c then true else w.live w.next_env) (==_refl w.next_env) in
      let k : Keeps w.next_env w w' = trans-Keeps w (add_env p w) w' (add_env-Keeps w p) h in
      rw own (record {
        room = k.room;
        live = λ x less. ground (arith, less, k.live x less);
        chain = k.chain;
        frames = λ x less other. k.frames x less (λ e. omega (arith, ap (λ y. y) e, less));
        closures = k.closures;
      })
  freed-Ends i w p freed h = h
  freed-Ends i w p overrun h = h
  freed-Ends i w p no_fuel h = h

  -- A step in a new environment, below an open one, sets the variables of no other.
  pub in_new-Ends :
      (i : ℕ) (w : World) (e p : ℕ) (body : ℕ → Act A)
      → Ready w e
      → AllOpen w (p ∷ w.chain p)
      → ((f : ℕ) → Safe b f (body f))
      → Ends b i w (in_new p body w)
  unfolding in_new env_new ◌>>=◌ go_on
  in_new-Ends i w e p body r o v =
      freed-Ends i w p (body w.next_env (add_env p w))
        ((v w.next_env).ends (add_env p w) (add_env-Ready w e p r o))

  pub in_new-Safe :
      (e : ℕ) (body : ℕ → Act A) → ((f : ℕ) → Safe b f (body f)) → Safe b e (in_new e body)
  in_new-Safe e body v = record { ends = λ w r. in_new-Ends e w e e body r r.self v }

  pub in_global-Safe :
      (e : ℕ) (body : ℕ → Act A) → ((f : ℕ) → Safe b f (body f)) → Safe b e (in_new 0 body)
  in_global-Safe e body v = record { ends = λ w r. in_new-Ends e w e 0 body r r.global v }
