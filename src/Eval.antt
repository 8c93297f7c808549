-- ===== src/Eval.antt =====
-- The state of the evaluator of src/swarmrt_lang.c (`sw_interp_t`, and the environments and closures
-- that it allocates), and its environments by their addresses (`env_new`, `env_free`, `env_set`,
-- `env_get`). A step that reads an environment which has been freed, or that writes behind a buffer,
-- has no further state. The parents of an environment never change, so they are kept as a list.
pub mod Words
pub mod Numbers
pub mod Operators
pub mod Messages
pub mod Builtins
pub mod Steps
pub mod Forms
pub mod Run
pub mod Safe
pub mod More
use swarmrt.Base.{
  ℕ, suc, List, [], ◌∷◌, Bool, true, false, Option, none, some, if◌then◌else◌, Bytes,
}
use swarmrt.Values.{Value, nil_val}
use swarmrt.Scope.{Frame, env_hash, find_binding, set_binding}
use swarmrt.Registry.{update}
use swarmrt.Syntax.{Node, Params}
use swarmrt.Eval.Messages.{Wire}

-- The `fun` part of a `sw_val_t`: its parameters, its body and `closure_env`.
pub record Closure : Type 0 where
  pub params : Params
  pub body : Node
  pub closure_env : ℕ

-- `frames`, `chain` (an environment and its parents) and `live` are about every `sw_env_t`, and
-- `next_env` is the address of the next one. A `fun_val` is a place in `closures`. `inbox` is what
-- `sw_receive_any` hands out before it times out.
pub record World : Type 0 where
  pub frames : ℕ → Frame
  pub chain : ℕ → List ℕ
  pub live : ℕ → Bool
  pub next_env : ℕ
  pub closures : List Closure
  pub error : Bool
  pub error_msg : Bytes
  pub assert_failed : Bool
  pub self : ℕ
  pub inbox : List Wire
  pub sent : List (ℕ × Wire)

-- How a step ends: with a value, with the use of a freed environment, with a write behind a buffer, or
-- for lack of fuel.
pub data Outcome {ℓ} (A : Type ℓ) : Type ℓ where
  done : A → World → Outcome A
  freed : Outcome A
  overrun : Outcome A
  no_fuel : Outcome A

abbrev pub Act {ℓ} : Type ℓ → Type ℓ
Act A = World → Outcome A

unfoldable pub pure {ℓ} : {A : Type ℓ} → A → Act A
pure a w = done a w

unfoldable pub go_on {ℓ κ} : {A : Type ℓ} {B : Type κ} → Outcome A → (A → Act B) → Outcome B
go_on (done a w) k = k a w
go_on freed k = freed
go_on overrun k = overrun
go_on no_fuel k = no_fuel

infixl 1 ◌>>=◌
unfoldable pub ◌>>=◌ {ℓ κ} : {A : Type ℓ} {B : Type κ} → Act A → (A → Act B) → Act B
unfolding go_on
(m >>= k) w = go_on (m w) k

infixl 1 ◌>>◌
unfoldable pub ◌>>◌ {ℓ κ} : {A : Type ℓ} {B : Type κ} → Act A → Act B → Act B
unfolding ◌>>=◌
m >> k = m >>= λ a. k

-- A step that depends on the state.
unfoldable pub look {ℓ} : {A : Type ℓ} → (World → Act A) → Act A
look f w = f w w

unfoldable pub branch {ℓ} : {A : Type ℓ} → Bool → Act A → Act A → Act A
branch b m k = if b then m else k

unfoldable pub fail_overrun {ℓ} : {A : Type ℓ} → Act A
fail_overrun w = overrun

unfoldable pub fail_fuel {ℓ} : {A : Type ℓ} → Act A
fail_fuel w = no_fuel

-- The value, or else the step.
unfoldable pub or_try : Option Value → Act Value → Act Value
unfolding pure
or_try none m = m
or_try (some v) m = pure v

-- The state with a new environment.
abbrev pub add_env : ℕ → World → World
add_env parent w = record w {
  frames = update w.frames w.next_env (λ h. []);
  chain = update w.chain w.next_env (w.next_env ∷ w.chain parent);
  live = update w.live w.next_env true;
  next_env = suc w.next_env;
}

-- `env_new`, with the address.
unfoldable pub env_new : ℕ → Act ℕ
env_new parent w = done w.next_env (add_env parent w)

-- `env_free`
unfoldable pub env_free : ℕ → Act {0} Unit
env_free e w = if w.live e then done tt (record w { live = update w.live e false }) else freed

-- `env_set`
unfoldable pub env_set : ℕ → Bytes → Value → Act {0} Unit
unfolding env_hash set_binding
env_set e n v w =
    if w.live e
    then done tt (record w {
      frames =
          update w.frames e
            (update (w.frames e) (env_hash n) (set_binding n v (w.frames e (env_hash n))));
    })
    else freed

unfoldable pub found_or : Option Value → Outcome (Option Value) → World → Outcome (Option Value)
found_or none rest w = rest
found_or (some v) rest w = done (some v) w

-- The loop of `env_get`.
unfoldable pub get_in : Bytes → List ℕ → Act (Option Value)
unfolding found_or find_binding env_hash
get_in n [] w = done none w
get_in n (e ∷ es) w =
    let rest = get_in n es w in
    if w.live e then found_or (find_binding n (w.frames e (env_hash n))) rest w else freed

-- `env_get`
unfoldable pub env_get : ℕ → Bytes → Act (Option Value)
unfolding get_in
env_get e n w = get_in n (w.chain e) w

-- A step in a new environment, which is freed behind it.
unfoldable pub in_new {ℓ} : {A : Type ℓ} → ℕ → (ℕ → Act A) → Act A
unfolding env_new env_free ◌>>=◌ ◌>>◌ pure
in_new parent body = env_new parent >>= λ e. body e >>= λ a. λ w. go_on (env_free e w) (λ u. pure a)

abbrev pub or_nil : Option Value → Value
or_nil none = nil_val
or_nil (some v) = v
