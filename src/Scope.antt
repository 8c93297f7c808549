-- ===== src/Scope.antt =====
-- The variables of the language in src/swarmrt_lang.c (`env_new`, `env_hash`, `env_set`, `env_get`).
pub mod Laws
use swarmrt.Base.{
  ℕ, ◌+◌, ◌*◌, ◌%◌, ◌^◌, List, [], ◌∷◌, Bool, false, ◌||◌, Option, none, some, if◌then◌else◌, Bytes,
  bytes_eq,
}
use swarmrt.Registry.{update}
use swarmrt.Values.{Value}

-- `sw_env_entry_t`
pub record Binding : Type 0 where
  pub name : Bytes
  pub val : Value

-- The buckets of one `sw_env_t`, by their index.
abbrev pub Frame : Type 0
Frame = ℕ → List Binding

-- A `sw_env_t` with its parents.
pub record Env : Type 0 where
  pub frame : Frame
  pub parents : List Frame

abbrev pub env_slots : ℕ
env_slots = 32

-- `env_new`
abbrev pub env_new : Env → Env
env_new e = record { frame = λ h. []; parents = e.frame ∷ e.parents }

unfoldable pub env_hash_from : ℕ → Bytes → ℕ
env_hash_from h [] = h
env_hash_from h (c ∷ cs) = env_hash_from ((h * 33 + c) % 2 ^ 32) cs

unfoldable pub env_hash : Bytes → ℕ
unfolding env_hash_from
env_hash s = env_hash_from 5381 s % env_slots

-- The loop that looks a name up in a bucket.
unfoldable pub find_binding : Bytes → List Binding → Option Value
find_binding n [] = none
find_binding n (b ∷ bs) = if bytes_eq b.name n then some b.val else find_binding n bs

-- Whether the loop of `env_set` meets a name.
unfoldable pub has_binding : Bytes → List Binding → Bool
has_binding n [] = false
has_binding n (b ∷ bs) = bytes_eq b.name n || has_binding n bs

-- The loop that gives a name in a bucket a new value.
unfoldable pub set_first : Bytes → Value → List Binding → List Binding
set_first n v [] = []
set_first n v (b ∷ bs) =
    if bytes_eq b.name n then record b { val = v } ∷ bs else b ∷ set_first n v bs

-- `env_set` on the bucket of the name.
unfoldable pub set_binding : Bytes → Value → List Binding → List Binding
unfolding set_first has_binding
set_binding n v bs =
    if has_binding n bs then set_first n v bs else record { name = n; val = v } ∷ bs

-- `env_set`
unfoldable pub env_set : Bytes → Value → Env → Env
unfolding set_binding env_hash
env_set n v e = record e {
  frame = update e.frame (env_hash n) (set_binding n v (e.frame (env_hash n)));
}

-- The value found in a scope, or else the one of its parents.
abbrev pub or_outer : Option Value → Option Value → Option Value
or_outer none v = v
or_outer (some u) v = some u

unfoldable pub get_in : Bytes → List Frame → Option Value
unfolding find_binding env_hash
get_in n [] = none
get_in n (f ∷ fs) = or_outer (find_binding n (f (env_hash n))) (get_in n fs)

-- `env_get`, through the parents.
unfoldable pub env_get : Bytes → Env → Option Value
unfolding get_in
env_get n e = get_in n (e.frame ∷ e.parents)
