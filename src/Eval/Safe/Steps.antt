-- ===== src/Eval/Safe/Steps.antt =====
-- The steps of the cases of `eval` in src/swarmrt_lang.c, none of which uses a freed environment.
use swarmrt.Base.{
  ℕ, zero, suc, ◌≡◌, ◌≢◌, refl, ap, List, [], ◌∷◌, Bool, true, false, Option, none, some, arith,
  Bytes,
}
use swarmrt.Syntax.{Node, Params, no_params, param, param_or}
use swarmrt.Values.{
  Value, nil_val, int_val, float_val, string_val, atom_val, pid_val, tuple_val, list_val, fun_val,
  map_val, Values, no_values, values,
}
use swarmrt.Eval.{World, Act}
use swarmrt.Eval.Operators.{Host}
use swarmrt.Eval.Messages.{Wire}
use swarmrt.Eval.Steps.{
  match_in, or_fail, or_assert, unknown, send_to, next_msg, receive_any, caught, bind_params,
}
use swarmrt.Eval.Run.{not_found}
use swarmrt.Eval.Safe.{
  Keeps, Ends, Safe, AllOpen, same-Keeps, pure-Safe, overrun-Safe, look-Safe, branch-Safe,
  bind-Safe, then-Safe, or_try-Safe, env_set-Safe, env_get-Safe,
}
use swarmrt.Eval.Safe.News.{in_new-Safe, in_global-Safe}

-- A change that is not about environments or closures.
slight :
    {i : ℕ} (w w' : World)
    → w'.next_env ≡ w.next_env
    → w'.live ≡ w.live
    → w'.chain ≡ w.chain
    → ((x : ℕ) → x ≢ i → w'.frames x ≡ w.frames x)
    → w'.closures ≡ w.closures
    → Keeps i w w'
slight w w' e f g h k = record {
  room = omega (arith, e);
  live = λ x less. ap (λ l. l x) f;
  chain = λ x less. ap (λ l. l x) g;
  frames = λ x less other. h x other;
  closures = k;
}

module _ (b : Bool) where
  pub match_in-Safe : (h : Host) (p : Node) (v : Value) (e : ℕ) → Safe b e (match_in h p v e)
  unfolding match_in Ends AllOpen
  match_in-Safe h p v e = record {
    ends = λ w r. rw r.self.1 (slight w _ refl refl refl (λ x other. ground (arith, other)) refl);
  }

  pub or_fail-Safe : (e : ℕ) (o : Option Value) → Safe b e (or_fail o)
  unfolding or_fail
  or_fail-Safe e none = overrun-Safe b e
  or_fail-Safe e (some v) = pure-Safe b e v

  pub or_assert-Safe :
      (e : ℕ) (o : Option Bool) (m : Act Value) → Safe b e m → Safe b e (or_assert o m)
  unfolding or_assert Ends
  or_assert-Safe e none m v = record { ends = λ w r. v.ends w r }
  or_assert-Safe e (some true) m v = record { ends = λ w r. same-Keeps w }
  or_assert-Safe e (some false) m v = record {
    ends = λ w r. slight w _ refl refl refl (λ x other. refl) refl;
  }

  pub unknown-Safe : (e : ℕ) (h : Host) (f : Bytes) (vs : Values) → Safe b e (unknown h f vs)
  unfolding unknown Ends
  unknown-Safe e h f vs = record { ends = λ w r. slight w _ refl refl refl (λ x other. refl) refl }

  pub not_found-Ends : (i : ℕ) (text : Bytes) (w : World) → Ends b i w (not_found text w)
  unfolding not_found Ends
  not_found-Ends i text w = slight w _ refl refl refl (λ x other. refl) refl

  send_to-Ends : (i : ℕ) (w : World) (p v : Value) → Ends b i w (send_to p v w)
  unfolding send_to Ends
  send_to-Ends i w nil_val v = same-Keeps w
  send_to-Ends i w (int_val n) v = same-Keeps w
  send_to-Ends i w (float_val f) v = same-Keeps w
  send_to-Ends i w (string_val s) v = same-Keeps w
  send_to-Ends i w (atom_val s) v = same-Keeps w
  send_to-Ends i w (pid_val zero) v = same-Keeps w
  send_to-Ends i w (pid_val (suc p)) v = slight w _ refl refl refl (λ x other. refl) refl
  send_to-Ends i w (tuple_val vs) v = same-Keeps w
  send_to-Ends i w (list_val vs) v = same-Keeps w
  send_to-Ends i w (fun_val f) v = same-Keeps w
  send_to-Ends i w (map_val es) v = same-Keeps w

  pub send_to-Safe : (e : ℕ) (p v : Value) → Safe b e (send_to p v)
  send_to-Safe e p v = record { ends = λ w r. send_to-Ends e w p v }

  next_msg-Ends : (i : ℕ) (w : World) (ms : List Wire) → Ends b i w (next_msg ms w)
  unfolding next_msg Ends
  next_msg-Ends i w [] = same-Keeps w
  next_msg-Ends i w (m ∷ ms) = slight w _ refl refl refl (λ x other. refl) refl

  pub receive_any-Safe : (e : ℕ) → Safe b e receive_any
  unfolding receive_any
  receive_any-Safe e = record { ends = λ w r. next_msg-Ends e w w.inbox }

  pub caught-Safe : (e : ℕ) → Safe b e caught
  unfolding caught Ends
  caught-Safe e = record { ends = λ w r. slight w _ refl refl refl (λ x other. refl) refl }

pub ruleset steps = (
  pure-Safe, overrun-Safe, look-Safe, branch-Safe, bind-Safe, then-Safe, or_try-Safe, env_set-Safe,
  env_get-Safe, match_in-Safe, or_fail-Safe, or_assert-Safe, unknown-Safe, send_to-Safe,
  receive_any-Safe, caught-Safe, in_new-Safe, in_global-Safe,
)

module _ (b : Bool) where
  pub bind_params-Safe : (e : ℕ) (ps : Params) (vs : Values) → Safe b e (bind_params e ps vs)
  unfolding bind_params
  bind_params-Safe e no_params no_values = search steps
  bind_params-Safe e no_params (values v vs) = search steps
  bind_params-Safe e (param x ps) no_values = search steps
  bind_params-Safe e (param_or x n ps) no_values = search steps
  bind_params-Safe e (param x ps) (values v vs) =
      then-Safe b e _ _ (env_set-Safe b e x v) (bind_params-Safe e ps vs)
  bind_params-Safe e (param_or x n ps) (values v vs) =
      then-Safe b e _ _ (env_set-Safe b e x v) (bind_params-Safe e ps vs)
