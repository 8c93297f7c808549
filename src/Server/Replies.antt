-- ===== src/Server/Replies.antt =====
-- Which reply a call of src/swarmrt_otp.c gets.
use swarmrt.Base.{
  ℕ, ◌+◌, ◌^◌, ◌≤◌, ◌<◌, ◌≡◌, refl, ap, List, [], ◌∷◌, Option, none, some, arith, length, All,
}
use swarmrt.Mailbox.Queue.{contents}
use swarmrt.Mailbox.{Msg, Mailbox, drain, pop_first, pop_tagged}
use swarmrt.Server.{
  Callbacks, CallMsg, System, send, call_proc, cast_proc, stop, first_ref, reply_taken, reply_for,
  receive_reply, on_call, on_cast, on_info, on_message, on_received, serve, Event, ask, receive,
  expire, cast, stop_server, other, round, step, run,
}
use swarmrt.Server.Consistent.{Answers, Good, IsConsistent, pop_tagged-Good}
use swarmrt.Server.Steps.{IsPlain, step-IsConsistent}

module _ (cbs : Callbacks) where
  on_message-next_ref : (m : Msg) (w : System) → (on_message cbs m w).next_ref ≡ w.next_ref
  unfolding on_message on_call on_cast on_info send
  on_message-next_ref m w = ground arith

  on_received-next_ref :
      (o : Option (Msg × Mailbox)) (w : System) → (on_received cbs o w).next_ref ≡ w.next_ref
  unfolding on_received
  on_received-next_ref none w = refl
  on_received-next_ref (some (m, mb)) w = on_message-next_ref m _

  reply_for-next_ref :
      (p : ℕ) (o : Option CallMsg) (w : System) → (reply_for p o w).1.next_ref ≡ w.next_ref
  unfolding reply_for reply_taken
  reply_for-next_ref p none w = refl
  reply_for-next_ref p (some call) w = ground arith

  step-next_ref :
      (e : Event) (w : System) → w.next_ref + 1 < 2 ^ 64 → (step cbs w e).next_ref ≤ w.next_ref + 1
  unfolding step call_proc cast_proc stop receive_reply serve send
  step-next_ref (ask p request) w room = omega (arith, room)
  step-next_ref (receive p) w room = omega (arith, reply_for-next_ref p (w.waiting p) w)
  step-next_ref (expire p) w room = omega arith
  step-next_ref (cast p message) w room = omega arith
  step-next_ref (stop_server p) w room = omega arith
  step-next_ref (other p to tag payload) w room = omega arith
  step-next_ref round w room =
      ground (arith, on_received-next_ref (pop_first (drain (w.box w.server.self))) w)

  run-IsConsistent :
      (es : List Event) (w : System)
      → All (IsPlain cbs) es
      → w.next_ref + length es < 2 ^ 64
      → IsConsistent cbs w
      → IsConsistent cbs (run cbs w es)
  unfolding run
  run-IsConsistent [] w plain room v = v
  run-IsConsistent (e ∷ es) w plain room v =
      let small : w.next_ref + 1 < 2 ^ 64 = omega (arith, room) in
      run-IsConsistent es (step cbs w e) plain.1 (omega (arith, room, step-next_ref e w small))
        (step-IsConsistent cbs e w plain.0 small v)

  reply_taken-Answers :
      (p v : ℕ) (w : System) (call : CallMsg) (o : Option (Msg × Mailbox))
      → IsConsistent cbs w
      → w.waiting p ≡ some call
      → pop_tagged call.ref (drain (w.box p)) ≡ o
      → (reply_taken p o w).0 ≡ some v
      → Answers cbs call v
  unfolding reply_taken
  reply_taken-Answers p v w call none c is e got = cc
  reply_taken-Answers p v w call (some (m, mb)) c is e got =
      let (tag, good, _) =
        pop_tagged-Good cbs (Good cbs w.calls w.next_call p) call.ref (w.box p) mb m (c.mail p) e in
      let (b, less_b, is_call, _) = c.waits p call is in
      let same_ref : (w.calls b).ref ≡ call.ref = ap (λ k. k.ref) is_call in
      let (a, less_a, ref, _, ans) =
        good.answers (omega (arith, tag, same_ref, (c.made b less_b).0)) in
      let same : a ≡ b = c.distinct a b less_a less_b (omega (arith, ref, tag, same_ref)) in
      let is_v : m.payload ≡ v = cc in rw (same, is_call, is_v) at ans

  reply_for-Answers :
      (p v : ℕ) (w : System) (o : Option CallMsg)
      → IsConsistent cbs w
      → w.waiting p ≡ o
      → (reply_for p o w).0 ≡ some v
      → (call : CallMsg) × (o ≡ some call) × (call.from ≡ p) × Answers cbs call v
  unfolding reply_for
  reply_for-Answers p v w none c is got = absurd cc
  reply_for-Answers p v w (some call) c is got =
      let (_, _, _, own) = c.waits p call is in
      (call, refl, own, reply_taken-Answers p v w call _ c is refl got)

  -- After any steps of the server and of its clients from a consistent system, of which those that
  -- send other messages use none of the tags of calls and replies, and that are too few for the
  -- counter of references to wrap round: when a client takes a reply, it was waiting on a call of its
  -- own, and the reply is what the callback has returned for this call, in some state of the server.
  pub run-reply :
      (es : List Event) (w : System) (p v : ℕ)
      → IsConsistent cbs w
      → All (IsPlain cbs) es
      → w.next_ref + length es < 2 ^ 64
      → (receive_reply p (run cbs w es)).0 ≡ some v
      → (call : CallMsg) × ((run cbs w es).waiting p ≡ some call)
        × (call.from ≡ p)
        × Answers cbs call v
  unfolding receive_reply
  run-reply es w p v start plain room got =
      let w' = run cbs w es in
      reply_for-Answers p v w' (w'.waiting p) (run-IsConsistent es w plain room start) refl got

  -- A system in which no call has been made and nothing has been sent.
  pub fresh-IsConsistent :
      (w : System)
      → first_ref ≤ w.next_ref
      → w.next_call ≡ 0
      → ((p : ℕ) → w.waiting p ≡ none)
      → ((p : ℕ) → contents (w.box p) ≡ [])
      → IsConsistent cbs w
  fresh-IsConsistent w low calls waiting boxes = record {
    low = low;
    made = λ a less. absurd (omega (arith, less, calls));
    distinct = λ a b less. absurd (omega (arith, less, calls));
    waits = λ p call e. absurd (ground (arith, waiting p, e));
    mail = λ p. rw (boxes p) tt;
  }
