-- ===== src/Server/Steps.antt =====
-- Each step of a generic server of src/swarmrt_otp.c and of its clients keeps them consistent.
use swarmrt.Base.{
  ℕ, ◌+◌, ◌^◌, ◌<◌, ◌≡◌, refl, ◌≢◌, Bool, true, false, ◌&&◌, Option, none, some, if◌then◌else◌,
  ◌==◌, arith, ==_iff,
}
use swarmrt.Registry.{update}
use swarmrt.Mailbox.{Msg, Mailbox, drain, pop_first, pop_tagged}
use swarmrt.Server.{
  CallReply, Callbacks, CallMsg, System, first_ref, call_tag, cast_tag, stop_tag, cast_proc, stop,
  reply_taken, reply_for, receive_reply, with_state, on_call, on_cast, on_info, finish, on_message,
  on_received, serve, Event, ask, receive, expire, cast, stop_server, other, round, step,
}
use swarmrt.Server.Consistent.{
  Good, IsConsistent, box-IsConsistent, send-IsConsistent, call_proc-IsConsistent, plain-Good,
  same-IsConsistent, pop_tagged-Good, pop_first-Good, give_up-IsConsistent, contents-drain,
}

module _ (cbs : Callbacks) where
  reply_taken-IsConsistent :
      (p t : ℕ) (w : System) (o : Option (Msg × Mailbox))
      → pop_tagged t (drain (w.box p)) ≡ o
      → IsConsistent cbs w
      → IsConsistent cbs (reply_taken p o w).1
  unfolding reply_taken
  reply_taken-IsConsistent p t w none e v =
      box-IsConsistent cbs p (drain (w.box p)) w (rw (contents-drain cbs) (v.mail p)) v
  reply_taken-IsConsistent p t w (some (m, mb)) e v =
      let (_, _, rest) =
        pop_tagged-Good cbs (Good cbs w.calls w.next_call p) t (w.box p) mb m (v.mail p) e in
      give_up-IsConsistent cbs p _ (box-IsConsistent cbs p mb w rest v)

  reply_for-IsConsistent :
      (p : ℕ) (o : Option CallMsg) (w : System)
      → IsConsistent cbs w
      → IsConsistent cbs (reply_for p o w).1
  unfolding reply_for
  reply_for-IsConsistent p none w v = v
  reply_for-IsConsistent p (some call) w v = reply_taken-IsConsistent p call.ref w _ refl v

  with_state-IsConsistent :
      (s : ℕ) (w : System) → IsConsistent cbs w → IsConsistent cbs (with_state s w)
  with_state-IsConsistent s w v =
      same-IsConsistent cbs w (with_state s w) refl refl refl refl refl v

  on_call-IsConsistent :
      (h : Option (ℕ → ℕ → ℕ → CallReply)) (a : ℕ) (w : System)
      → cbs.handle_call ≡ h
      → a < w.next_call
      → IsConsistent cbs w
      → IsConsistent cbs (on_call h (w.calls a) w)
  unfolding on_call
  on_call-IsConsistent none a w e less v = v
  on_call-IsConsistent (some f) a w e less v =
      let r = f w.server.state (w.calls a).from (w.calls a).payload in
      send-IsConsistent cbs w.server.self (w.calls a).from (w.calls a).ref r.reply
        (with_state r.new_state w)
        (record {
          known = λ t. absurd (omega (arith, t, (v.made a less).0));
          answers = λ high. (
            a,
            less,
            refl,
            refl,
            record { handler = f; present = e; state = w.server.state; reply = refl },
          );
        })
        (with_state-IsConsistent r.new_state w v)

  on_cast-IsConsistent :
      (h : Option (ℕ → ℕ → ℕ)) (message : ℕ) (w : System)
      → IsConsistent cbs w
      → IsConsistent cbs (on_cast h message w)
  unfolding on_cast
  on_cast-IsConsistent none message w v = v
  on_cast-IsConsistent (some f) message w v = with_state-IsConsistent _ w v

  on_info-IsConsistent :
      (h : Option (ℕ → ℕ → ℕ → ℕ)) (m : Msg) (w : System)
      → IsConsistent cbs w
      → IsConsistent cbs (on_info h m w)
  unfolding on_info
  on_info-IsConsistent none m w v = v
  on_info-IsConsistent (some f) m w v = with_state-IsConsistent _ w v

  finish-IsConsistent : (w : System) → IsConsistent cbs w → IsConsistent cbs (finish w)
  finish-IsConsistent w v = same-IsConsistent cbs w (finish w) refl refl refl refl refl v

  either-IsConsistent :
      (t : Bool) (v w : System)
      → (t ≡ true → IsConsistent cbs v)
      → IsConsistent cbs w
      → IsConsistent cbs (if t then v else w)
  either-IsConsistent true v w a b = a refl
  either-IsConsistent false v w a b = b

  on_message-IsConsistent :
      (p : ℕ) (m : Msg) (w : System)
      → Good cbs w.calls w.next_call p m
      → IsConsistent cbs w
      → IsConsistent cbs (on_message cbs m w)
  unfolding on_message
  on_message-IsConsistent p m w good v =
      either-IsConsistent (m.payload == 0 && m.tag == 0) _ _ (λ e. finish-IsConsistent w v)
        (either-IsConsistent (m.tag == call_tag) _ _
          (λ e.
            on_call-IsConsistent cbs.handle_call m.payload w refl
              (good.known ((==_iff m.tag call_tag).0 e)) v)
          (either-IsConsistent (m.tag == cast_tag) _ _
            (λ e. on_cast-IsConsistent cbs.handle_cast _ w v)
            (either-IsConsistent (m.tag == stop_tag) _ _ (λ e. finish-IsConsistent w v)
              (on_info-IsConsistent cbs.handle_info m w v))))

  on_received-IsConsistent :
      (o : Option (Msg × Mailbox)) (w : System)
      → pop_first (drain (w.box w.server.self)) ≡ o
      → IsConsistent cbs w
      → IsConsistent cbs (on_received cbs o w)
  unfolding on_received
  on_received-IsConsistent none w e v = v
  on_received-IsConsistent (some (m, mb)) w e v =
      let p = w.server.self in
      let (good, rest) =
        pop_first-Good cbs (Good cbs w.calls w.next_call p) (w.box p) mb m (v.mail p) e in
      on_message-IsConsistent p m (record w { box = update w.box p mb }) good
        (box-IsConsistent cbs p mb w rest v)

  serve-IsConsistent : (w : System) → IsConsistent cbs w → IsConsistent cbs (serve cbs w)
  unfolding serve
  serve-IsConsistent w v =
      either-IsConsistent w.server.running _ _ (λ e. on_received-IsConsistent _ w refl v) v

  -- A message that is sent by other means has a tag below the references, and is no call.
  abbrev pub IsPlain : Event → Type 0
  IsPlain (other p to tag payload) = (tag < first_ref) × (tag ≢ call_tag)
  IsPlain e = Unit

  pub step-IsConsistent :
      (e : Event) (w : System)
      → IsPlain e
      → w.next_ref + 1 < 2 ^ 64
      → IsConsistent cbs w
      → IsConsistent cbs (step cbs w e)
  unfolding step cast_proc stop receive_reply
  step-IsConsistent (ask p request) w plain room v = call_proc-IsConsistent cbs p request w room v
  step-IsConsistent (receive p) w plain room v = reply_for-IsConsistent p (w.waiting p) w v
  step-IsConsistent (expire p) w plain room v = give_up-IsConsistent cbs p w v
  step-IsConsistent (cast p message) w plain room v =
      send-IsConsistent cbs p w.server.self cast_tag w.next_cast _
        (plain-Good cbs w.calls w.next_call w.server.self _ (omega arith) (λ e. omega (arith, e)))
        (same-IsConsistent cbs w _ refl refl refl refl refl v)
  step-IsConsistent (stop_server p) w plain room v =
      send-IsConsistent cbs p w.server.self stop_tag 0 w
        (plain-Good cbs w.calls w.next_call w.server.self _ (omega arith) (λ e. omega (arith, e))) v
  step-IsConsistent (other p to tag payload) w plain room v =
      send-IsConsistent cbs p to tag payload w
        (plain-Good cbs w.calls w.next_call to _ plain.0 plain.1) v
  step-IsConsistent round w plain room v = serve-IsConsistent w v
