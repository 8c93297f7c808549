-- ===== src/Task/Await.antt =====
-- What a wait of src/swarmrt_task.c does with the messages that it finds and the answer it gives.
use swarmrt.Base.{
  sub_32, reverse, ℕ, ◌<◌, ◌≡◌, sym, ap, ◌∙◌, inl, inr, List, [], ◌∷◌, ◌++◌, Bool, true, false, not,
  ◌&&◌, ◌||◌, if◌then◌else◌, ◌==◌, ltb, append-nil, append_assoc, arith, length, All, Bool-cases,
}
use swarmrt.Mailbox.{Msg, Mailbox, push, drain, pop_first}
use swarmrt.Mailbox.Queue.{counted, contents, contents-push, drain_lem}
use swarmrt.Task.{
  Task, ok, timeout, Answer, Payloads, Parent, result_tag, down_tag, forever, is_live, release,
  Turn, push_all, resend, done, again, on_result, on_down, on_message, on_received, receive, round,
  await_loop, await,
}

abbrev pub resent : Msg → Parent → Msg
resent m p = record m { from_pid = p.pid }

contents-push_all : (ms : List Msg) (mb : Mailbox) → contents (push_all ms mb) ≡ contents mb ++ ms
unfolding push_all
contents-push_all [] mb = sym (append-nil (contents mb))
contents-push_all (m ∷ ms) mb =
    rw (contents-push_all ms (push m mb), contents-push m mb) (simp append_assoc)

-- The mailbox once a receive has looked at it, with these messages in its queue.
abbrev pub drained : List Msg → Parent → List Msg → Mailbox
drained arrived p rest =
    let mb = push_all arrived p.mailbox in
    record { sig = []; queue = rest; count = counted (reverse mb.sig) mb.count }

abbrev pub popped : List Msg → Parent → List Msg → Mailbox
popped arrived p rest = let mb = drained arrived p rest in record mb { count = sub_32 mb.count 1 }

drain_arrived :
    (arrived : List Msg) (p : Parent) (rest : List Msg)
    → contents p.mailbox ++ arrived ≡ rest
    → drain (push_all arrived p.mailbox) ≡ drained arrived p rest
drain_arrived arrived p rest e = rw (drain_lem, contents-push_all, e)

module _ (h : Payloads) (ms : ℕ) where
  pub receive-some :
      (arrived : List Msg) (t : Task) (p : Parent) (m : Msg) (rest : List Msg)
      → contents p.mailbox ++ arrived ≡ m ∷ rest
      → receive h ms arrived t p
        ≡ on_message h ms m t (record p { mailbox = popped arrived p rest })
  unfolding receive pop_first on_received
  receive-some arrived t p m rest e =
      ap (λ mb. on_received h ms (pop_first mb) t (record p { mailbox = mb }))
        (drain_arrived arrived p (m ∷ rest) e)

  pub receive-none :
      (arrived : List Msg) (t : Task) (p : Parent)
      → contents p.mailbox ++ arrived ≡ []
      → receive h ms arrived t p
        ≡ done
            (record { status = timeout; value = 0 })
            t
            (record p { mailbox = drained arrived p [] })
  unfolding receive pop_first on_received
  receive-none arrived t p e =
      ap (λ mb. on_received h ms (pop_first mb) t (record p { mailbox = mb }))
        (drain_arrived arrived p [] e)

  -- The wait goes on after the message.
  abbrev pub passes : Task → Msg → Bool
  passes t m =
      not (m.payload == 0 && m.tag == 0)
      && not (m.tag == result_tag && (h.result_at m.payload).ref == t.monitor_ref)
      && not (
          m.tag == down_tag
          && (h.down_at m.payload).ref == t.monitor_ref
          && not ((h.down_at m.payload).reason == 0))

  -- What a message that the wait goes on after leaves in the mailbox.
  abbrev kept : Task → Msg → Parent → List Msg
  kept t m p =
      if m.tag == down_tag && (h.down_at m.payload).ref == t.monitor_ref
      then []
      else resent m p ∷ []

  abbrev pub in_time : Turn → Bool
  in_time turn = not (ms == 0) && (ms == forever || ltb turn.elapsed ms)

  on_message-passes :
      (m : Msg) (t : Task) (p : Parent)
      → (ms == 0) ≡ false
      → passes t m ≡ true
      → (mb : Mailbox) × (on_message h ms m t p ≡ again (record p { mailbox = mb }))
        × (contents mb ≡ contents p.mailbox ++ kept t m p)
  unfolding on_message on_result on_down resend
  on_message-passes m t p pos e =
      elim (Bool-cases (m.tag == down_tag && (h.down_at m.payload).ref == t.monitor_ref)) [
        | inl own ↦ (p.mailbox, ground arith, rw (own, append-nil))
        | inr other ↦
            let mb = push (resent m p) p.mailbox in (mb, ground arith, rw (other, contents-push))
      ]

  -- A round takes such a message and goes on.
  round-passes :
      (turn : Turn) (t : Task) (p : Parent) (m : Msg) (rest : List Msg)
      → in_time turn ≡ true
      → passes t m ≡ true
      → contents p.mailbox ≡ m ∷ rest
      → (mb : Mailbox) × (round h ms turn t p ≡ again (record p { mailbox = mb }))
        × (contents mb ≡ rest ++ (turn.arrived ++ kept t m p))
  unfolding round
  round-passes turn t p m rest early e front =
      let got = receive-some turn.arrived t p m (rest ++ turn.arrived) (rw front) in
      let p' : Parent = record p { mailbox = popped turn.arrived p (rest ++ turn.arrived) } in
      let (mb, goes, holds) = on_message-passes m t p' (ground arith) e in
      (mb, ground (arith, got, goes), holds ∙ simp (append-nil, append_assoc))

  -- The first message that is the result of the task.
  abbrev pub IsResult : Task → Msg → Type 0
  IsResult t m = (m.tag ≡ result_tag) × ((h.result_at m.payload).ref ≡ t.monitor_ref)

  round-result :
      (turn : Turn) (t : Task) (p : Parent) (m : Msg) (rest : List Msg)
      → in_time turn ≡ true
      → IsResult t m
      → contents p.mailbox ≡ m ∷ rest
      → (mb : Mailbox) × (round h ms turn t p
          ≡ done
              (record { status = ok; value = (h.result_at m.payload).value })
              (record t { completed = true })
              (record p { mailbox = mb; world = release t p.self p.world }))
        × (contents mb ≡ rest ++ turn.arrived)
  unfolding round on_message on_result
  round-result turn t p m rest early (tagged, own) front =
      let got = receive-some turn.arrived t p m (rest ++ turn.arrived) (rw front) in
      (
        popped turn.arrived p (rest ++ turn.arrived),
        ground (arith, got, tagged, own),
        append-nil (rest ++ turn.arrived),
      )

  pub loop-done :
      (turn : Turn) (turns : List Turn) (t t' : Task) (p p' : Parent) (a : Answer)
      → round h ms turn t p ≡ done a t' p'
      → await_loop h ms (turn ∷ turns) t p ≡ done a t' p'
  unfolding await_loop
  loop-done turn turns t t' p p' a e = ground arith

  pub loop-again :
      (turn : Turn) (turns : List Turn) (t : Task) (p p' : Parent)
      → round h ms turn t p ≡ again p'
      → await_loop h ms (turn ∷ turns) t p ≡ await_loop h ms turns t p'
  unfolding await_loop
  loop-again turn turns t p p' e = ground arith

  pub await_loop-result :
      (before : List Msg) (turns : List Turn) (t : Task) (p : Parent) (m : Msg) (behind : List Msg)
      → All (λ turn. in_time turn ≡ true) turns
      → All (λ x. passes t x ≡ true) before
      → IsResult t m
      → contents p.mailbox ≡ before ++ (m ∷ behind)
      → length before < length turns
      → (mb : Mailbox) × (await_loop h ms turns t p
          ≡ done
              (record { status = ok; value = (h.result_at m.payload).value })
              (record t { completed = true })
              (record p { mailbox = mb; world = release t p.self p.world }))
  unfolding await_loop
  await_loop-result before [] t p m behind early pass own front enough = absurd (omega arith)
  await_loop-result [] (turn ∷ turns) t p m behind early pass own front enough =
      let (mb, e, _) = round-result turn t p m behind early.0 own front in
      (mb, loop-done turn turns t _ p _ _ e)
  await_loop-result (x ∷ before) (turn ∷ turns) t p m behind early pass own front enough =
      let (mb, e, next) = round-passes turn t p x (before ++ (m ∷ behind)) early.0 pass.0 front in
      let (mb', e') =
        await_loop-result before turns t (record p { mailbox = mb }) m
          (behind ++ (turn.arrived ++ kept t x p)) early.1 pass.1 own (next ∙ simp (append_assoc))
          (omega (arith, enough)) in
      (mb', loop-again turn turns t p _ e ∙ e')

  -- A wait in which every look is in time, over enough looks, returns the value of the first result
  -- of the task, whatever passes before it and whatever comes meanwhile; the task is completed, and
  -- its monitor and link are given up.
  pub await-result :
      (before : List Msg) (turns : List Turn) (t : Task) (p : Parent) (m : Msg) (behind : List Msg)
      → is_live t ≡ true
      → All (λ turn. in_time turn ≡ true) turns
      → All (λ x. passes t x ≡ true) before
      → IsResult t m
      → contents p.mailbox ≡ before ++ (m ∷ behind)
      → length before < length turns
      → (mb : Mailbox) × (await h ms turns t p
          ≡ done
              (record { status = ok; value = (h.result_at m.payload).value })
              (record t { completed = true })
              (record p { mailbox = mb; world = release t p.self p.world }))
  unfolding await
  await-result before turns t p m behind live early pass own front enough =
      let (mb, e) = await_loop-result before turns t p m behind early pass own front enough in
      (mb, rw live e)
