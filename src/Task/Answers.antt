-- ===== src/Task/Answers.antt =====
-- What an answer of a wait of src/swarmrt_task.c rests on, and waits that get no answer.
use swarmrt.Base.{
  ℕ, zero, suc, ◌+◌, ◌≤◌, ◌<◌, ◌≡◌, refl, sym, ◌∙◌, ◌≢◌, inl, inr, List, [], ◌∷◌, ◌++◌, Bool, true,
  false, not, ◌&&◌, ◌||◌, if◌then◌else◌, ◌==◌, ltb, leb, append-nil, arith, replicate, All,
  Bool-cases,
}
use swarmrt.Mailbox.{Msg, Mailbox, push}
use swarmrt.Mailbox.Queue.{contents, contents-push}
use swarmrt.Task.{
  Task, Status, ok, crash, timeout, Answer, Payloads, Parent, result_tag, down_tag, forever,
  is_live, Turn, resend, Verdict, done, again, on_result, on_down, on_message, round, await_loop,
  await, yield_task,
}
use swarmrt.Task.Await.{resent, popped, receive-some, receive-none, loop-done, loop-again}
use swarmrt.Task.Kept.{
  count, count-append, arrivals, parent_of, List-cases, Verdict-cases, count-resend,
}

-- A look that nothing comes in.
abbrev pub quiet : Turn
quiet = record { elapsed = 0; arrived = [] }

module _ (h : Payloads) where
  -- A message that gives the answer.
  abbrev pub gives : Answer → Task → ℕ → ℕ → Bool
  gives a t tag payload = elim a.status [
    | ok ↦
        tag == result_tag
        && (h.result_at payload).ref == t.monitor_ref
        && (h.result_at payload).value == a.value
    | crash ↦
        tag == down_tag
        && (h.down_at payload).ref == t.monitor_ref
        && not ((h.down_at payload).reason == 0)
    | timeout ↦ true
  ]

  -- Whether a wait has found nothing.
  abbrev is_timeout : Status → Bool
  is_timeout timeout = true
  is_timeout ok = false
  is_timeout crash = false

  final-status : (s : Status) → s ≢ timeout → is_timeout s ≡ false
  final-status timeout h = absurd (h refl)
  final-status ok h = refl
  final-status crash h = refl

  module _ (ms : ℕ) where
    -- The answer of a verdict, a timeout if the wait goes on.
    abbrev answer_of : Verdict → Answer
    answer_of (done a t p) = a
    answer_of (again p) = record { status = timeout; value = 0 }

    abbrev is_completed : Verdict → Bool
    is_completed (done a t p) = t.completed
    is_completed (again p) = true

    on_message-bound :
        (f : ℕ → ℕ → Bool) (m : Msg) (t : Task) (p : Parent)
        → count f (contents (parent_of (on_message h ms m t p)).mailbox)
          ≤ (if f m.tag m.payload then 1 else 0) + count f (contents p.mailbox)
    unfolding on_message on_result on_down resend
    on_message-bound f m t p = ground (arith, count-resend h ms f m p)

    on_message-gives :
        (m : Msg) (t : Task) (p : Parent)
        → (gives (answer_of (on_message h ms m t p)) t m.tag m.payload ≡ true)
          × (is_timeout (answer_of (on_message h ms m t p)).status
                || is_completed (on_message h ms m t p)
              ≡ true)
    unfolding on_message on_result on_down
    on_message-gives m t p = ground arith

    round-bound :
        (f : ℕ → ℕ → Bool) (turn : Turn) (t : Task) (p : Parent)
        → count f (contents (parent_of (round h ms turn t p)).mailbox)
          ≤ count f (contents p.mailbox) + count f turn.arrived
    unfolding round count
    round-bound f turn t p = elim (List-cases (contents p.mailbox ++ turn.arrived)) [
      | inl e ↦ ground (
        arith,
        receive-none h ms turn.arrived t p e,
        count-append f (contents p.mailbox) turn.arrived,
      )
      | inr (m, rest, e) ↦
          let p' : Parent = record p { mailbox = popped turn.arrived p rest } in
          let b = on_message-bound f m t p' in
          let b' = rw append-nil at b in
          ground (
            arith,
            receive-some h ms turn.arrived t p m rest e,
            b',
            count-append f (contents p.mailbox) turn.arrived,
          )
    ]

    -- The wait is over with a result or a crash, which a message that it has seen gives.
    IsBacked : Task → (((ℕ → ℕ → Bool) → ℕ)) → Verdict → Type 0
    IsBacked t n v =
        is_timeout (answer_of v).status ≡ false
        → (is_completed v ≡ true) × (0 < n (gives (answer_of v) t))

    on_message-IsBacked :
        (m : Msg) (rest : List Msg) (t : Task) (p : Parent)
        → IsBacked t (λ f. count f (m ∷ rest)) (on_message h ms m t p)
    unfolding IsBacked count
    on_message-IsBacked m rest t p final =
        let (g, c) = on_message-gives m t p in (ground arith, rw g (omega arith))

    idle-IsBacked :
        (n : (ℕ → ℕ → Bool) → ℕ) (t : Task) (p : Parent)
        → IsBacked t n (done (record { status = timeout; value = 0 }) t p)
    unfolding IsBacked
    idle-IsBacked n t p final = cc

    round-IsBacked :
        (turn : Turn) (t : Task) (p : Parent)
        → IsBacked t (λ f. count f (contents p.mailbox ++ turn.arrived)) (round h ms turn t p)
    unfolding round
    round-IsBacked turn t p =
        elim (Bool-cases (not (ms == forever) && ltb 0 ms && leb ms turn.elapsed)) [
          | inl late ↦ rw late (idle-IsBacked _ t p)
          | inr looks ↦ elim (List-cases (contents p.mailbox ++ turn.arrived)) [
            | inl e ↦ rw (looks, receive-none h ms turn.arrived t p e) (idle-IsBacked _ t _)
            | inr (m, rest, e) ↦
                let p' : Parent = record p { mailbox = popped turn.arrived p rest } in
                rw (looks, receive-some h ms turn.arrived t p m rest e, e)
                  (on_message-IsBacked m rest t p')
          ]
        ]

    IsBacked-mono :
        (n k : (ℕ → ℕ → Bool) → ℕ) (t : Task) (v : Verdict)
        → ((f : ℕ → ℕ → Bool) → n f ≤ k f)
        → IsBacked t n v
        → IsBacked t k v
    unfolding IsBacked
    IsBacked-mono n k t v le b final =
        let (c, some_one) = b final in (c, omega (arith, some_one, le (gives (answer_of v) t)))

    again-IsBacked : (n : (ℕ → ℕ → Bool) → ℕ) (t : Task) (p : Parent) → IsBacked t n (again p)
    unfolding IsBacked
    again-IsBacked n t p final = cc

    await_loop-IsBacked :
        (turns : List Turn) (t : Task) (p : Parent)
        → IsBacked t
            (λ f. count f (contents p.mailbox ++ arrivals turns))
            (await_loop h ms turns t p)
    unfolding await_loop
    await_loop-IsBacked [] t p = again-IsBacked _ t p
    await_loop-IsBacked (turn ∷ turns) t p = elim (Verdict-cases (round h ms turn t p)) [
      | inl (a, t', p', e) ↦
          let b = round-IsBacked turn t p in
          rw (loop-done h ms turn turns t t' p p' a e) (
            IsBacked-mono (λ f. count f (contents p.mailbox ++ turn.arrived)) _ t _
              (λ f. ground (
                arith,
                count-append f (contents p.mailbox) turn.arrived,
                count-append f (contents p.mailbox) (turn.arrived ++ arrivals turns),
                count-append f turn.arrived (arrivals turns),
              ))
              (rw e at b))
      | inr (p', e) ↦ rw (loop-again h ms turn turns t p p' e) (
          IsBacked-mono (λ f. count f (contents p'.mailbox ++ arrivals turns)) _ t _
            (λ f.
              let b = round-bound f turn t p in
              let b' = rw e at b in
              ground (
                arith,
                b',
                count-append f (contents p'.mailbox) (arrivals turns),
                count-append f (contents p.mailbox) (turn.arrived ++ arrivals turns),
                count-append f turn.arrived (arrivals turns),
              ))
            (await_loop-IsBacked turns t p'))
    ]

    -- When a wait for a live task answers that it is done or has crashed, it has marked the task as
    -- completed, and a message that was in the mailbox or has come says so: the result of this task
    -- with the value of the answer, or its end with a reason other than 0.
    pub await-answer :
        (turns : List Turn) (t t' : Task) (p p' : Parent) (a : Answer)
        → is_live t ≡ true
        → await h ms turns t p ≡ done a t' p'
        → a.status ≢ timeout
        → (t'.completed ≡ true) × (0 < count (gives a t) (contents p.mailbox ++ arrivals turns))
    unfolding await IsBacked
    await-answer turns t t' p p' a live e final =
        let loop : await_loop h ms turns t p ≡ done a t' p' = rw live at e in
        let b = await_loop-IsBacked turns t p in (rw loop at b) (final-status a.status final)

  -- The result of another task.
  abbrev pub foreign : Task → Msg → Bool
  foreign t m = m.tag == result_tag && not ((h.result_at m.payload).ref == t.monitor_ref)

  round-foreign :
      (t : Task) (p : Parent) (m : Msg) (rest : List Msg)
      → foreign t m ≡ true
      → contents p.mailbox ≡ m ∷ rest
      → (mb : Mailbox) × (round h 0 quiet t p ≡ again (record p { mailbox = mb }))
        × (contents mb ≡ rest ++ (resent m p ∷ []))
  unfolding round on_message on_result resend
  round-foreign t p m rest other front =
      let mb = popped [] p rest in
      let got = receive-some h 0 [] t p m rest (append-nil (contents p.mailbox) ∙ front) in
      (push (resent m p) mb, ground (arith, got), rw (contents-push) (simp append-nil))

  All-snoc : (P : Msg → Type 0) (ms : List Msg) (m : Msg) → All P ms → P m → All P (ms ++ (m ∷ []))
  All-snoc P [] m a b = (b, tt)
  All-snoc P (x ∷ ms) m a b = (a.0, All-snoc P ms m a.1 b)

  await_loop-foreign :
      (n : ℕ) (t : Task) (p : Parent) (m : Msg) (rest : List Msg)
      → All (λ x. foreign t x ≡ true) (m ∷ rest)
      → contents p.mailbox ≡ m ∷ rest
      → (p' : Parent) × (await_loop h 0 (replicate n quiet) t p ≡ again p')
  unfolding await_loop
  await_loop-foreign zero t p m rest other front = (p, refl)
  await_loop-foreign (suc n) t p m rest other front =
      let (mb, e, next) = round-foreign t p m rest other.0 front in
      let p₁ : Parent = record p { mailbox = mb } in
      let both = All-snoc (λ x. foreign t x ≡ true) rest (resent m p) other.1 other.0 in
      let r : (p' : Parent) × (await_loop h 0 (replicate n quiet) t p₁ ≡ again p') =
        elim (List-cases (contents mb)) [
          | inl nil ↦ absurd (append-ne rest (resent m p) (sym next ∙ nil))
          | inr (x, xs, cons) ↦ await_loop-foreign n t p₁ x xs (rw (sym next ∙ cons) at both) cons
        ] in
      (r.0, loop-again h 0 quiet (replicate n quiet) t p p₁ e ∙ r.1)
    where
      append-ne : (xs : List Msg) (y : Msg) → ¬ (xs ++ (y ∷ []) ≡ [])
      append-ne [] y e = cc
      append-ne (x ∷ xs) y e = cc

  -- When all that is in the mailbox are results of other tasks, at least one, and nothing more
  -- comes, a look without waiting never returns: after any number of rounds it still goes on.
  pub yield_task-spins :
      (n : ℕ) (t : Task) (p : Parent)
      → is_live t ≡ true
      → All (λ x. foreign t x ≡ true) (contents p.mailbox)
      → contents p.mailbox ≢ []
      → (p' : Parent) × (yield_task h (replicate n quiet) t p ≡ again p')
  unfolding yield_task await
  yield_task-spins n t p live other some_one = elim (List-cases (contents p.mailbox)) [
    | inl nil ↦ absurd (some_one nil)
    | inr (m, rest, e) ↦ rw live (await_loop-foreign n t p m rest (rw e at other) e)
  ]
