-- ===== src/Task/Kept.antt =====
-- Which messages a wait of src/swarmrt_task.c uses up, and what its answer rests on.
use swarmrt.Base.{
  ℕ, suc, ◌+◌, ◌≡◌, refl, ◌⊎◌, inl, inr, List, [], ◌∷◌, ◌++◌, Bool, true, false, not, ◌&&◌, ◌||◌,
  if◌then◌else◌, ◌==◌, ltb, leb, append-nil, arith, take, Bool-cases,
}
use swarmrt.Mailbox.{Msg, push}
use swarmrt.Mailbox.Queue.{contents, contents-push}
use swarmrt.Task.{
  Task, timeout, Answer, Payloads, Parent, result_tag, down_tag, forever, is_live, Turn, resend,
  Verdict, done, again, on_result, on_down, on_message, receive, round, await_loop, await,
}
use swarmrt.Task.Await.{resent, popped, receive-some, receive-none, loop-done, loop-again}

-- How many messages have a tag and a payload that pass a test.
unfoldable pub count : (ℕ → ℕ → Bool) → List Msg → ℕ
count f [] = 0
count f (m ∷ ms) = (if f m.tag m.payload then 1 else 0) + count f ms

pub count-append :
    (f : ℕ → ℕ → Bool) (xs ys : List Msg) → count f (xs ++ ys) ≡ count f xs + count f ys
unfolding count
count-append f [] ys = omega arith
count-append f (x ∷ xs) ys = ground (arith, count-append f xs ys)

-- The messages that come in these turns.
abbrev pub arrivals : List Turn → List Msg
arrivals [] = []
arrivals (turn ∷ turns) = turn.arrived ++ arrivals turns

-- The time is over.
abbrev pub late : ℕ → Turn → Bool
late ms turn = not (ms == forever) && ltb 0 ms && leb ms turn.elapsed

abbrev pub parent_of : Verdict → Parent
parent_of (done a t p) = p
parent_of (again p) = p

pub List-cases : (l : List Msg) → (l ≡ []) ⊎ ((m : Msg) × (rest : List Msg) × (l ≡ m ∷ rest))
List-cases [] = inl refl
List-cases (m ∷ rest) = inr (m, rest, refl)

pub Verdict-cases :
    (v : Verdict)
    → ((a : Answer) × (t : Task) × (p : Parent) × (v ≡ done a t p)) ⊎ ((p : Parent) × (v ≡ again p))
Verdict-cases (done a t p) = inl (a, t, p, refl)
Verdict-cases (again p) = inr (p, refl)

module _ (h : Payloads) where
  -- The wait keeps such a message for itself.
  abbrev pub uses : Task → ℕ → ℕ → Bool
  uses t tag payload =
      (payload == 0 && tag == 0)
      || (tag == result_tag && (h.result_at payload).ref == t.monitor_ref)
      || (tag == down_tag && (h.down_at payload).ref == t.monitor_ref)

  -- How many turns a loop takes: the receive of each but the last one puts its message back. A turn in
  -- which the time is over before the receive is not taken.
  unfoldable pub loop_turns : ℕ → List Turn → Task → Parent → ℕ
  loop_turns ms [] t p = 0
  loop_turns ms (turn ∷ turns) t p = if late ms turn then 0 else elim (round h ms turn t p) [
    | done a t' p' ↦ 1
    | again p' ↦ suc (loop_turns ms turns t p')
  ]

  turns-late :
      (ms : ℕ) (turn : Turn) (turns : List Turn) (t : Task) (p : Parent)
      → late ms turn ≡ true
      → loop_turns ms (turn ∷ turns) t p ≡ 0
  unfolding loop_turns
  turns-late ms turn turns t p e = rw e refl

  turns-done :
      (ms : ℕ) (turn : Turn) (turns : List Turn) (a : Answer) (t t' : Task) (p p' : Parent)
      → late ms turn ≡ false
      → round h ms turn t p ≡ done a t' p'
      → loop_turns ms (turn ∷ turns) t p ≡ 1
  unfolding loop_turns
  turns-done ms turn turns a t t' p p' e r = ground arith

  turns-again :
      (ms : ℕ) (turn : Turn) (turns : List Turn) (t : Task) (p p' : Parent)
      → late ms turn ≡ false
      → round h ms turn t p ≡ again p'
      → loop_turns ms (turn ∷ turns) t p ≡ suc (loop_turns ms turns t p')
  unfolding loop_turns
  turns-again ms turn turns t p p' e r = ground arith

  -- How many turns a wait takes.
  unfoldable pub turns_taken : ℕ → List Turn → Task → Parent → ℕ
  turns_taken ms turns t p = if is_live t then loop_turns ms turns t p else 0

  module _ (ms : ℕ) (f : ℕ → ℕ → Bool) where
    abbrev pub count_after : Verdict → ℕ
    count_after v = count f (contents (parent_of v).mailbox)

    pub count-resend :
        (m : Msg) (p : Parent)
        → count f (contents (push (resent m p) p.mailbox))
          ≡ (if f m.tag m.payload then 1 else 0) + count f (contents p.mailbox)
    unfolding count
    count-resend m p =
        rw contents-push (ground (arith, count-append f (contents p.mailbox) (resent m p ∷ [])))

    on_message-count :
        (m : Msg) (t : Task) (p : Parent)
        → (uses t m.tag m.payload ≡ true → f m.tag m.payload ≡ false)
        → count f (contents (parent_of (on_message h ms m t p)).mailbox)
          ≡ (if f m.tag m.payload then 1 else 0) + count f (contents p.mailbox)
    unfolding on_message on_result on_down resend
    on_message-count m t p other = ground (arith, count-resend m p, other)

    receive-count :
        (arrived : List Msg) (t : Task) (p : Parent)
        → ((tag payload : ℕ) → uses t tag payload ≡ true → f tag payload ≡ false)
        → count f (contents (parent_of (receive h ms arrived t p)).mailbox)
          ≡ count f (contents p.mailbox) + count f arrived
    unfolding count
    receive-count arrived t p other = elim (List-cases (contents p.mailbox ++ arrived)) [
      | inl e ↦ rw (receive-none h ms arrived t p e, ← count-append, e)
      | inr (m, rest, e) ↦
          let p' : Parent = record p { mailbox = popped arrived p rest } in
          rw (
            receive-some h ms arrived t p m rest e,
            on_message-count m t p' (other m.tag m.payload),
            append-nil,
            ← count-append,
            e,
          )
    ]

    round-late :
        (turn : Turn) (t : Task) (p : Parent)
        → late ms turn ≡ true
        → round h ms turn t p ≡ done (record { status = timeout; value = 0 }) t p
    unfolding round
    round-late turn t p e = rw e refl

    -- A round that is not late takes all that comes in its turn.
    round-count :
        (turn : Turn) (t : Task) (p : Parent)
        → late ms turn ≡ false
        → ((tag payload : ℕ) → uses t tag payload ≡ true → f tag payload ≡ false)
        → count_after (round h ms turn t p) ≡ count f (contents p.mailbox) + count f turn.arrived
    unfolding round
    round-count turn t p e other = rw e (receive-count turn.arrived t p other)

    await_loop-count :
        (turns : List Turn) (t : Task) (p : Parent)
        → ((tag payload : ℕ) → uses t tag payload ≡ true → f tag payload ≡ false)
        → count_after (await_loop h ms turns t p)
          ≡ count f (contents p.mailbox) + count f (arrivals (take (loop_turns ms turns t p) turns))
    unfolding await_loop count loop_turns
    await_loop-count [] t p other = omega arith
    await_loop-count (turn ∷ turns) t p other = elim (Bool-cases (late ms turn)) [
      | inl e ↦
          rw
            (
              loop-done h ms turn turns t t p p _ (round-late turn t p e),
              turns-late ms turn turns t p e,
            )
            (omega arith)
      | inr e ↦
          let all = round-count turn t p e other in
          elim (Verdict-cases (round h ms turn t p)) [
            | inl (a, t', p', r) ↦
                rw
                  (
                    loop-done h ms turn turns t t' p p' a r,
                    turns-done ms turn turns a t t' p p' e r,
                  )
                  (rw (append-nil, ← r) all)
            | inr (p', r) ↦
                let rest = await_loop-count turns t p' other in
                let all' : count f (contents p'.mailbox)
                    ≡ count f (contents p.mailbox) + count f turn.arrived =
                  rw r at all in
                rw (loop-again h ms turn turns t p p' r, turns-again ms turn turns t p p' e r)
                  (rw
                    (
                      rest,
                      all',
                      count-append f turn.arrived
                          (arrivals (take (loop_turns ms turns t p') turns)),
                    )
                    (omega arith))
          ]
    ]

    -- Of the messages that a test on tag and payload counts, none of which the wait keeps for itself,
    -- a wait leaves as many as there were in the mailbox and have come in the turns it has taken,
    -- however it ends: these are the turns up to the one that answers, without it if it is late.
    pub await-count :
        (turns : List Turn) (t : Task) (p : Parent)
        → ((tag payload : ℕ) → uses t tag payload ≡ true → f tag payload ≡ false)
        → count_after (await h ms turns t p)
          ≡ count f (contents p.mailbox)
            + count f (arrivals (take (turns_taken ms turns t p) turns))
    unfolding await count turns_taken
    await-count turns t p other = elim (Bool-cases (is_live t)) [
      | inl live ↦ rw (live, turns_taken) (await_loop-count turns t p other)
      | inr dead ↦ rw (dead, turns_taken) (omega arith)
    ]
