-- ===== src/Mailbox/Receive/Order.antt =====
-- In which order a receiver of src/swarmrt_native.c gets its messages, by tag or by a receive that
-- takes any message, and what the clean-up of a killed process frees.
use swarmrt.Base.{
  ℕ, ◌≡◌, refl, sym, ap, ◌∙◌, ◌⊎◌, inl, inr, List, [], ◌∷◌, ◌++◌, Bool, true, Option, ◌==◌,
  append-nil, append_assoc, arith, select, All, Bool-cases, ==_iff, select-append,
}
use swarmrt.Mailbox.{Msg}
use swarmrt.Mailbox.Queue.{with_tag}
use swarmrt.Mailbox.Receive.{
  Want, any, tagged, Place, outside, start, announce, recheck, holding, undecided, parked, resumed,
  dead, Machine, wake, at_start, at_recheck, at_holding, at_undecided, at_resumed, receiver_at,
  dispatch_at, call_at, Event, send, kill, wake_owed, expire, move, dispatch, call, step, run,
}
use swarmrt.Mailbox.Receive.Passes.{Fits, pending, finished, freed, sent, FitsEvent, step-Passes}

-- The messages that leave the machine, in turn: those that user code has finished with, and those that
-- are freed when a killed process is cleaned up.
pub log : Machine → List Event → List Msg
log s [] = []
log s (e ∷ es) = (finished e s.place ++ freed s e) ++ log (step s e) es

pub all_sent : List Event → List Msg
all_sent [] = []
all_sent (e ∷ es) = sent e ++ all_sent es

want-move : (s : Machine) (late : Bool) (q : Place) → (receiver_at q late s).want ≡ s.want
unfolding receiver_at
want-move s late (outside r) = refl
want-move s late start = unfold at_start in ground arith
want-move s late announce = refl
want-move s late recheck = unfold at_recheck in ground arith
want-move s late (holding m) = unfold at_holding in ground arith
want-move s late undecided = unfold at_undecided in ground arith
want-move s late (parked b) = refl
want-move s late (resumed b) = unfold at_resumed in ground arith
want-move s late dead = refl

want-dispatch : (s : Machine) (q : Place) → (dispatch_at q s).want ≡ s.want
unfolding dispatch_at
want-dispatch s (parked b) = ground arith
want-dispatch s start = refl
want-dispatch s _ = refl

want-wake : (s : Machine) → (wake s).want ≡ s.want
unfolding wake
want-wake s = ground arith

want-call :
    (s : Machine) (w : Want) (t : Option ℕ) (q : Place)
    → ((call_at q w t s).want ≡ s.want) ⊎ ((call_at q w t s).want ≡ w)
unfolding call_at
want-call s w t (outside r) = inr refl
want-call s w t start = inl refl
want-call s w t _ = inl refl

module _ (p : Msg → Bool) where
  regroup :
      (a b c d e l r : List Msg)
      → select p (a ++ b) ≡ select p (c ++ d)
      → select p (d ++ e) ≡ select p (l ++ r)
      → select p (a ++ (b ++ e)) ≡ select p ((c ++ l) ++ r)
  regroup a b c d e l r h k =
      rw (← append_assoc a b e, append_assoc c l r)
        (rw (select-append p (a ++ b) e, h)
          (rw
            (
              select-append p c d,
              append_assoc,
              ← select-append p d e,
              k,
              ← select-append p c (l ++ r),
            )
            refl))

  Fits-step : (s : Machine) (e : Event) → Fits s.want p → FitsEvent p e → Fits (step s e).want p
  unfolding step
  Fits-step s (send m) f g = f
  Fits-step s kill f g = f
  Fits-step s wake_owed f g = elim (Bool-cases (s.owed == 0)) [
    | inl e ↦ rw e f
    | inr e ↦ rw e (rw want-wake f)
  ]
  Fits-step s expire f g = rw (want-wake s) f
  Fits-step s (move late) f g = rw (want-move s late s.place) f
  Fits-step s dispatch f g = rw (want-dispatch s s.place) f
  Fits-step s (call w t) f g = elim (want-call s w t s.place) [ inl e ↦ rw e f | inr e ↦ rw e g ]

  run-select :
      (s : Machine) (es : List Event)
      → Fits s.want p
      → All (FitsEvent p) es
      → select p (pending s ++ all_sent es) ≡ select p (log s es ++ pending (run s es))
  unfolding run log all_sent
  run-select s [] f g = simp append-nil
  run-select s (e ∷ es) f g =
      let next = run-select (step s e) es (Fits-step s e f g.0) g.1 in
      regroup (pending s) (sent e) (finished e s.place ++ freed s e) (pending (step s e))
        (all_sent es) _ _ (step-Passes p s e f) next

select_all : (ms : List Msg) → select (λ _. true) ms ≡ ms
unfolding select
select_all [] = refl
select_all (m ∷ ms) = ap (λ l. m ∷ l) (select_all ms)

Fits-tag : (k : ℕ) (w : Want) → Fits w (λ m. m.tag == k)
Fits-tag k any = tt
Fits-tag k (tagged t) = elim (Bool-cases (t == k)) [
  | inl e ↦ inr (ap {B = Msg → Bool} (λ j m. m.tag == j) (sym ((==_iff t k).0 e)))
  | inr e ↦ inl (λ m h. rw h e)
]

FitsEvent-tag : (k : ℕ) (es : List Event) → All (FitsEvent (λ m. m.tag == k)) es
FitsEvent-tag k [] = tt
FitsEvent-tag k (call w t ∷ es) = (Fits-tag k w, FitsEvent-tag k es)
FitsEvent-tag k (send m ∷ es) = (tt, FitsEvent-tag k es)
FitsEvent-tag k (_ ∷ es) = (tt, FitsEvent-tag k es)

-- For every tag, the messages of that tag that were pending at first and those sent since are, in
-- this order, the ones that have left the mailbox and those still pending, whatever the receive
-- functions called and the order of the steps of senders, killers, timers, scheduler and receiver; a
-- message leaves when user code has received it and calls a receive function again, or when the
-- scheduler cleans the process up after a kill and frees what it has not read. So none is doubled,
-- moved before an older one of its tag, or lost but by that clean-up.
pub run-with_tag :
    (k : ℕ) (s : Machine) (es : List Event)
    → with_tag k (pending s ++ all_sent es) ≡ with_tag k (log s es ++ pending (run s es))
run-with_tag k s es = run-select (λ m. m.tag == k) s es (Fits-tag k s.want) (FitsEvent-tag k es)

-- Every receive of a list of steps is one that takes any message.
abbrev pub TakesAny : Event → Type 0
TakesAny (call any t) = Unit
TakesAny (call (tagged k) t) = ⊥
TakesAny e = Unit

FitsEvent-any : (es : List Event) → All TakesAny es → All (FitsEvent (λ _. true)) es
FitsEvent-any [] h = tt
FitsEvent-any (call any t ∷ es) h = (tt, FitsEvent-any es h.1)
FitsEvent-any (call (tagged k) t ∷ es) h = absurd h.0
FitsEvent-any (send m ∷ es) h = (tt, FitsEvent-any es h.1)
FitsEvent-any (_ ∷ es) h = (tt, FitsEvent-any es h.1)

-- If every receive takes any message, then messages of all tags are received, or freed by a clean-up,
-- in the order in which they were sent.
pub run-log :
    (s : Machine) (es : List Event)
    → s.want ≡ any
    → All TakesAny es
    → pending s ++ all_sent es ≡ log s es ++ pending (run s es)
run-log s es w h =
    let fits : Fits s.want (λ _. true) = rw w tt in
    sym (select_all (pending s ++ all_sent es))
    ∙ (run-select (λ _. true) s es fits (FitsEvent-any es h)
        ∙ select_all (log s es ++ pending (run s es)))
