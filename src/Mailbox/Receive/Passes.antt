-- ===== src/Mailbox/Receive/Passes.antt =====
-- What each step of a receive does to the messages that are pending.
use swarmrt.Base.{
  ℕ, ◌≡◌, refl, ap, ◌∙◌, ◌⊎◌, inl, inr, List, [], ◌∷◌, ◌++◌, Bool, true, false, not, ◌&&◌,
  if◌then◌else◌, Option, none, some, ◌==◌, reverse, append-nil, append_assoc, arith, select,
  Bool-cases, Option-cases, ==_refl, select-append,
}
use swarmrt.Mailbox.{Msg, Mailbox, drain, put_back}
use swarmrt.Mailbox.Queue.{drain_lem, pop_first_lem, pop_tagged_lem, Split, contents, contents-push}
use swarmrt.Mailbox.Receive.{
  Want, any, tagged, Place, outside, start, announce, recheck, holding, undecided, parked, resumed,
  dead, Machine, wake, pop_wanted, polls, at_start, at_recheck, at_holding, at_undecided,
  at_resumed, receiver_at, dispatch_at, call_at, Event, send, kill, wake_owed, expire, move,
  dispatch, call, step,
}

-- A test on messages that cannot tell the order in which a receive function takes them from the
-- order of arrival.
abbrev pub Fits : Want → (Msg → Bool) → Type 0
Fits any p = Unit
Fits (tagged t) p = ((m : Msg) → m.tag ≡ t → p m ≡ false) ⊎ (p ≡ (λ m. m.tag == t))

-- The message in the hands of the receiver or of the user code.
abbrev pub held : Place → List Msg
held (outside (some m)) = m ∷ []
held (outside none) = []
held (holding m) = m ∷ []
held start = []
held announce = []
held recheck = []
held undecided = []
held (parked b) = []
held (resumed b) = []
held dead = []

-- All messages that user code has not finished with, oldest first.
abbrev pub pending : Machine → List Msg
pending s = held s.place ++ contents s.mailbox

-- The message that user code lets go by calling a receive function again.
abbrev pub finished : Event → Place → List Msg
finished (call w t) (outside (some m)) = m ∷ []
finished e p = []

-- The scheduler takes a process that was killed.
abbrev pub reaps : Machine → Place → Bool
reaps s (parked b) = not (s.queued == 0) && s.kill_flag
reaps s (outside r) = false
reaps s start = false
reaps s announce = false
reaps s recheck = false
reaps s (holding m) = false
reaps s undecided = false
reaps s (resumed b) = false
reaps s dead = false

-- The messages that are freed, unread, when a killed process is cleaned up.
abbrev pub freed : Machine → Event → List Msg
freed s dispatch = if reaps s s.place then contents s.mailbox else []
freed s (send m) = []
freed s kill = []
freed s wake_owed = []
freed s expire = []
freed s (move late) = []
freed s (call w t) = []

abbrev pub sent : Event → List Msg
sent (send m) = m ∷ []
sent e = []

contents-drain : (mb : Mailbox) → contents (drain mb) ≡ contents mb
contents-drain mb = rw drain_lem (simp append-nil)

module _ (p : Msg → Bool) where
  select_one : (m : Msg) (ms : List Msg) → p m ≡ false → select p (m ∷ ms) ≡ select p ms
  unfolding select
  select_one m ms h = rw h

  select_hit : (m : Msg) (ms : List Msg) → p m ≡ true → select p (m ∷ ms) ≡ m ∷ select p ms
  unfolding select
  select_hit m ms h = rw h

  Split-select :
      (t : ℕ) {q rest : List Msg} {m : Msg}
      → Fits (tagged t) p
      → Split t q m rest
      → select p (m ∷ rest) ≡ select p q
  Split-select t {q} {rest} {m} (inl others) s = rw (
    s.whole,
    s.others,
    select_one m (s.before ++ s.behind) (others m s.tagged),
    select-append,
    select-append,
    select_one m s.behind (others m s.tagged),
  )
  Split-select t {q} {rest} {m} (inr same) s =
      let gone : select p s.before ≡ [] = rw same s.oldest in
      let hit : p m ≡ true = rw (same, s.tagged) (==_refl t) in
      rw (
        s.whole,
        s.others,
        select_hit m (s.before ++ s.behind) hit,
        select-append,
        select-append,
        gone,
        select_hit m s.behind hit,
      )

  pop_wanted-select :
      (w : Want) (mb : Mailbox) {mb' : Mailbox} {m : Msg}
      → Fits w p
      → pop_wanted w mb ≡ some (m, mb')
      → select p (m ∷ contents mb') ≡ select p (contents mb)
  unfolding pop_wanted
  pop_wanted-select any mb fits h = let (q, sig, _) = pop_first_lem h in rw (q, sig)
  pop_wanted-select (tagged t) mb {mb'} {m} fits h =
      let (split, sig, _) = pop_tagged_lem t h in
      rw (sig, select-append)
        (select-append p (m ∷ mb'.queue) (reverse mb.sig)
          ∙ ap (λ l. l ++ select p (reverse mb.sig)) (Split-select t fits split))

  abbrev pub FitsEvent : Event → Type 0
  FitsEvent (call w t) = Fits w p
  FitsEvent e = Unit

  -- What a step must keep.
  abbrev Kept : Machine → Machine → Type 0
  Kept s t = select p (pending s) ≡ select p (pending t)

  start-Kept : (s : Machine) → s.place ≡ start → Fits s.want p → Kept s (at_start s)
  unfolding at_start
  start-Kept s at fits = elim (Option-cases (pop_wanted s.want (drain s.mailbox))) [
    | inl e ↦
        rw (at, e, at_start)
          (elim (Bool-cases (polls s.timeout)) [
            | inl now ↦ rw now (rw contents-drain refl)
            | inr later ↦ rw later (rw contents-drain refl)
          ])
    | inr ((m, mb), e) ↦
        rw (at, e, at_start)
          (rw (pop_wanted-select s.want (drain s.mailbox) fits e, contents-drain) refl)
  ]

  recheck-Kept : (s : Machine) → s.place ≡ recheck → Fits s.want p → Kept s (at_recheck s)
  unfolding at_recheck
  recheck-Kept s at fits = elim (Option-cases (pop_wanted s.want (drain s.mailbox))) [
    | inl e ↦ rw (at, e, at_recheck) (rw contents-drain refl)
    | inr ((m, mb), e) ↦
        rw (at, e, at_recheck)
          (rw (pop_wanted-select s.want (drain s.mailbox) fits e, contents-drain) refl)
  ]

  move-Kept :
      (s : Machine) (late : Bool) (q : Place)
      → s.place ≡ q
      → Fits s.want p
      → Kept s (receiver_at q late s)
  unfolding receiver_at
  move-Kept s late (outside r) e f = refl
  move-Kept s late start e f = start-Kept s e f
  move-Kept s late announce e f = rw e refl
  move-Kept s late recheck e f = recheck-Kept s e f
  move-Kept s late (holding m) e f = ap (select p) (unfold at_holding put_back in ground arith)
  move-Kept s late undecided e f = ap (select p) (unfold at_undecided in ground arith)
  move-Kept s late (parked b) e f = refl
  move-Kept s late (resumed b) e f = ap (select p) (unfold at_resumed in ground arith)
  move-Kept s late dead e f = refl

  -- A dispatch keeps the messages, or frees them all.
  dispatch-Passes :
      (s : Machine) (q : Place)
      → s.place ≡ q
      → pending s ≡ (if reaps s q then contents s.mailbox else []) ++ pending (dispatch_at q s)
  unfolding dispatch_at
  dispatch-Passes s (parked b) e = elim (Bool-cases (s.queued == 0)) [
    | inl empty_queue ↦ rw (empty_queue, e) refl
    | inr some_queued ↦ rw some_queued (elim (Bool-cases s.kill_flag) [
      | inl killed ↦ rw (killed, e) (simp append-nil)
      | inr runs ↦ rw (runs, e) refl
    ])
  ]
  dispatch-Passes s (outside r) e = refl
  dispatch-Passes s start e = refl
  dispatch-Passes s _ e = refl

  -- One step moves messages from the senders to the pending ones, and from these to the user code, or
  -- frees them.
  abbrev Passes : Machine → Event → Type 0
  Passes s e =
      select p (pending s ++ sent e)
      ≡ select p (finished e s.place ++ freed s e ++ pending (step s e))

  call-Passes :
      (s : Machine) (w : Want) (t : Option ℕ) (q : Place)
      → s.place ≡ q
      → pending s ≡ finished (call w t) q ++ pending (call_at q w t s)
  unfolding call_at
  call-Passes s w t (outside (some m)) e = ground arith
  call-Passes s w t (outside none) e = ground arith
  call-Passes s w t start e = refl
  call-Passes s w t _ e = refl

  pub step-Passes : (s : Machine) (e : Event) → Fits s.want p → Passes s e
  unfolding step
  step-Passes s (send m) f =
      ap (select p) (rw contents-push (append_assoc (held s.place) (contents s.mailbox) (m ∷ [])))
  step-Passes s kill f = ap (select p) (simp append-nil)
  step-Passes s wake_owed f = ap (select p) (simp append-nil (unfold wake in ground arith))
  step-Passes s expire f = ap (select p) (simp append-nil (unfold wake in ground arith))
  step-Passes s (move late) f = simp append-nil (move-Kept s late s.place refl f)
  step-Passes s dispatch f = ap (select p) (simp append-nil (dispatch-Passes s s.place refl))
  step-Passes s (call w t) f = ap (select p) (simp append-nil (call-Passes s w t s.place refl))
