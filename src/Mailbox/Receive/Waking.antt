-- ===== src/Mailbox/Receive/Waking.antt =====
-- No wake-up is lost and none is doubled: the protocol of the flag `waiting` between the receive
-- loops, `mailbox_wake` and the scheduler.
use swarmrt.Base.{
  ℕ, ◌+◌, ◌<◌, ◌≡◌, refl, ◌≢◌, ◌⊎◌, inl, inr, List, [], ◌∷◌, Bool, true, false, Option, none, some,
  append-nil, arith, select, Bool-cases, Option-cases,
}
use swarmrt.Mailbox.{
  Msg, Mailbox, push, drain, pop_first, pop_head, pop_tagged, take_tagged, unlink_tagged,
}
use swarmrt.Mailbox.Queue.{drain_lem, with_tag, pop_first-none, pop_tagged-none}
use swarmrt.Mailbox.Receive.{
  waiting, Want, any, tagged, Place, outside, start, announce, recheck, holding, undecided, parked,
  resumed, dead, Machine, wake, pop_wanted, polls, at_start, at_recheck, at_holding, at_undecided,
  at_resumed, receiver_at, dispatch_at, call_at, Event, send, kill, wake_owed, expire, move,
  dispatch, call, step, run,
}

abbrev pub to_nat : Bool → ℕ
to_nat true = 1
to_nat false = 0

-- How many wake-ups a place stands ready for: one between the store of the flag and the next run.
abbrev pub due : Place → ℕ
due (outside r) = 0
due start = 0
due announce = 0
due recheck = 1
due (holding m) = 1
due undecided = 1
due (parked b) = 1
due (resumed b) = 0
due dead = 0

-- No message of the private queue is one that the receiver waits for.
abbrev pub NoneWanted : Want → Mailbox → Type 0
NoneWanted any mb = mb.queue ≡ []
NoneWanted (tagged t) mb = with_tag t mb.queue ≡ []

-- The receiver has looked at all that is in the private queue.
abbrev pub Searched : Place → Want → Mailbox → Type 0
Searched (outside r) w mb = Unit
Searched start w mb = Unit
Searched announce w mb = Unit
Searched recheck w mb = Unit
Searched (holding m) w mb = Unit
Searched undecided w mb = NoneWanted w mb
Searched (parked b) w mb = NoneWanted w mb
Searched (resumed b) w mb = Unit
Searched dead w mb = Unit

-- While it has looked and its flag is up, every undrained message has a wake-up to come.
abbrev pub Covered : Place → Mailbox → ℕ → Type 0
Covered (outside r) mb owed = Unit
Covered start mb owed = Unit
Covered announce mb owed = Unit
Covered recheck mb owed = Unit
Covered (holding m) mb owed = Unit
Covered undecided mb owed = (mb.sig ≡ []) ⊎ (0 < owed)
Covered (parked b) mb owed = (mb.sig ≡ []) ⊎ (0 < owed)
Covered (resumed b) mb owed = Unit
Covered dead mb owed = Unit

pub record IsSound (s : Machine) : Type 0 where
  pub balance : s.queued + to_nat s.flag ≡ due s.place
  pub searched : s.flag ≡ true → Searched s.place s.want s.mailbox
  pub covered : s.flag ≡ true → Covered s.place s.mailbox s.owed

send-IsSound : (s : Machine) (m : Msg) → IsSound s → IsSound (step s (send m))
unfolding step push
send-IsSound s m v = ground arith

wake-IsSound : (s : Machine) → IsSound s → IsSound (wake s)
unfolding wake
wake-IsSound s v = ground arith

wake_owed-IsSound : (s : Machine) → IsSound s → IsSound (step s wake_owed)
unfolding step
wake_owed-IsSound s v = ground arith

sig-drain : (mb : Mailbox) → (drain mb).sig ≡ []
sig-drain mb = rw drain_lem refl

-- A pop that finds nothing leaves nothing wanted.
pop_wanted-none : (w : Want) (mb : Mailbox) → pop_wanted w mb ≡ none → NoneWanted w mb
unfolding pop_wanted
pop_wanted-none any mb h = pop_first-none mb h
pop_wanted-none (tagged t) mb h = pop_tagged-none t mb h

start-IsSound : (s : Machine) → s.flag ≡ false → s.queued ≡ 0 → IsSound (at_start s)
unfolding at_start
start-IsSound s f q = ground arith

recheck-IsSound : (s : Machine) → s.queued + to_nat s.flag ≡ 1 → IsSound (at_recheck s)
unfolding at_recheck
recheck-IsSound s b = elim (Option-cases (pop_wanted s.want (drain s.mailbox))) [
  | inl none_found ↦
      let searched = pop_wanted-none s.want (drain s.mailbox) none_found in
      rw (none_found, at_recheck)
        (record { balance = b; searched = λ _. searched; covered = λ _. inl (sig-drain s.mailbox) })
  | inr ((m, mb), found) ↦
      rw (found, at_recheck) (record { balance = b; searched = λ _. tt; covered = λ _. tt })
]

move-IsSound :
    (s : Machine) (late : Bool) (p : Place)
    → s.place ≡ p
    → IsSound s
    → IsSound (receiver_at p late s)
unfolding receiver_at
move-IsSound s late (outside r) e v = v
move-IsSound s late start e v =
    start-IsSound s (ground (arith, v.balance)) (ground (arith, v.balance))
move-IsSound s late announce e v = ground (arith, v.balance)
move-IsSound s late recheck e v = recheck-IsSound s (ground (arith, v.balance))
move-IsSound s late (holding m) e v = unfold at_holding in ground (arith, v.balance)
move-IsSound s late undecided e v = unfold at_undecided in ground arith
move-IsSound s late (parked b) e v = v
move-IsSound s late (resumed b) e v = unfold at_resumed in ground (arith, v.balance)
move-IsSound s late dead e v = v

dispatch-IsSound : (s : Machine) (p : Place) → s.place ≡ p → IsSound s → IsSound (dispatch_at p s)
unfolding dispatch_at
dispatch-IsSound s (parked b) e v = ground arith
dispatch-IsSound s (outside r) e v = v
dispatch-IsSound s _ e v = v

call-IsSound :
    (s : Machine) (w : Want) (t : Option ℕ) (p : Place)
    → s.place ≡ p
    → IsSound s
    → IsSound (call_at p w t s)
unfolding call_at
call-IsSound s w t (outside r) e v = ground arith
call-IsSound s w t start e v = v
call-IsSound s w t _ e v = v

step-IsSound : (s : Machine) (e : Event) → IsSound s → IsSound (step s e)
unfolding step
step-IsSound s (send m) v = send-IsSound s m v
step-IsSound s kill v = ground arith
step-IsSound s wake_owed v = wake_owed-IsSound s v
step-IsSound s expire v = wake-IsSound s v
step-IsSound s (move late) v = move-IsSound s late s.place refl v
step-IsSound s dispatch v = dispatch-IsSound s s.place refl v
step-IsSound s (call w t) v = call-IsSound s w t s.place refl v

pub run-IsSound : (s : Machine) (es : List Event) → IsSound s → IsSound (run s es)
unfolding run
run-IsSound s [] v = v
run-IsSound s (e ∷ es) v = run-IsSound (step s e) es (step-IsSound s e v)

take_tagged_of_none : (t : ℕ) (q : List Msg) → with_tag t q ≡ [] → take_tagged t q ≡ none
unfolding take_tagged select
take_tagged_of_none t [] h = refl
take_tagged_of_none t (x ∷ q) h = ground (arith, take_tagged_of_none t q)

pop_wanted_of_none : (w : Want) (mb : Mailbox) → NoneWanted w mb → pop_wanted w mb ≡ none
unfolding pop_wanted pop_first pop_tagged
pop_wanted_of_none any mb h = rw (h, pop_head) refl
pop_wanted_of_none (tagged t) mb h = rw (take_tagged_of_none t mb.queue h, unlink_tagged) refl

drained_same : (w : Want) (mb : Mailbox) → mb.sig ≡ [] → NoneWanted w mb → NoneWanted w (drain mb)
drained_same any mb e h = rw drain_lem (rw (e, append-nil) h)
drained_same (tagged t) mb e h = rw drain_lem (rw (e, append-nil) h)

-- A process that has swapped out of a receive, and whose mailbox holds a message that it waits for,
-- is in the run queue once, or its flag is up and a sender still owes it a wake-up; in every case it
-- is in the run queue at most once. This holds after any steps of senders, killers, timers, the
-- scheduler and the process itself, from any sound machine.
pub run_wakes :
    (s : Machine) (es : List Event) (late : Bool)
    → IsSound s
    → (run s es).place ≡ parked late
    → pop_wanted (run s es).want (drain (run s es).mailbox) ≢ none
    → ((run s es).queued ≡ 1) ⊎ (((run s es).flag ≡ true) × (0 < (run s es).owed))
run_wakes s es late v at found = wakes (run s es) late (run-IsSound s es v) at found
  where
    wakes :
        (s : Machine) (late : Bool)
        → IsSound s
        → s.place ≡ parked late
        → pop_wanted s.want (drain s.mailbox) ≢ none
        → (s.queued ≡ 1) ⊎ ((s.flag ≡ true) × (0 < s.owed))
    wakes s late v at found = elim (Bool-cases s.flag) [
      | inl up ↦
          let looked : NoneWanted s.want s.mailbox = rw at at (v.searched up) in
          let sent : (s.mailbox.sig ≡ []) ⊎ (0 < s.owed) = rw at at (v.covered up) in
          inr (
            up,
            elim sent [
              | inl quiet ↦ absurd (
                  found (
                    pop_wanted_of_none s.want (drain s.mailbox)
                      (drained_same s.want s.mailbox quiet looked)))
              | inr some_owed ↦ some_owed
            ],
          )
      | inr down ↦ inl (ground (arith, v.balance))
    ]

-- A swapped-out process that waits on a message in its mailbox, and to which a wake-up is owed, gets
-- that message by the wake-up, its turn in the scheduler, and two moves of its own, whatever the
-- clock says.
pub wake-delivers :
    (s : Machine) {m : Msg} {mb : Mailbox} (late : Bool)
    → s.place ≡ parked false
    → s.flag ≡ true
    → s.kill_flag ≡ false
    → 0 < s.owed
    → pop_wanted s.want (drain s.mailbox) ≡ some (m, mb)
    → (run s (wake_owed ∷ dispatch ∷ move late ∷ move late ∷ [])).place ≡ outside (some m)
unfolding run step receiver_at at_resumed at_start dispatch_at wake
wake-delivers s late at up alive some_owed found = ground arith

-- A process with an empty mailbox and no timeout.
record IsQuiet (s : Machine) : Type 0 where
  no_sig : s.mailbox.sig ≡ []
  no_queue : s.mailbox.queue ≡ []
  forever : s.timeout ≡ none

NoneWanted-nil : (w : Want) (mb : Mailbox) → mb.queue ≡ [] → NoneWanted w mb
unfolding select
NoneWanted-nil any mb h = h
NoneWanted-nil (tagged t) mb h = rw h refl

module _ (s : Machine) (quiet : IsQuiet s) where
  drain_quiet : drain s.mailbox ≡ s.mailbox
  drain_quiet = rw (drain_lem, quiet.no_sig, quiet.no_queue) (ground arith)

  pop_quiet : pop_wanted s.want (drain s.mailbox) ≡ none
  pop_quiet =
      rw drain_quiet
        (pop_wanted_of_none s.want s.mailbox (NoneWanted-nil s.want s.mailbox quiet.no_queue))

  at_start_quiet : at_start s ≡ record s { state = waiting; place = announce }
  unfolding at_start polls
  at_start_quiet = ground (arith, pop_quiet, drain_quiet)

  at_recheck_quiet : at_recheck s ≡ record s { place = undecided }
  unfolding at_recheck
  at_recheck_quiet = ground (arith, pop_quiet, drain_quiet)

-- The four moves of a receive on an empty mailbox.
quiet_run :
    (s : Machine) (late : Bool)
    → IsQuiet s
    → s.place ≡ start
    → run s (move late ∷ move late ∷ move late ∷ move late ∷ [])
      ≡ record s { flag = true; state = waiting; place = parked false }
unfolding run step receiver_at at_undecided
quiet_run s late quiet at =
    let s₁ : Machine = record s { state = waiting; place = announce } in
    let s₂ : Machine = record s { flag = true; state = waiting; place = recheck } in
    ground (
      arith,
      at_start_quiet s quiet,
      at_recheck_quiet s₂
          (record { no_sig = quiet.no_sig; no_queue = quiet.no_queue; forever = quiet.forever }),
      quiet.forever,
    )

-- A process that is killed while it runs, with nothing in its mailbox, and then receives with no
-- timeout, sleeps with its kill flag set: it is in no run queue, no wake-up is owed to it, and the
-- scheduler and its own moves leave it there.
pub kill-unseen :
    (s : Machine) (late : Bool)
    → s.place ≡ start
    → s.queued + s.owed ≡ 0
    → s.kill_flag ≡ true
    → s.timeout ≡ none
    → s.mailbox.sig ≡ []
    → s.mailbox.queue ≡ []
    → let t = run s (move late ∷ move late ∷ move late ∷ move late ∷ []) in
      (t.place ≡ parked false)
      × (t.kill_flag ≡ true)
      × (t.queued + t.owed ≡ 0)
      × (step t dispatch ≡ t)
      × (step t (move late) ≡ t)
      × (step t wake_owed ≡ t)
kill-unseen s late at idle killed forever no_sig no_queue =
    rw (quiet_run s late (record { no_sig = no_sig; no_queue = no_queue; forever = forever }) at) (
      unfold step dispatch_at receiver_at in (refl, killed, idle, ground arith, refl, ground arith))
