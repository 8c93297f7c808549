-- ===== src/Mailbox/Receive.antt =====
-- The receive loops of src/swarmrt_native.c (`sw_receive`, `sw_receive_tagged`, `sw_receive_any`)
-- with what runs beside them: senders, the wake-ups of timers and kills, and the scheduler. The
-- three loops are one code but for the pop that they call. A step of the receiver goes from one
-- access of shared memory to the next, and a run is a list of steps of whoever the scheduler of the
-- machine picks. Counters for statistics are left out. A machine is one process, until its slot in the
-- arena is taken again; the return of its own function is no step.
pub mod Waking
pub mod Passes
pub mod Order
use swarmrt.Base.{
  ℕ, zero, suc, ◌+◌, ◌-◌, ◌≡◌, List, [], ◌∷◌, ◌++◌, Bool, true, false, not, ◌&&◌, ◌||◌, Option,
  none, some, if◌then◌else◌, ◌==◌,
}
use swarmrt.Mailbox.{Msg, Mailbox, empty, push, drain, pop_first, pop_tagged, put_back}

-- `sw_proc_state_t`
pub data ProcState : Type 0 where
  free runnable running waiting suspended exiting garbing : ProcState

-- Which pop a receive function calls.
pub data Want : Type 0 where
  any : Want
  tagged : ℕ → Want

-- Where the receiver stands.
pub data Place : Type 0 where
  -- in user code, the result of the last receive in hand
  outside : Option Msg → Place
  -- at the first drain of the loop
  start : Place
  -- before the store of the flag `waiting`
  announce : Place
  -- at the final drain
  recheck : Place
  -- before the exchange of `waiting`, a message in hand
  holding : Msg → Place
  -- the final drain found nothing
  undecided : Place
  -- swapped out; the flag says that the timeout has passed, so that it returns NULL once resumed
  parked : Bool → Place
  -- resumed by the scheduler
  resumed : Bool → Place
  -- cleaned up by the scheduler; a sender that still has its address pushes on the mailbox of its slot
  dead : Place

-- A process that receives. `queued` counts its entries in the run queue, and `owed` the senders and
-- killers that have written but not yet called `mailbox_wake`.
pub record Machine : Type 0 where
  pub mailbox : Mailbox
  pub flag : Bool
  pub state : ProcState
  pub kill_flag : Bool
  pub queued : ℕ
  pub owed : ℕ
  pub want : Want
  pub timeout : Option ℕ
  pub place : Place

-- `mailbox_wake`: the exchange of `waiting`, and the push on the run queue if it was set.
unfoldable pub wake : Machine → Machine
wake s = if s.flag then record s { flag = false; queued = s.queued + 1 } else s

unfoldable pub pop_wanted : Want → Mailbox → Option (Msg × Mailbox)
pop_wanted any mb = pop_first mb
pop_wanted (tagged t) mb = pop_tagged t mb

-- `timeout_ms == 0`; `none` is (uint64_t)-1, no timeout.
unfoldable pub polls : Option ℕ → Bool
polls none = false
polls (some ms) = ms == 0

-- The first drain and pop.
unfoldable pub at_start : Machine → Machine
unfolding pop_wanted polls
at_start s =
    let mb = drain s.mailbox in
    elim (pop_wanted s.want mb) [
      | some (m, mb') ↦ record s { mailbox = mb'; place = outside (some m) }
      | none ↦
          if polls s.timeout
          then record s { mailbox = mb; place = outside none }
          else record s { mailbox = mb; state = waiting; place = announce }
    ]

-- The final drain and pop.
unfoldable pub at_recheck : Machine → Machine
unfolding pop_wanted
at_recheck s =
    let mb = drain s.mailbox in
    elim (pop_wanted s.want mb) [
      | some (m, mb') ↦ record s { mailbox = mb'; place = holding m }
      | none ↦ record s { mailbox = mb; place = undecided }
    ]

-- The exchange of `waiting` with a message in hand: return it, or put it back and swap out.
unfoldable pub at_holding : Msg → Machine → Machine
at_holding m s =
    if s.flag
    then record s { flag = false; state = running; place = outside (some m) }
    else record s { mailbox = put_back m s.mailbox; place = parked false }

-- Nothing was found. With a timeout that has passed (`late`) the flag is taken back, unless a sender
-- did so: then the process swaps out once more and returns NULL. Else a timer is set, if there is a
-- timeout, and the process swaps out.
unfoldable pub at_undecided : Bool → Machine → Machine
at_undecided late s = elim s.timeout [
  | none ↦ record s { place = parked false }
  | some _ ↦
      if late
      then (if s.flag
          then record s { flag = false; state = running; place = outside none }
          else record s { place = parked true })
      else record s { place = parked false }
]

-- After a swap: return NULL if the timeout has passed or the process was killed, else loop.
unfoldable pub at_resumed : Bool → Machine → Machine
at_resumed late s =
    if late || s.kill_flag
    then record s { state = running; place = outside none }
    else record s { state = running; place = start }

-- One step of the receiver. User code and a parked process take none.
unfoldable pub receiver_at : Place → Bool → Machine → Machine
receiver_at (outside r) late s = s
receiver_at start late s = at_start s
receiver_at announce late s = record s { flag = true; place = recheck }
receiver_at recheck late s = at_recheck s
receiver_at (holding m) late s = at_holding m s
receiver_at undecided late s = at_undecided late s
receiver_at (parked b) late s = s
receiver_at (resumed b) late s = at_resumed b s
receiver_at dead late s = s

-- The part of `scheduler_loop` that takes a process from the run queue. A killed one is cleaned up:
-- `process_destroy` frees its messages. Another one is run.
unfoldable pub dispatch_at : Place → Machine → Machine
dispatch_at (parked b) s =
    if s.queued == 0
    then s
    else (if s.kill_flag
        then record s { mailbox = empty; queued = s.queued - 1; state = exiting; place = dead }
        else record s { queued = s.queued - 1; state = running; place = resumed b })
dispatch_at p s = s

-- User code calls a receive function.
unfoldable pub call_at : Place → Want → Option ℕ → Machine → Machine
call_at (outside r) w t s = record s { want = w; timeout = t; place = start }
call_at p w t s = s

pub data Event : Type 0 where
  -- `sw_send`, `sw_send_tagged` or `deliver_signal` pushes a message; its wake-up is owed
  send : Msg → Event
  -- `sw_process_kill` or an exit signal sets the kill flag; its wake-up is owed
  kill : Event
  -- one owed call of `mailbox_wake`
  wake_owed : Event
  -- the timer of a receive with a timeout fires: `mailbox_wake`
  expire : Event
  -- the receiver moves; the flag is what a look at the clock says
  move : Bool → Event
  -- the scheduler takes the process from the run queue
  dispatch : Event
  -- user code calls a receive function
  call : Want → Option ℕ → Event

unfoldable pub step : Machine → Event → Machine
unfolding wake at_start at_recheck at_holding at_undecided at_resumed receiver_at dispatch_at
    call_at
step s (send m) = record s { mailbox = push m s.mailbox; owed = s.owed + 1 }
step s kill = record s { kill_flag = true; owed = s.owed + 1 }
step s wake_owed = if s.owed == 0 then s else wake (record s { owed = s.owed - 1 })
step s expire = wake s
step s (move late) = receiver_at s.place late s
step s dispatch = dispatch_at s.place s
step s (call w t) = call_at s.place w t s

unfoldable pub run : Machine → List Event → Machine
run s [] = s
run s (e ∷ es) = run (step s e) es
