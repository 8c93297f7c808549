-- ===== src/Tests/Receiving.antt =====
-- A process that receives, on concrete steps.
use swarmrt.Base.{◌<◌, ◌≡◌, ◌⊎◌, ◌++◌, refl, List, [], ◌∷◌, true, false, none, some}
use swarmrt.Mailbox.{
  Msg, empty, push, turn, append_all, drain, pop_first, take_tagged, unlink_tagged, pop_tagged,
  put_back,
}
use swarmrt.Mailbox.Queue.{with_tag}
use swarmrt.Mailbox.Receive.{
  running, any, tagged, outside, start, parked, Machine, pop_wanted, Event, send, move, call, step,
  run, wake, polls, at_start, at_recheck, at_holding, at_undecided, at_resumed, receiver_at,
  dispatch_at, call_at, kill, wake_owed, dispatch,
}
use swarmrt.Mailbox.Receive.Waking.{IsSound, run_wakes}
use swarmrt.Mailbox.Receive.Passes.{pending}
use swarmrt.Mailbox.Receive.Order.{log, all_sent, run-with_tag}

abbrev hello : Msg
hello = record { tag = 7; payload = 100; from_pid = 1 }

abbrev world : Msg
world = record { tag = 9; payload = 200; from_pid = 2 }

-- A process in user code, with nothing in its mailbox.
abbrev idle : Machine
idle = record {
  mailbox = empty;
  flag = false;
  state = running;
  kill_flag = false;
  queued = 0;
  owed = 0;
  want = any;
  timeout = none;
  place = outside none;
}

idle-IsSound : IsSound idle
idle-IsSound = record { balance = refl; searched = λ _. tt; covered = λ _. tt }

-- It receives with no timeout and swaps out; then a message comes, whose wake-up is still owed.
abbrev falls_asleep : List Event
falls_asleep =
    call (tagged 9) none
    ∷ move false
    ∷ move false
    ∷ move false
    ∷ move false
    ∷ send hello
    ∷ send world
    ∷ []

run_wakes_example :
    ((run idle falls_asleep).queued ≡ 1)
    ⊎ (((run idle falls_asleep).flag ≡ true) × (0 < (run idle falls_asleep).owed))
unfolding run step wake pop_wanted polls at_start at_recheck at_holding at_undecided at_resumed
    receiver_at dispatch_at call_at push turn append_all drain pop_first take_tagged unlink_tagged
    pop_tagged put_back
run_wakes_example = run_wakes idle falls_asleep false idle-IsSound refl (λ e. cc)

run-with_tag_example :
    with_tag 9 (pending idle ++ all_sent falls_asleep)
    ≡ with_tag 9 (log idle falls_asleep ++ pending (run idle falls_asleep))
run-with_tag_example = run-with_tag 9 idle falls_asleep

-- Two messages, both received in turn.
abbrev two_received : List Event
two_received =
    send hello ∷ send world ∷ call any none ∷ move false ∷ call any (some 5) ∷ move false ∷ []

-- Asleep, with a message on its signal stack.
abbrev asleep : Machine
asleep = record idle { mailbox = push hello empty; flag = true; owed = 1; place = parked false }

-- A process that is killed in its sleep: the scheduler frees what it has not read.
abbrev killed_asleep : List Event
killed_asleep = kill ∷ wake_owed ∷ dispatch ∷ []

cleaned_up : pending (run asleep killed_asleep) ≡ []
unfolding run step wake dispatch_at push
cleaned_up = refl

-- It was killed before it receives.
abbrev killed_while_running : Machine
killed_while_running = record idle { kill_flag = true; place = start }
