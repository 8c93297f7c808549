-- ===== src/Task.antt =====
-- Tasks, src/swarmrt_task.c: a parent that starts a linked and monitored child, waits for its result
-- or its end, or kills it. What runs beside a wait is a list of turns, one for each look at the
-- mailbox: the clock at its start, and the messages that come before `sw_receive_any` returns. The
-- payload of a message is an address; what lies there is a parameter, `Payloads`.
pub mod Await
pub mod Kept
pub mod Answers
pub mod Handle
use swarmrt.Base.{
  ℕ, ◌-◌, ◌^◌, List, [], ◌∷◌, Bool, true, false, not, ◌&&◌, Option, none, some, if◌then◌else◌, ◌==◌,
  ltb, leb,
}
use swarmrt.Registry.{update}
use swarmrt.Mailbox.{Msg, Mailbox, push, drain, pop_first}
use swarmrt.Links.{World, add_link, unlink, monitor, demonitor}

-- `sw_task_t`
pub record Task : Type 0 where
  pub child : Option ℕ
  pub monitor_ref : ℕ
  pub completed : Bool

-- `sw_task_status_t`
pub data Status : Type 0 where
  ok crash timeout : Status

-- `sw_task_result_t`
pub record Answer : Type 0 where
  pub status : Status
  pub value : ℕ

-- `sw_task_result_msg_t`
pub record ResultMsg : Type 0 where
  pub value : ℕ
  pub ref : ℕ

-- The fields of `sw_signal_t` that a wait reads.
pub record DownMsg : Type 0 where
  pub ref : ℕ
  pub reason : ℕ

-- What lies at the addresses that messages carry.
pub record Payloads : Type 0 where
  pub result_at : ℕ → ResultMsg
  pub down_at : ℕ → DownMsg

-- The process that calls: its slot and pid, its mailbox, and the links and monitors of all.
pub record Parent : Type 0 where
  pub self : ℕ
  pub pid : ℕ
  pub mailbox : Mailbox
  pub world : World

-- `SW_TAG_TASK_RESULT`
abbrev pub result_tag : ℕ
result_tag = 13

-- `SW_TAG_DOWN`
abbrev pub down_tag : ℕ
down_tag = 2

-- The timeout (uint64_t)-1.
abbrev pub forever : ℕ
forever = 2 ^ 64 - 1

-- `sw_task_async` by `self`; the child is what the spawn in `sw_spawn_link` returns.
unfoldable pub async : Option ℕ → ℕ → World → Task × World
async none self w = (record { child = none; monitor_ref = 0; completed = false }, w)
async (some child) self w =
    let watched = monitor self child (add_link self child w) in
    (record { child = some child; monitor_ref = watched.0; completed = false }, watched.1)

-- Whether there is a child to wait for.
unfoldable pub is_live : Task → Bool
is_live t = elim t.child [ none ↦ false | some _ ↦ not t.completed ]

unfoldable pub unlink_child : Option ℕ → ℕ → World → World
unlink_child none self w = w
unlink_child (some child) self w = unlink self child w

-- What a wait does to the monitor and the link once it has the result.
unfoldable pub release : Task → ℕ → World → World
unfolding unlink_child
release t self w = unlink_child t.child self (demonitor self t.monitor_ref w).1

-- `sw_process_kill`, as far as it sets the flag and the reason.
unfoldable pub kill_child : Option ℕ → ℕ → World → World
kill_child none reason w = w
kill_child (some child) reason w = record w {
  killed = update w.killed child true;
  reason = update w.reason child reason;
}

-- `sw_task_shutdown`; the reason -1 by its 32 bits.
unfoldable pub shutdown : Task → ℕ → World → Task × World
unfolding is_live release kill_child
shutdown t self w =
    if is_live t
    then (record t { completed = true }, kill_child t.child (2 ^ 32 - 1) (release t self w))
    else (t, w)

-- One look of a wait: the milliseconds since its start, and the messages that come before the
-- receive returns.
pub record Turn : Type 0 where
  pub elapsed : ℕ
  pub arrived : List Msg

unfoldable pub push_all : List Msg → Mailbox → Mailbox
push_all [] mb = mb
push_all (m ∷ ms) mb = push_all ms (push m mb)

-- A message that the process sends to itself.
unfoldable pub resend : Msg → Parent → Parent
resend m p = record p { mailbox = push (record m { from_pid = p.pid }) p.mailbox }

pub data Verdict : Type 0 where
  -- the wait returns
  done : Answer → Task → Parent → Verdict
  -- the loop goes round
  again : Parent → Verdict

module _ (h : Payloads) where
  -- The branch for a task's result.
  unfoldable pub on_result : Msg → Task → Parent → Verdict
  unfolding release resend
  on_result m t p =
      let r = h.result_at m.payload in
      if r.ref == t.monitor_ref
      then done (record { status = ok; value = r.value }) (record t { completed = true })
          (record p { world = release t p.self p.world })
      else again (resend m p)

  -- The branch for the end of a process.
  unfoldable pub on_down : Msg → Task → Parent → Verdict
  unfolding resend
  on_down m t p =
      let d = h.down_at m.payload in
      if d.ref == t.monitor_ref
      then (if d.reason == 0
          then again p
          else done (record { status = crash; value = 0 }) (record t { completed = true }) p)
      else again (resend m p)

  -- The branches on a message.
  unfoldable pub on_message : ℕ → Msg → Task → Parent → Verdict
  unfolding on_result on_down resend
  on_message timeout_ms m t p =
      if m.payload == 0 && m.tag == 0
      then done (record { status = timeout; value = 0 }) t p
      else if m.tag == result_tag
      then on_result m t p
      else if m.tag == down_tag
      then on_down m t p
      else if timeout_ms == 0
      then done (record { status = timeout; value = 0 }) t (resend m p)
      else again (resend m p)

  -- What follows the receive. Nothing means that it has returned NULL, as it does on its timeout
  -- and on a kill.
  unfoldable pub on_received : ℕ → Option (Msg × Mailbox) → Task → Parent → Verdict
  unfolding on_message
  on_received timeout_ms none t p = done (record { status = timeout; value = 0 }) t p
  on_received timeout_ms (some (m, mb)) t p = on_message timeout_ms m t (record p { mailbox = mb })

  -- `sw_receive_any`, with what arrives before it returns, and what follows.
  unfoldable pub receive : ℕ → List Msg → Task → Parent → Verdict
  unfolding push_all on_received
  receive timeout_ms arrived t p =
      let mb = drain (push_all arrived p.mailbox) in
      on_received timeout_ms (pop_first mb) t (record p { mailbox = mb })

  -- One round of the loop.
  unfoldable pub round : ℕ → Turn → Task → Parent → Verdict
  unfolding receive
  round timeout_ms turn t p =
      if not (timeout_ms == forever) && ltb 0 timeout_ms && leb timeout_ms turn.elapsed
      then done (record { status = timeout; value = 0 }) t p
      else receive timeout_ms turn.arrived t p

  -- The loop, for as many rounds as there are turns.
  unfoldable pub await_loop : ℕ → List Turn → Task → Parent → Verdict
  unfolding round
  await_loop timeout_ms [] t p = again p
  await_loop timeout_ms (turn ∷ turns) t p = elim (round timeout_ms turn t p) [
    | done a t' p' ↦ done a t' p'
    | again p' ↦ await_loop timeout_ms turns t p'
  ]

  -- `sw_task_await`
  unfoldable pub await : ℕ → List Turn → Task → Parent → Verdict
  unfolding is_live await_loop
  await timeout_ms turns t p =
      if is_live t
      then await_loop timeout_ms turns t p
      else done (record { status = crash; value = 0 }) t p

  -- `sw_task_yield`
  unfoldable pub yield_task : List Turn → Task → Parent → Verdict
  unfolding await
  yield_task turns t p = await 0 turns t p
