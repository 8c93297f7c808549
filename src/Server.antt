-- ===== src/Server.antt =====
-- Generic servers, src/swarmrt_otp.c: the loop of a server, and the calls and casts of its clients.
-- A process is the number of its slot. The steps of the server and of the clients come in any order;
-- a call stands between its send and the return of its receive. The callbacks are parameters. Memory
-- that is allocated for a call or a cast is at the next address, and each kind has addresses of its
-- own.
pub mod Consistent
pub mod Steps
pub mod Replies
use swarmrt.Base.{
  ℕ, ◌+◌, ◌%◌, ◌^◌, List, [], ◌∷◌, Bool, false, ◌&&◌, Option, none, some, if◌then◌else◌, ◌==◌,
}
use swarmrt.Registry.{update}
use swarmrt.Mailbox.{Msg, Mailbox, push, drain, pop_first, pop_tagged}

-- `sw_call_reply_t`
pub record CallReply : Type 0 where
  pub new_state : ℕ
  pub reply : ℕ

-- `sw_gs_callbacks_t` without `init`, and without `terminate`, which gets the state at the end and
-- returns nothing; a field is `none` for NULL.
pub record Callbacks : Type 0 where
  pub handle_call : Option (ℕ → ℕ → ℕ → CallReply)
  pub handle_cast : Option (ℕ → ℕ → ℕ)
  pub handle_info : Option (ℕ → ℕ → ℕ → ℕ)

-- `sw_gs_call_t`
pub record CallMsg : Type 0 where
  pub ref : ℕ
  pub from : ℕ
  pub payload : ℕ

-- The local variables of `genserver_entry` in its loop.
pub record Server : Type 0 where
  pub self : ℕ
  pub state : ℕ
  pub running : Bool

-- `g_next_call_ref`, the memory, the pids and mailboxes of all processes, the call that each client
-- waits on, and the server.
pub record System : Type 0 where
  pub next_ref : ℕ
  pub calls : ℕ → CallMsg
  pub next_call : ℕ
  pub casts : ℕ → ℕ
  pub next_cast : ℕ
  pub pid : ℕ → ℕ
  pub box : ℕ → Mailbox
  pub waiting : ℕ → Option CallMsg
  pub server : Server

-- The first value of `g_next_call_ref`.
abbrev pub first_ref : ℕ
first_ref = 1000

abbrev pub call_tag : ℕ
call_tag = 10

abbrev pub cast_tag : ℕ
cast_tag = 11

abbrev pub stop_tag : ℕ
stop_tag = 12

-- `sw_send_tagged` by `p`
unfoldable pub send : ℕ → ℕ → ℕ → ℕ → System → System
send p to tag payload w = record w {
  box =
      update w.box to
        (push (record { tag = tag; payload = payload; from_pid = w.pid p }) (w.box to));
}

-- `sw_call_proc` by `p`, to the receive.
unfoldable pub call_proc : ℕ → ℕ → System → System
unfolding send
call_proc p request w =
    let call : CallMsg = record { ref = w.next_ref; from = p; payload = request } in
    send p w.server.self call_tag w.next_call (record w {
      next_ref = (w.next_ref + 1) % 2 ^ 64;
      calls = update w.calls w.next_call call;
      next_call = w.next_call + 1;
      waiting = update w.waiting p (some call);
    })

-- `sw_cast_proc` by `p`
unfoldable pub cast_proc : ℕ → ℕ → System → System
unfolding send
cast_proc p message w =
    send p w.server.self cast_tag w.next_cast
      (record w { casts = update w.casts w.next_cast message; next_cast = w.next_cast + 1 })

-- `sw_genserver_stop` by `p`, once the name is found.
unfoldable pub stop : ℕ → System → System
unfolding send
stop p w = send p w.server.self stop_tag 0 w

-- The value that a call returns once its receive has found a message.
unfoldable pub reply_taken : ℕ → Option (Msg × Mailbox) → System → Option ℕ × System
reply_taken p none w = (none, record w { box = update w.box p (drain (w.box p)) })
reply_taken p (some (m, mb)) w =
    (some m.payload, record w { box = update w.box p mb; waiting = update w.waiting p none })

unfoldable pub reply_for : ℕ → Option CallMsg → System → Option ℕ × System
unfolding reply_taken
reply_for p none w = (none, w)
reply_for p (some call) w = reply_taken p (pop_tagged call.ref (drain (w.box p))) w

-- A look of `p` at its mailbox for the reply that it waits on.
unfoldable pub receive_reply : ℕ → System → Option ℕ × System
unfolding reply_for
receive_reply p w = reply_for p (w.waiting p) w

-- The receive of a call that times out.
abbrev pub give_up : ℕ → System → System
give_up p w = record w { waiting = update w.waiting p none }

abbrev pub with_state : ℕ → System → System
with_state s w = let sv = w.server in record w { server = record sv { state = s } }

-- The branch for a call.
unfoldable pub on_call : Option (ℕ → ℕ → ℕ → CallReply) → CallMsg → System → System
unfolding send
on_call none call w = w
on_call (some f) call w =
    let r = f w.server.state call.from call.payload in
    send w.server.self call.from call.ref r.reply (with_state r.new_state w)

-- The branch for a cast.
unfoldable pub on_cast : Option (ℕ → ℕ → ℕ) → ℕ → System → System
on_cast none message w = w
on_cast (some f) message w = with_state (f w.server.state message) w

-- The branch for all other messages.
unfoldable pub on_info : Option (ℕ → ℕ → ℕ → ℕ) → Msg → System → System
on_info none m w = w
on_info (some f) m w = with_state (f w.server.state m.tag m.payload) w

-- The end of the loop.
abbrev pub finish : System → System
finish w = let sv = w.server in record w { server = record sv { running = false } }

-- The switch on the tag of a message.
unfoldable pub on_message : Callbacks → Msg → System → System
unfolding on_call on_cast on_info
on_message cbs m w =
    if m.payload == 0 && m.tag == 0
    then finish w
    else if m.tag == call_tag
    then on_call cbs.handle_call (w.calls m.payload) w
    else if m.tag == cast_tag
    then on_cast cbs.handle_cast (w.casts m.payload) w
    else if m.tag == stop_tag
    then finish w
    else on_info cbs.handle_info m w

unfoldable pub on_received : Callbacks → Option (Msg × Mailbox) → System → System
unfolding on_message
on_received cbs none w = w
on_received cbs (some (m, mb)) w =
    on_message cbs m (record w { box = update w.box w.server.self mb })

-- One round of the loop. The receive waits as long as there is no message.
unfoldable pub serve : Callbacks → System → System
unfolding on_received
serve cbs w =
    if w.server.running then on_received cbs (pop_first (drain (w.box w.server.self))) w else w

pub data Event : Type 0 where
  -- a client begins a call
  ask : ℕ → ℕ → Event
  -- a client looks for its reply
  receive : ℕ → Event
  -- the receive of a client times out
  expire : ℕ → Event
  cast : ℕ → ℕ → Event
  stop_server : ℕ → Event
  -- any process sends any message to any process
  other : ℕ → ℕ → ℕ → ℕ → Event
  -- the server goes round its loop
  round : Event

unfoldable pub step : Callbacks → System → Event → System
unfolding send call_proc cast_proc stop receive_reply serve
step cbs w (ask p request) = call_proc p request w
step cbs w (receive p) = (receive_reply p w).1
step cbs w (expire p) = give_up p w
step cbs w (cast p message) = cast_proc p message w
step cbs w (stop_server p) = stop p w
step cbs w (other p to tag payload) = send p to tag payload w
step cbs w round = serve cbs w

unfoldable pub run : Callbacks → System → List Event → System
unfolding step
run cbs w [] = w
run cbs w (e ∷ es) = run cbs (step cbs w e) es
