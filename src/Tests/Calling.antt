-- ===== src/Tests/Calling.antt =====
-- A generic server with two clients, on concrete steps.
use swarmrt.Base.{◌≡◌, ◌+◌, refl, List, [], ◌∷◌, true, some, none, arith}
use swarmrt.Mailbox.{
  empty, push, drain, turn, append_all, pop_first, pop_tagged, take_tagged, unlink_tagged,
}
use swarmrt.Server.{
  Callbacks, CallMsg, System, send, call_proc, cast_proc, reply_taken, reply_for, receive_reply,
  on_call, on_cast, on_message, on_received, serve, Event, ask, expire, cast, other, round, step,
  run,
}
use swarmrt.Server.Consistent.{Answers}
use swarmrt.Server.Replies.{run-reply, fresh-IsConsistent}

-- A server that counts its messages; the reply to a request is the sum of both.
abbrev counter : Callbacks
counter = record {
  handle_call = some (λ s from q. record { new_state = s + 1; reply = s + q });
  handle_cast = some (λ s m. s + 10);
  handle_info = none;
}

abbrev at_rest : System
at_rest = record {
  next_ref = 1000;
  calls = λ a. record { ref = 0; from = 0; payload = 0 };
  next_call = 0;
  casts = λ a. 0;
  next_cast = 0;
  pid = λ p. p + 1;
  box = λ p. empty;
  waiting = λ p. none;
  server = record { self = 0; state = 5; running = true };
}

-- The first call of process 1 times out, and its reply comes while it waits on the second.
abbrev two_clients : List Event
two_clients =
    ask 1 100
    ∷ cast 2 7
    ∷ expire 1
    ∷ ask 2 200
    ∷ round
    ∷ ask 1 300
    ∷ other 2 1 42 9
    ∷ round
    ∷ round
    ∷ round
    ∷ []

run-reply_example :
    (call : CallMsg) × ((run counter at_rest two_clients).waiting 1 ≡ some call)
    × (call.from ≡ 1)
    × Answers counter call 317
unfolding receive_reply reply_for reply_taken run step serve on_received on_message on_call on_cast
    call_proc cast_proc send push drain turn append_all pop_first pop_tagged take_tagged
    unlink_tagged
run-reply_example =
    run-reply counter two_clients at_rest 1 317
      (fresh-IsConsistent counter at_rest (omega arith) refl (λ p. refl) (λ p. refl))
      (
        tt,
        (tt, (tt, (tt, (tt, (tt, ((omega arith, λ e. omega (arith, e)), (tt, (tt, (tt, tt))))))))),
      )
      (omega arith) refl
