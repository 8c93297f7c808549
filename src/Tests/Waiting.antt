-- ===== src/Tests/Waiting.antt =====
-- A wait for a task, on concrete messages.
use swarmrt.Base.{
  ℕ, Bool, ◌≡◌, ◌<◌, ◌+◌, ◌-◌, ◌^◌, ◌==◌, refl, [], ◌∷◌, true, false, some, arith, take, replicate,
}
use swarmrt.Mailbox.{Msg, Mailbox, empty, drain, turn, append_all, pop_first}
use swarmrt.Mailbox.Queue.{contents}
use swarmrt.Links.{World}
use swarmrt.Task.{
  Task, ok, Answer, Payloads, Parent, forever, is_live, release, push_all, Turn, done, again,
  on_result, on_message, on_received, receive, round, await_loop, await, yield_task, async,
  shutdown,
}
use swarmrt.Task.Await.{await-result}
use swarmrt.Task.Kept.{loop_turns, turns_taken, count, arrivals, parent_of, await-count}
use swarmrt.Task.Answers.{gives, await-answer, quiet, yield_task-spins}
use swarmrt.Task.Handle.{shutdown-async}

-- The address is the reference, and the value that number and 100.
abbrev payloads : Payloads
payloads = record {
  result_at = λ a. record { value = 100 + a; ref = a };
  down_at = λ a. record { ref = a; reason = 0 };
}

abbrev nobody : World
nobody = record {
  pid = λ p. p + 1;
  dead = λ p. false;
  trap = λ p. false;
  reason = λ p. 0;
  killed = λ p. false;
  links = λ p. [];
  watching = λ p. [];
  watched_by = λ p. [];
  next_ref = 7;
  signals = [];
}

abbrev fetch : Task
fetch = record { child = some 2; monitor_ref = 7; completed = false }

abbrev chat : Msg
chat = record { tag = 20; payload = 5; from_pid = 9 }

abbrev other_result : Msg
other_result = record { tag = 13; payload = 8; from_pid = 3 }

abbrev own_down : Msg
own_down = record { tag = 2; payload = 7; from_pid = 0 }

abbrev own_result : Msg
own_result = record { tag = 13; payload = 7; from_pid = 3 }

-- The result is behind the message of another process, another result and its own normal end.
abbrev asker : Parent
asker = record {
  self = 1;
  pid = 2;
  mailbox = record {
    sig = own_result ∷ own_down ∷ [];
    queue = chat ∷ other_result ∷ [];
    count = 2;
  };
  world = nobody;
}

abbrev late_chat : Turn
late_chat = record { elapsed = 3; arrived = chat ∷ [] }

await-result_example :
    (mb : Mailbox) × (await payloads 50 (replicate 5 late_chat) fetch asker
      ≡ done
          (record { status = ok; value = 107 })
          (record fetch { completed = true })
          (record asker { mailbox = mb; world = release fetch 1 nobody }))
unfolding is_live
await-result_example =
    await-result payloads 50 (chat ∷ other_result ∷ own_down ∷ []) (replicate 5 late_chat) fetch
      asker own_result [] refl (refl, (refl, (refl, (refl, (refl, tt))))) (refl, (refl, (refl, tt)))
      (refl, refl) refl (omega arith)

abbrev chats : ℕ → ℕ → Bool
chats tag payload = tag == 20

await-count_example :
    count chats
      (contents (parent_of (await payloads 50 (replicate 5 late_chat) fetch asker)).mailbox)
    ≡ 1
      + count chats (
          arrivals (
            take
              (turns_taken payloads 50 (replicate 5 late_chat) fetch asker)
              (replicate 5 late_chat)))
unfolding count
await-count_example =
    await-count payloads 50 chats (replicate 5 late_chat) fetch asker
      (λ tag payload u. ground arith)

-- The wait of that example.
wait_turns : turns_taken payloads 50 (replicate 5 late_chat) fetch asker ≡ 4
unfolding turns_taken loop_turns is_live round pop_first drain swarmrt.Mailbox.push
wait_turns = refl

-- With the result alone in the mailbox, the first look is enough.
abbrev answered : Parent
answered = record asker { mailbox = record { sig = []; queue = own_result ∷ []; count = 1 } }

abbrev hundred_seven : Answer
hundred_seven = record { status = ok; value = 107 }

abbrev after_answer : Parent
after_answer = record answered { mailbox = empty; world = release fetch 1 nobody }

await-answer_example :
    (true ≡ true) × (0 < count (gives payloads hundred_seven fetch) (own_result ∷ []))
unfolding await is_live await_loop round receive on_received on_message on_result push_all drain
    turn append_all pop_first
await-answer_example =
    await-answer payloads forever (quiet ∷ []) fetch (record fetch { completed = true }) answered
      after_answer hundred_seven refl refl (λ e. cc)

yield_task-spins_example :
    (p' : Parent) × (yield_task payloads
        (replicate 40 quiet)
        fetch
        (record asker { mailbox = record { sig = []; queue = other_result ∷ []; count = 1 } })
      ≡ again p')
unfolding is_live
yield_task-spins_example =
    yield_task-spins payloads 40 fetch
      (record asker { mailbox = record { sig = []; queue = other_result ∷ []; count = 1 } }) refl
      (refl, tt) (λ e. cc)

shutdown-async_example :
    let (t, w') = async (some 2) 1 nobody in
    let (t', w'') = shutdown t 1 w' in
    (t'.completed ≡ true)
    × (w''.killed 2 ≡ true)
    × (w''.reason 2 ≡ 2 ^ 32 - 1)
    × ((x : ℕ) → w''.links x ≡ [])
    × ((x : ℕ) → w''.watching x ≡ [])
    × ((x : ℕ) → w''.watched_by x ≡ [])
    × (w''.signals ≡ [])
shutdown-async_example =
    shutdown-async 2 1 nobody (λ e. omega (arith, e)) refl (λ e. omega (arith, e))
