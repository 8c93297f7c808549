-- ===== src/Mailbox.antt =====
-- The mailbox of src/swarmrt_native.c: a lock-free signal stack that senders push on, and a private
-- queue that its process drains the stack into. The signal stack is a list with the newest message
-- first; the doubly linked private queue is a list with the oldest message first. An atomic exchange
-- or a compare-and-swap that succeeds is one step, so each function here is one atomic step of the
-- thread that runs it, but for the private queue, which no other thread touches.
pub mod Queue
pub mod Receive
use swarmrt.Base.{
  add_32, sub_32, ℕ, zero, suc, ◌+◌, ◌-◌, List, [], ◌∷◌, ◌++◌, Option, none, some, if◌then◌else◌,
  ◌==◌, length,
}

-- `sw_msg_t`; a payload is the number of its address, 0 for NULL.
pub record Msg : Type 0 where
  pub tag : ℕ
  pub payload : ℕ
  pub from_pid : ℕ

-- `sw_mailbox_t` without the flag `waiting`, which `Receive` has.
pub record Mailbox : Type 0 where
  pub sig : List Msg
  pub queue : List Msg
  pub count : ℕ

abbrev pub empty : Mailbox
empty = record { sig = []; queue = []; count = 0 }

-- `mailbox_push`: the compare-and-swap that succeeds.
unfoldable pub push : Msg → Mailbox → Mailbox
push m mb = record mb { sig = m ∷ mb.sig }

-- The first loop of `mailbox_drain`: the stolen chain, newest first, is turned round.
unfoldable pub turn : List Msg → List Msg → List Msg
turn [] reversed = reversed
turn (m ∷ chain) reversed = turn chain (m ∷ reversed)

-- The second loop: each message goes to the tail of the private queue and is counted.
unfoldable pub append_all : List Msg → Mailbox → Mailbox
append_all [] mb = mb
append_all (m ∷ chain) mb =
    append_all chain (record mb { queue = mb.queue ++ (m ∷ []); count = add_32 mb.count 1 })

-- `mailbox_drain`
unfoldable pub drain : Mailbox → Mailbox
unfolding turn append_all
drain mb = append_all (turn mb.sig []) (record mb { sig = [] })

pop_head : List Msg → Mailbox → Option (Msg × Mailbox)
pop_head [] mb = none
pop_head (m ∷ rest) mb = some (m, record mb { queue = rest; count = sub_32 mb.count 1 })

-- `mailbox_pop_first`
unfoldable pub pop_first : Mailbox → Option (Msg × Mailbox)
unfolding pop_head
pop_first mb = pop_head mb.queue mb

-- The walk of `mailbox_pop_tagged`, over the messages skipped so far and those ahead.
unfoldable pub take_tagged : ℕ → List Msg → Option (Msg × List Msg)
take_tagged t [] = none
take_tagged t (m ∷ ahead) =
    let rest = take_tagged t ahead in
    if m.tag == t
    then some (m, ahead)
    else elim rest [ none ↦ none | some (n, others) ↦ some (n, m ∷ others) ]

unfoldable pub unlink_tagged : Option (Msg × List Msg) → Mailbox → Option (Msg × Mailbox)
unlink_tagged none mb = none
unlink_tagged (some (m, rest)) mb = some (m, record mb { queue = rest; count = sub_32 mb.count 1 })

-- `mailbox_pop_tagged`
unfoldable pub pop_tagged : ℕ → Mailbox → Option (Msg × Mailbox)
unfolding take_tagged unlink_tagged
pop_tagged t mb = unlink_tagged (take_tagged t mb.queue) mb

-- The branch of the receive functions that puts a message back at the front of the private queue.
unfoldable pub put_back : Msg → Mailbox → Mailbox
put_back m mb = record mb { queue = m ∷ mb.queue; count = add_32 mb.count 1 }

-- `sw_mailbox_peek`: drains, and shows the head of the private queue without taking it.
unfoldable pub peek : Mailbox → Option Msg × Mailbox
unfolding drain
peek mb = let mb' = drain mb in (elim mb'.queue [ [] ↦ none | m ∷ _ ↦ some m ], mb')

drop_at : ℕ → List Msg → List Msg
drop_at i [] = []
drop_at zero (m ∷ ms) = ms
drop_at (suc i) (m ∷ ms) = m ∷ drop_at i ms

-- `sw_mailbox_remove_msg`: the message is given by its place in the private queue.
unfoldable pub remove_msg : ℕ → Mailbox → Mailbox
unfolding drop_at
remove_msg i mb = record mb { queue = drop_at i mb.queue; count = sub_32 mb.count 1 }
