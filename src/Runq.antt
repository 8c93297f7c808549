-- ===== src/Runq.antt =====
-- The run queue of a scheduler in src/swarmrt_native.c: `sw_add_to_runq` and `sw_pick_next` for one
-- priority. Any thread pushes, in two accesses of shared memory: it swaps the tail for its process,
-- and later links the process that was the tail to it. Only the scheduler takes processes out. Each
-- event is one access, and events come in any order; clearing a link that nobody can reach yet counts
-- with the swap after it. A process is an address: 0 is NULL, 1 is the stub.
pub mod Chain
pub mod Shape
pub mod Picks
pub mod Order
pub mod Progress
use swarmrt.Base.{ℕ, zero, suc, List, [], ◌∷◌, ◌++◌, ◌&&◌, if◌then◌else◌, ◌==◌, ltb}
use swarmrt.Registry.{update}
use swarmrt.Links.Peers.{count}

abbrev pub stub : ℕ
stub = 1

-- The head and the tail of one priority, the field `rq_next` of each process, and for each push that
-- has not linked its process yet, by the process, the local variable `prev`.
pub record Queue : Type 0 where
  pub head : ℕ
  pub tail : ℕ
  pub next : ℕ → ℕ
  pub prev : ℕ → ℕ

-- The queue of `sw_init`: the stub alone.
abbrev pub fresh : Queue
fresh = record { head = stub; tail = stub; next = λ n. 0; prev = λ n. 0 }

-- The first half of a push: clear `rq_next` and swap the tail.
abbrev pub swap : ℕ → Queue → Queue
swap n q = record q { tail = n; next = update q.next n 0; prev = update q.prev n q.tail }

-- The second half: link the old tail to the process.
unfoldable pub land : ℕ → Queue → Queue
land n q =
    if q.prev n == 0
    then q
    else record q { next = update q.next (q.prev n) n; prev = update q.prev n 0 }

-- Where `sw_pick_next` is: before the first look at the next process, after it has passed over the
-- stub, before the load of the tail, in the loop that spins, before and after it pushes the stub
-- again, and before the last look.
pub data At : Type 0 where
  looking : At
  past_stub : At
  at_tail : At
  spinning : ℕ → At
  at_swap : At
  at_land : At
  at_last : At

-- A queue in use, with the processes pushed and those taken, the oldest first.
pub record Run : Type 0 where
  pub queue : Queue
  pub at : At
  pub pushed : List ℕ
  pub taken : List ℕ

abbrev pub go : At → Run → Run
go at s = record s { at = at }

-- The head is taken, and the next process is the head.
abbrev pub take_head : Run → Run
take_head s = record s {
  queue = record s.queue { head = s.queue.next s.queue.head };
  at = looking;
  taken = s.taken ++ (s.queue.head ∷ []);
}

-- A look at the next process: the head is taken if there is one.
unfoldable pub look : At → Run → Run
look otherwise s = if s.queue.next s.queue.head == 0 then go otherwise s else take_head s

-- The first look, which passes over the stub.
unfoldable pub look_first : Run → Run
unfolding look
look_first s =
    if s.queue.head == stub
    then if s.queue.next stub == 0
      then go looking s
      else record s { queue = record s.queue { head = s.queue.next s.queue.head }; at = past_stub }
    else look at_tail s

-- The next access of `sw_pick_next` for the priority; `looking` again is its end.
unfoldable pub pick_at : At → Run → Run
unfolding look look_first land
pick_at looking s = look_first s
pick_at past_stub s = look at_tail s
pick_at at_tail s = go (if s.queue.head == s.queue.tail then at_swap else spinning 100) s
pick_at (spinning zero) s = go looking s
pick_at (spinning (suc k)) s = look (spinning k) s
pick_at at_swap s = record s { queue = swap stub s.queue; at = at_land }
pick_at at_land s = record s { queue = land stub s.queue; at = at_last }
pick_at at_last s = look looking s

-- What happens to a queue: a push begins or ends, or the scheduler makes its next access. A process
-- is pushed only while it is not in the queue.
pub data Event : Type 0 where
  push_begins : ℕ → Event
  push_ends : ℕ → Event
  picks : Event

unfoldable pub access : Event → Run → Run
unfolding pick_at land count
access (push_begins n) s =
    if ltb stub n && (count n s.pushed == count n s.taken)
    then record s { queue = swap n s.queue; pushed = s.pushed ++ (n ∷ []) }
    else s
access (push_ends n) s = if ltb stub n then record s { queue = land n s.queue } else s
access picks s = pick_at s.at s

unfoldable pub run : List Event → Run → Run
unfolding access
run [] s = s
run (c ∷ cs) s = run cs (access c s)

abbrev pub idle : Run
idle = record { queue = fresh; at = looking; pushed = []; taken = [] }
