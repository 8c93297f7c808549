-- ===== src/Runq/Order.antt =====
-- The order in which processes enter and leave a run queue.
use swarmrt.Base.{
  ℕ, ◌≡◌, refl, sym, ap, ◌∙◌, ◌≢◌, inl, inr, List, [], ◌∷◌, ◌++◌, ◌&&◌, ◌==◌, ltb, append_assoc,
  arith, select, Bool-cases,
}
use mathlib.Core.Bool.{false≢true}
use swarmrt.Links.Peers.{count}
use swarmrt.Runq.{stub, Run, Event, push_begins, push_ends, picks, access, run, idle}
use swarmrt.Runq.Chain.{Linked}
use swarmrt.Runq.Shape.{count-append, swap-IsQueue, land-IsQueue, head-land}
use swarmrt.Runq.Picks.{
  procs, off_stub, swaps, IsSound, procs-off, procs-append, procs-nil, pick_at-IsSound,
}

-- A process other than the stub is in the queue as often as it has been pushed and not yet taken.
count-procs : (n : ℕ) (ns : List ℕ) → n ≢ stub → count n (procs ns) ≡ count n ns
unfolding procs count select
count-procs n [] h = refl
count-procs n (m ∷ ns) h = elim (Bool-cases (m == stub)) [
  | inl e ↦ rw (e, select) (ground (arith, e, h, count-procs n ns h))
  | inr e ↦ rw (e, select) (ground (arith, count-procs n ns h))
]

push_begins-IsSound : (n : ℕ) (s : Run) → IsSound s → IsSound (access (push_begins n) s)
unfolding access count
push_begins-IsSound n s v =
    elim (Bool-cases (ltb stub n && (count n s.pushed == count n s.taken))) [
      | inl e ↦
          let real : n ≢ stub = ground (arith, e) in
          let free : count n (s.queue.head ∷ v.rest) ≡ 0 = ground (
            arith,
            ap (λ l. count n l) v.log,
            count-append n s.taken (procs (s.queue.head ∷ v.rest)),
            count-procs n (s.queue.head ∷ v.rest) real,
            e,
          ) in
          rw e (record {
            rest = v.rest ++ (n ∷ []);
            queue_sound = swap-IsQueue n s.queue v.rest (ground (arith, e)) free v.queue_sound;
            off = v.off;
            unstubbed = λ h. ground (arith, count-append stub v.rest (n ∷ []), v.unstubbed h, real);
            log =
                ap (λ l. l ++ (n ∷ [])) v.log
                ∙ append_assoc s.taken (procs (s.queue.head ∷ v.rest)) (n ∷ [])
                ∙ ap (λ l. s.taken ++ l)
                    (sym (
                      procs-append (s.queue.head ∷ v.rest) (n ∷ [])
                      ∙ ap (λ l. procs (s.queue.head ∷ v.rest) ++ l)
                          (procs-off n [] real ∙ ap (λ l. n ∷ l) procs-nil)));
          })
      | inr e ↦ rw e v
    ]

push_ends-IsSound : (n : ℕ) (s : Run) → IsSound s → IsSound (access (push_ends n) s)
unfolding access
push_ends-IsSound n s v = elim (Bool-cases (ltb stub n)) [
  | inl e ↦ rw e (record {
    rest = v.rest;
    queue_sound = land-IsQueue n s.queue v.rest v.queue_sound;
    off = λ h. rw (head-land n s.queue) (v.off h);
    unstubbed = v.unstubbed;
    log = rw (head-land n s.queue) v.log;
  })
  | inr e ↦ rw e v
]

access-IsSound : (c : Event) (s : Run) → IsSound s → IsSound (access c s)
unfolding access
access-IsSound (push_begins n) s v = push_begins-IsSound n s v
access-IsSound (push_ends n) s v = push_ends-IsSound n s v
access-IsSound picks s v = pick_at-IsSound s.at s refl v

pub run-IsSound : (cs : List Event) (s : Run) → IsSound s → IsSound (run cs s)
unfolding run
run-IsSound [] s v = v
run-IsSound (c ∷ cs) s v = run-IsSound cs (access c s) (access-IsSound c s v)

pub idle-IsSound : IsSound idle
unfolding Linked count procs select off_stub swaps
idle-IsSound = record {
  rest = [];
  queue_sound = record {
    linked = (refl, refl);
    distinct = λ n. ground arith;
    no_null = refl;
    flying = λ n h. absurd (h refl);
  };
  off = λ h. absurd (false≢true h);
  unstubbed = λ h. absurd (false≢true h);
  log = refl;
}

-- Whatever the order of the accesses of those who push and of the scheduler, the processes that have
-- been taken are the first of those that have been pushed, in the order in which the pushes swapped
-- the tail.
pub run-pushed :
    (cs : List Event) → (waiting : List ℕ) × ((run cs idle).pushed ≡ (run cs idle).taken ++ waiting)
run-pushed cs =
    let v = run-IsSound cs idle idle-IsSound in (procs ((run cs idle).queue.head ∷ v.rest), v.log)
