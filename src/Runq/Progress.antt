-- ===== src/Runq/Progress.antt =====
-- What the scheduler takes from a queue in which no push is in flight.
use swarmrt.Base.{
  ℕ, zero, suc, ◌≤◌, ◌≡◌, refl, sym, ap, ◌∙◌, ◌≢◌, inl, inr, List, [], ◌∷◌, ◌++◌, true, false, ◌==◌,
  append-nil, arith, Bool-cases, ==_refl, ==_iff,
}
use swarmrt.Links.Peers.{count}
use swarmrt.Runq.{
  Queue, land, stub, looking, past_stub, at_tail, at_swap, at_land, at_last, Run, look, look_first,
  pick_at, Event, run, idle,
}
use swarmrt.Runq.Chain.{Linked, Next}
use swarmrt.Runq.Shape.{IsQueue, next-in_rest}
use swarmrt.Runq.Order.{run-IsSound, idle-IsSound}
use swarmrt.Runq.Picks.{IsSound, procs, procs-stub, procs-nil, next_off}

-- The accesses of `sw_pick_next` alone, as many as said.
unfoldable pub pick_times : ℕ → Run → Run
unfolding pick_at
pick_times zero s = s
pick_times (suc n) s = pick_times n (pick_at s.at s)

-- No push is between its two halves.
unfoldable pub IsQuiet : Run → Type 0
IsQuiet s = (n : ℕ) → s.queue.prev n ≡ 0

push_stub :
    (s : Run)
    → s.queue.head ≢ 0
    → s.queue.head ≢ stub
    → s.queue.tail ≡ s.queue.head
    → (pick_at at_last (pick_at at_land (pick_at at_swap s))).taken ≡ s.taken ++ (s.queue.head ∷ [])
unfolding pick_at land look
push_stub s real off alone =
    let owed : (s.queue.tail == 0) ≡ false = ground (arith, alone, real) in
    rw (owed, land) (rw alone (rw (==_refl s.queue.head) refl))

-- With no push in flight, a process without a next is the last.
none_after :
    (q : Queue) (rest : List ℕ)
    → IsQueue q rest
    → ((n : ℕ) → q.prev n ≡ 0)
    → q.next q.head ≡ 0
    → (rest ≡ []) × (q.tail ≡ q.head)
unfolding Linked Next count
none_after q [] v quiet e = (refl, v.linked.0)
none_after q (y ∷ ys) v quiet e = absurd (ground (arith, v.linked.0, v.no_null, e, quiet y))

-- From the look at a head that is not the stub, four more accesses are enough.
look_takes :
    (s : Run) (rest : List ℕ)
    → IsQueue s.queue rest
    → IsQuiet s
    → s.queue.head ≢ stub
    → (n : ℕ) × (n ≤ 4) × ((pick_times n (look at_tail s)).taken ≡ s.taken ++ (s.queue.head ∷ []))
unfolding pick_times look count pick_at IsQuiet
look_takes s rest v quiet off = elim (Bool-cases (s.queue.next s.queue.head == 0)) [
  | inl e ↦
      let last = none_after s.queue rest v quiet ((==_iff _ 0).0 e) in
      let real : s.queue.head ≢ 0 = ground (arith, v.no_null) in
      let same : (s.queue.head == s.queue.tail) ≡ true =
        (==_iff s.queue.head s.queue.tail).1 (sym last.1) in
      (4, omega arith, rw (e, look) (rw same (push_stub s real off last.1)))
  | inr e ↦ (0, omega arith, rw (e, look) refl)
]

-- The scheduler alone takes one more process, if there is one.
takes_next :
    (s : Run)
    → IsSound s
    → IsQuiet s
    → s.at ≡ looking
    → s.pushed ≢ s.taken
    → (n : ℕ) × (n ≤ 6) × ((x : ℕ) × ((pick_times n s).taken ≡ s.taken ++ (x ∷ [])))
unfolding IsQuiet pick_times pick_at look_first
takes_next s v quiet at there = elim (Bool-cases (s.queue.head == stub)) [
  | inl e ↦
      let at_stub : s.queue.head ≡ stub = (==_iff s.queue.head stub).0 e in
      elim (Bool-cases (s.queue.next stub == 0)) [
        | inl free ↦
            let last =
              none_after s.queue v.rest v.queue_sound quiet (rw at_stub ((==_iff _ 0).0 free)) in
            absurd (
              there (
                v.log
                ∙ ap (λ l. s.taken ++ l)
                    (ap (λ h. procs (h ∷ v.rest)) at_stub
                      ∙ procs-stub v.rest
                      ∙ ap procs last.0
                      ∙ procs-nil)
                ∙ append-nil s.taken))
        | inr more ↦
            let next =
              next-in_rest s.queue v.rest (rw at_stub (ground (arith, more))) v.queue_sound in
            let off = next_off s v.rest next.0 at_stub v.queue_sound next.1 in
            let s' : Run = record s {
              queue = record s.queue { head = s.queue.next s.queue.head };
              at = past_stub;
            } in
            let later = look_takes s' next.0 next.2 quiet off in
            let first : pick_at s.at s ≡ s' =
              ap (λ a. pick_at a s) at ∙ (rw (e, look_first) (rw more refl)) in
            (
              suc (suc later.0),
              omega (arith, later.1),
              (s'.queue.head, ap (λ r. (pick_times (suc later.0) r).taken) first ∙ later.2),
            )
      ]
  | inr e ↦
      let later = look_takes s v.rest v.queue_sound quiet (ground (arith, e)) in
      let first : pick_at s.at s ≡ look at_tail s =
        ap (λ a. pick_at a s) at ∙ (rw (e, look_first) refl) in
      (
        suc later.0,
        omega (arith, later.1),
        (s.queue.head, ap (λ r. (pick_times later.0 r).taken) first ∙ later.2),
      )
]

-- Nothing stays behind: after any accesses, if no push is between its two halves and the scheduler is
-- before its first look, then, when a process has been pushed and not taken, at most six accesses of
-- the scheduler alone take one more.
pub run-takes :
    (cs : List Event)
    → IsQuiet (run cs idle)
    → (run cs idle).at ≡ looking
    → (run cs idle).pushed ≢ (run cs idle).taken
    → (n : ℕ) × (n ≤ 6)
      × ((x : ℕ) × ((pick_times n (run cs idle)).taken ≡ (run cs idle).taken ++ (x ∷ [])))
run-takes cs = takes_next (run cs idle) (run-IsSound cs idle idle-IsSound)
