-- ===== src/Tests/Queues.antt =====
-- A run queue on concrete orders of accesses.
use swarmrt.Base.{ℕ, ◌≤◌, ◌≡◌, refl, ap, List, [], ◌∷◌, ◌++◌, arith, replicate}
use swarmrt.Links.Peers.{count}
use swarmrt.Runq.{
  Event, push_begins, push_ends, picks, land, access, pick_at, look, look_first, run, idle,
}
use swarmrt.Runq.Order.{run-pushed}
use swarmrt.Runq.Progress.{IsQuiet, pick_times, run-takes}

-- Two pushes swap the tail and end in the other order, with looks in between.
abbrev crossed : List Event
crossed = push_begins 2 ∷ picks ∷ push_begins 3 ∷ push_ends 3 ∷ picks ∷ push_ends 2 ∷ []

run-pushed_example :
    (waiting : List ℕ) × ((run crossed idle).pushed ≡ (run crossed idle).taken ++ waiting)
run-pushed_example = run-pushed crossed

run-takes_example :
    (n : ℕ) × (n ≤ 6)
    × ((x : ℕ) × ((pick_times n (run crossed idle)).taken ≡ (run crossed idle).taken ++ (x ∷ [])))
unfolding run access land pick_at look look_first count IsQuiet
run-takes_example =
    run-takes crossed (λ n. ground arith) refl (λ e. absurd (ground (arith, ap (count 2) e)))

-- Both are taken in the order of the swaps.
run-crossed : (run (crossed ++ replicate 8 picks) idle).taken ≡ 2 ∷ 3 ∷ []
unfolding run access land pick_at look look_first count
run-crossed = refl
