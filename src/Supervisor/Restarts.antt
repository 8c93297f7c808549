-- ===== src/Supervisor/Restarts.antt =====
-- What the restart strategies do to each child.
use swarmrt.Base.{
  ℕ, ◌+◌, ◌-◌, ◌≤◌, ◌<◌, ◌≡◌, refl, ◌∙◌, inl, inr, List, true, false, Option, ◌==◌, leb, arith,
  length, get_or, All, Bool-cases, ==_iff, All-get_or,
}
use swarmrt.Supervisor.{
  Strategy, one_for_one, one_for_all, rest_for_one, Child, World, for_children, kill_others,
  start_dead, restart_from, restart_one, apply_strategy, blank,
}
use swarmrt.Supervisor.Loops.{
  for_children_world, for_children_all, for_children_each, length-for_children, IsSound, covers,
  place, Room, Room-same, Restarted, start_child-Restarted, start_child-world, Killed,
  kill_others-Killed, SameCounters, kill_others-SameCounters, Spawned, Waits, Started,
  start_dead-Started, start_dead-Spawned,
}

module _ (grant : ℕ → Option ℕ) where
  -- The first loop: the covered children are dead after it, the others as before.
  killed_at :
      (from i j : ℕ) (cs : List Child) (w : World)
      → All IsSound cs
      → (get_or cs i blank).alive ≡ false
      → j < length cs
      → let d = get_or (for_children (kill_others from i) 0 cs w).0 j blank in
        (d.spec ≡ (get_or cs j blank).spec)
        × (leb from j ≡ true → d.alive ≡ false)
        × (leb from j ≡ false → d ≡ get_or cs j blank)
  killed_at from i j cs w sound dead k =
      for_children_all (kill_others from i) (SameCounters w) (Killed grant from i)
        (λ m c v h. kill_others-SameCounters grant from i m c w v h)
        (λ m c v h. kill_others-Killed grant from i m c v) j cs w (refl, refl) k
        (All-get_or IsSound cs j blank sound (λ t. absurd (cc)))
        (λ q. let e : j ≡ i = omega arith in rw e dead)

  -- Both loops, for child `j`: restarted if it is covered, as before if not.
  restart_from_at :
      (base from i j : ℕ) (cs : List Child) (w : World)
      → All IsSound cs
      → (get_or cs i blank).alive ≡ false
      → j < length cs
      → Room base (length cs) 0 w.next_ref
      → (leb from j ≡ true
          → Restarted grant
              (w.spawns + (j - from))
              base
              (get_or cs j blank)
              (get_or (restart_from grant from i cs w).0 j blank))
        × (leb from j ≡ false
            → get_or (restart_from grant from i cs w).0 j blank ≡ get_or cs j blank)
  unfolding restart_from
  restart_from_at base from i j cs w sound dead k room =
      let len = length cs in
      let first = for_children (kill_others from i) 0 cs w in
      let killed = killed_at from i j cs w sound dead k in
      let same : SameCounters w first.1 =
        for_children_world (kill_others from i) (SameCounters w) (Killed grant from i)
          (λ m c v h. kill_others-SameCounters grant from i m c w v h)
          (λ m c v h. kill_others-Killed grant from i m c v) 0 cs w (refl, refl) in
      let long : length first.0 ≡ len = length-for_children (kill_others from i) 0 cs w in
      let start : Spawned base len w.spawns from 0 first.1 =
        (same.0 ∙ omega arith, rw same.1 room) in
      let started =
        for_children_each (start_dead grant from) (Spawned base len w.spawns from) (Waits len from)
          (Started grant base w.spawns from)
          (λ m c v h g. start_dead-Spawned grant base len w.spawns from m c v h g)
          (λ m c v h g. start_dead-Started grant base len w.spawns from m c v h g) j first.0 first.1
          start
          (λ m less.
            let k' : m < len = rw long at less in (k', (killed_at from i m cs w sound dead k').1))
          (rw long k) in
      (
        (λ cover. let again = started.0 cover in (again.0 ∙ killed.0, again.1)),
        λ out. started.1 out ∙ killed.2 out,
      )

  -- The world of the loop over one child: that child gets the next spawn.
  abbrev OneSpawned : ℕ → ℕ → ℕ → ℕ → ℕ → World → Type 0
  OneSpawned base len first i m v = (m ≤ i → v.spawns ≡ first) × Room base len m v.next_ref

  restart_one-OneSpawned :
      (base len first i m : ℕ) (c : Child) (v : World)
      → OneSpawned base len first i m v
      → m < len
      → OneSpawned base len first i (m + 1) (restart_one grant i m c v).1
  unfolding restart_one
  restart_one-OneSpawned base len first i m c v (n, room) k = elim (Bool-cases (m == i)) [
    | inl e ↦
        rw (e, restart_one)
          ((λ q. absurd (ground arith)), (start_child-world grant base len m c v k room).1)
    | inr e ↦ rw (e, restart_one) ((λ q. n (omega arith)), Room-same base len m v.next_ref room)
  ]

  -- What that loop makes of a child.
  abbrev OneStarted : ℕ → ℕ → ℕ → ℕ → Child → Child → Type 0
  OneStarted base first i m c d =
      ((m == i) ≡ true → c.alive ≡ false → Restarted grant first base c d)
      × ((m == i) ≡ false → d ≡ c)

  restart_one-OneStarted :
      (base len first i m : ℕ) (c : Child) (v : World)
      → OneSpawned base len first i m v
      → OneStarted base first i m c (restart_one grant i m c v).0
  unfolding restart_one
  restart_one-OneStarted base len first i m c v (n, room) = (
    (λ e a.
        let spawn : v.spawns ≡ first = n (ground (arith, e)) in
        rw (e, restart_one, ← spawn) (start_child-Restarted grant base c v room.0 a)),
    λ e. rw (e, restart_one) refl,
  )

  -- The strategy with what it does to a child that it covers and to one that it does not.
  pub both_ways :
      (base : ℕ) (s : Strategy) (i j : ℕ) (cs : List Child) (w : World)
      → All IsSound cs
      → (get_or cs i blank).alive ≡ false
      → j < length cs
      → Room base (length cs) 0 w.next_ref
      → (covers s i j ≡ true
          → Restarted grant
              (w.spawns + place s i j)
              base
              (get_or cs j blank)
              (get_or (apply_strategy grant s i cs w).0 j blank))
        × (covers s i j ≡ false
            → get_or (apply_strategy grant s i cs w).0 j blank ≡ get_or cs j blank)
  unfolding apply_strategy
  both_ways base one_for_one i j cs w sound dead k room =
      let len = length cs in
      let both =
        for_children_each (restart_one grant i) (OneSpawned base len w.spawns i) (λ m c. m < len)
          (OneStarted base w.spawns i)
          (λ m c v h g. restart_one-OneSpawned base len w.spawns i m c v h g)
          (λ m c v h g. restart_one-OneStarted base len w.spawns i m c v h) j cs w
          ((λ q. refl), room) (λ m less. less) k in
      let z : w.spawns + 0 ≡ w.spawns = omega arith in
      ((λ e. let q : j ≡ i = (==_iff j i).0 e in rw z (both.0 e (rw q dead))), λ e. both.1 e)
  both_ways base one_for_all i j cs w sound dead k room =
      let both = restart_from_at base 0 i j cs w sound dead k room in
      let z : j - 0 ≡ j = omega arith in ((λ e. rw z at (both.0 (ground arith))), λ e. absurd (cc))
  both_ways base rest_for_one i j cs w sound dead k room =
      restart_from_at base i i j cs w sound dead k room
