-- ===== src/Supervisor/Loops.antt =====
-- What the loops of the restart strategies do to each child.
use swarmrt.Base.{
  ℕ, zero, suc, ◌+◌, ◌-◌, ◌%◌, ◌^◌, some, ◌∙◌, ◌≤◌, ◌<◌, ◌≡◌, refl, ap, ◌≢◌, ◌⊎◌, inl, inr, List,
  [], ◌∷◌, Bool, true, false, not, ◌&&◌, Option, none, ◌==◌, leb, arith, length, get_or, Bool-cases,
  Option-cases, ==_iff, Bytes,
}
use native.Mathlib.Nat.{add-zero}
use swarmrt.Supervisor.{
  Strategy, one_for_one, one_for_all, rest_for_one, Child, World, register_child, kill_child,
  for_children, kill_others, start_child, start_dead, blank,
}

-- A body that keeps a property of the world, and relates each child to what it makes of it, does so
-- for every child of a loop.
module _ (body : ℕ → Child → World → Child × World) (I : World → Type 0)
    (Q : ℕ → Child → Child → Type 0)
    (keep : (i : ℕ) (c : Child) (w : World) → I w → I (body i c w).1)
    (make : (i : ℕ) (c : Child) (w : World) → I w → Q i c (body i c w).0) where
  pub for_children_world :
      (i : ℕ) (cs : List Child) (w : World) → I w → I (for_children body i cs w).1
  unfolding for_children
  for_children_world i [] w h = h
  for_children_world i (c ∷ cs) w h = for_children_world (i + 1) cs (body i c w).1 (keep i c w h)

  for_children_at :
      (i j : ℕ) (cs : List Child) (w : World)
      → I w
      → j < length cs
      → Q (i + j) (get_or cs j blank) (get_or (for_children body i cs w).0 j blank)
  unfolding for_children
  for_children_at i j [] w h k = absurd (omega arith)
  for_children_at i zero (c ∷ cs) w h k = rw add-zero (make i c w h)
  for_children_at i (suc j) (c ∷ cs) w h k =
      let e : i + suc j ≡ i + 1 + j = omega arith in
      rw e (for_children_at (i + 1) j cs (body i c w).1 (keep i c w h) (omega arith))

  pub for_children_all :
      (j : ℕ) (cs : List Child) (w : World)
      → I w
      → j < length cs
      → Q j (get_or cs j blank) (get_or (for_children body 0 cs w).0 j blank)
  for_children_all j cs w h k =
      let z : 0 + j ≡ j = omega arith in rw z at (for_children_at 0 j cs w h k)

-- The same where the property depends on the index, and the children have one of their own.
module _ (body : ℕ → Child → World → Child × World) (I : ℕ → World → Type 0)
    (H : ℕ → Child → Type 0) (Q : ℕ → Child → Child → Type 0)
    (keep : (i : ℕ) (c : Child) (w : World) → I i w → H i c → I (i + 1) (body i c w).1)
    (make : (i : ℕ) (c : Child) (w : World) → I i w → H i c → Q i c (body i c w).0) where
  for_children_nth :
      (i j : ℕ) (cs : List Child) (w : World)
      → I i w
      → ((m : ℕ) → m < length cs → H (i + m) (get_or cs m blank))
      → j < length cs
      → Q (i + j) (get_or cs j blank) (get_or (for_children body i cs w).0 j blank)
  unfolding for_children
  for_children_nth i j [] w h all k = absurd (omega arith)
  for_children_nth i zero (c ∷ cs) w h all k =
      let own : H i c = rw add-zero at (all 0 (omega arith)) in rw add-zero (make i c w h own)
  for_children_nth i (suc j) (c ∷ cs) w h all k =
      let own : H i c = rw add-zero at (all 0 (omega arith)) in
      let e : (m : ℕ) → i + suc m ≡ i + 1 + m = λ m. omega arith in
      rw (e j) (
        for_children_nth (i + 1) j cs (body i c w).1 (keep i c w h own)
          (λ m less. rw e at (all (suc m) (omega arith))) (omega arith))

  pub for_children_each :
      (j : ℕ) (cs : List Child) (w : World)
      → I 0 w
      → ((m : ℕ) → m < length cs → H m (get_or cs m blank))
      → j < length cs
      → Q j (get_or cs j blank) (get_or (for_children body 0 cs w).0 j blank)
  for_children_each j cs w h all k =
      let z : (m : ℕ) → 0 + m ≡ m = λ m. omega arith in
      rw (z j) at (for_children_nth 0 j cs w h (λ m less. rw (z m) (all m less)) k)

pub length-for_children :
    (body : ℕ → Child → World → Child × World) (i : ℕ) (cs : List Child) (w : World)
    → length (for_children body i cs w).0 ≡ length cs
unfolding for_children
length-for_children body i [] w = refl
length-for_children body i (c ∷ cs) w = ap suc (length-for_children body (i + 1) cs (body i c w).1)

-- A child that is alive has a process.
abbrev pub IsSound : Child → Type 0
IsSound c = c.alive ≡ true → c.proc ≢ none

-- Whether the strategy covers child `j` when child `i` has crashed.
abbrev pub covers : Strategy → ℕ → ℕ → Bool
covers one_for_one i j = j == i
covers one_for_all i j = true
covers rest_for_one i j = leb i j

-- The number of the spawn that child `j` gets, counted from the crash of child `i` on.
abbrev pub place : Strategy → ℕ → ℕ → ℕ
place one_for_one i j = 0
place one_for_all i j = j
place rest_for_one i j = j - i

-- The next monitor `n` is not older than `base`, at child `i` of `len`: the counter does not wrap
-- before the last child, which takes nothing if `base` is 0.
abbrev pub Room : ℕ → ℕ → ℕ → ℕ → Type 0
Room base len i n = (base ≤ n) × ((base ≡ 0) ⊎ (n + len < 2 ^ 64 + i))

pub Room-same : (base len i n : ℕ) → Room base len i n → Room base len (i + 1) n
Room-same base len i n (low, inl z) = (low, inl z)
Room-same base len i n (low, inr h) = (low, inr (omega arith))

pub Room-next :
    (base len i n : ℕ) → i < len → Room base len i n → Room base len (i + 1) ((n + 1) % 2 ^ 64)
Room-next base len i n k (low, inl z) = (omega arith, inl z)
Room-next base len i n k (low, inr h) = (omega arith, inr (omega arith))

-- The two counters are as they were.
abbrev pub SameCounters : World → World → Type 0
SameCounters w v = (v.spawns ≡ w.spawns) × (v.next_ref ≡ w.next_ref)

-- The world of the second loop at child `j`: each child from `from` on has got one spawn.
abbrev pub Spawned : ℕ → ℕ → ℕ → ℕ → ℕ → World → Type 0
Spawned base len first from j w = (w.spawns ≡ first + (j - from)) × Room base len j w.next_ref

-- Before the second loop: the child is dead if it is to be started.
abbrev pub Waits : ℕ → ℕ → ℕ → Child → Type 0
Waits len from j c = (j < len) × (leb from j ≡ true → c.alive ≡ false)

module _ (grant : ℕ → Option ℕ) where
  -- What becomes of a child that is started by spawn number `n`: if that gives a process, the child is
  -- alive with it, under a monitor that is not older than `base`; if not, the child is dead.
  abbrev pub Restarted : ℕ → ℕ → Child → Child → Type 0
  Restarted n base c d =
      (d.spec ≡ c.spec)
      × (((p : ℕ) × (grant n ≡ some p)
            × (d.alive ≡ true)
            × (d.proc ≡ some p)
            × (base ≤ d.monitor_ref))
          ⊎ (grant n ≡ none) × (d.alive ≡ false) × (d.proc ≡ none))

  next_ref-register :
      (name : Bytes) (p : ℕ) (w : World) → (register_child name p w).next_ref ≡ w.next_ref
  unfolding register_child
  next_ref-register [] p w = refl
  next_ref-register (c ∷ name) p w = refl

  spawns-register : (name : Bytes) (p : ℕ) (w : World) → (register_child name p w).spawns ≡ w.spawns
  unfolding register_child
  spawns-register [] p w = refl
  spawns-register (c ∷ name) p w = refl

  pub start_child-Restarted :
      (base : ℕ) (c : Child) (w : World)
      → base ≤ w.next_ref
      → c.alive ≡ false
      → Restarted w.spawns base c (start_child grant c w).0
  unfolding start_child
  start_child-Restarted base c w h dead = elim (Option-cases (grant w.spawns)) [
    | inl e ↦ rw (e, start_child) (refl, inr (refl, dead, refl))
    | inr (p, e) ↦ rw (e, start_child) (refl, inl (p, refl, refl, refl, h))
  ]

  pub start_child-world :
      (base len i : ℕ) (c : Child) (w : World)
      → i < len
      → Room base len i w.next_ref
      → ((start_child grant c w).1.spawns ≡ w.spawns + 1)
        × Room base len (i + 1) (start_child grant c w).1.next_ref
  unfolding start_child
  start_child-world base len i c w k h = elim (Option-cases (grant w.spawns)) [
    | inl e ↦ rw (e, start_child) (refl, Room-same base len i w.next_ref h)
    | inr (p, e) ↦
        rw (e, start_child)
          (rw (spawns-register, next_ref-register) (refl, Room-next base len i w.next_ref k h))
  ]

  -- What the first loop makes of a child: the covered ones are dead after it, the others as before.
  abbrev pub Killed : ℕ → ℕ → ℕ → Child → Child → Type 0
  Killed from skip j c d =
      IsSound c
      → (j ≡ skip → c.alive ≡ false)
      → (d.spec ≡ c.spec) × (leb from j ≡ true → d.alive ≡ false) × (leb from j ≡ false → d ≡ c)

  kill_child-dead :
      (c : Child) (w : World)
      → IsSound c
      → c.alive ≡ true
      → ((kill_child c w).0.spec ≡ c.spec) × ((kill_child c w).0.alive ≡ false)
  unfolding kill_child
  kill_child-dead c w sound live = elim (Option-cases c.proc) [
    | inl e ↦ absurd (sound live e)
    | inr (p, e) ↦ rw (e, kill_child) (rw (live, kill_child) (refl, refl))
  ]

  and_last : (a b c : Bool) → (a && b && c) ≡ true → c ≡ true
  and_last true true c h = h
  and_last true false c h = absurd (cc)
  and_last false b c h = absurd (cc)

  and_first : (a b c : Bool) → (a && b && c) ≡ true → a ≡ false → ⊥
  and_first true b c h k = cc
  and_first false b c h k = cc

  and_not :
      (a b c : Bool) → (a && not b && c) ≡ false → a ≡ true → (b ≡ true → c ≡ false) → c ≡ false
  and_not true true c h k l = l refl
  and_not true false c h k l = h
  and_not false b c h k l = absurd (cc)

  pub kill_others-Killed :
      (from skip j : ℕ) (c : Child) (w : World)
      → Killed from skip j c (kill_others from skip j c w).0
  unfolding kill_others
  kill_others-Killed from skip j c w sound skipped =
      elim (Bool-cases (leb from j && not (j == skip) && c.alive)) [
        | inl e ↦
            let killed =
              kill_child-dead c w sound (and_last (leb from j) (not (j == skip)) c.alive e) in
            rw (e, kill_others)
              (
                killed.0,
                (λ k. killed.1),
                λ k. absurd (and_first (leb from j) (not (j == skip)) c.alive e k),
              )
        | inr e ↦
            rw (e, kill_others)
              (
                refl,
                (λ k.
                    and_not (leb from j) (j == skip) c.alive e k
                      (λ q. skipped ((==_iff j skip).0 q))),
                λ k. refl,
              )
      ]

  kill_child-SameCounters : (c : Child) (w : World) → SameCounters w (kill_child c w).1
  unfolding kill_child
  kill_child-SameCounters c w = elim (Option-cases c.proc) [
    | inl e ↦ rw (e, kill_child) (refl, refl)
    | inr (p, e) ↦ elim (Bool-cases c.alive) [
      | inl a ↦ rw (e, kill_child) (rw (a, kill_child) (refl, refl))
      | inr a ↦ rw (e, kill_child) (rw (a, kill_child) (refl, refl))
    ]
  ]

  pub kill_others-SameCounters :
      (from skip j : ℕ) (c : Child) (w v : World)
      → SameCounters w v
      → SameCounters w (kill_others from skip j c v).1
  unfolding kill_others
  kill_others-SameCounters from skip j c w v (s, n) =
      elim (Bool-cases (leb from j && not (j == skip) && c.alive)) [
        | inl e ↦
            let same = kill_child-SameCounters c v in rw (e, kill_others) (same.0 ∙ s, same.1 ∙ n)
        | inr e ↦ rw (e, kill_others) (s, n)
      ]

  -- What the second loop makes of a child.
  abbrev pub Started : ℕ → ℕ → ℕ → ℕ → Child → Child → Type 0
  Started base first from j c d =
      (leb from j ≡ true → Restarted (first + (j - from)) base c d) × (leb from j ≡ false → d ≡ c)

  pub start_dead-Started :
      (base len first from j : ℕ) (c : Child) (w : World)
      → Spawned base len first from j w
      → Waits len from j c
      → Started base first from j c (start_dead grant from j c w).0
  unfolding start_dead
  start_dead-Started base len first from j c w (n, (low, room)) (k, dead) =
      elim (Bool-cases (leb from j)) [
        | inl e ↦ (
          (λ q.
              let both : (leb from j && not c.alive) ≡ true = rw (e, dead e) refl in
              rw (both, start_dead, ← n) (start_child-Restarted base c w low (dead e))),
          λ q. absurd (cc),
        )
        | inr e ↦ ((λ q. absurd (cc)), λ q. rw (e, start_dead) refl)
      ]

  pub start_dead-Spawned :
      (base len first from j : ℕ) (c : Child) (w : World)
      → Spawned base len first from j w
      → Waits len from j c
      → Spawned base len first from (j + 1) (start_dead grant from j c w).1
  unfolding start_dead
  start_dead-Spawned base len first from j c w (n, room) (k, dead) =
      elim (Bool-cases (leb from j)) [
        | inl e ↦
            let both : (leb from j && not c.alive) ≡ true = rw (e, dead e) refl in
            let made = start_child-world base len j c w k room in
            let more : w.spawns + 1 ≡ first + (j + 1 - from) = ground (arith, e, n) in
            rw (both, start_dead) (made.0 ∙ more, made.1)
        | inr e ↦
            let more : w.spawns ≡ first + (j + 1 - from) = ground (arith, e, n) in
            rw (e, start_dead) (more, Room-same base len j w.next_ref room)
      ]
