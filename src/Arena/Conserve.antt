-- ===== src/Arena/Conserve.antt =====
-- The allocator as a whole: slots and blocks are neither lost nor doubled, and a spawn fails only
-- when no slot is free in any partition.
use swarmrt.Base.{
  ℕ, zero, suc, ◌+◌, ◌%◌, ◌≤◌, ◌<◌, ◌≡◌, refl, ap, ◌⊎◌, inl, inr, List, [], ◌∷◌, Option, none, some,
  if◌then◌else◌, ◌==◌, arith, length, get_or, set, All, Bool-cases, length-set, get_or-set,
  All-get_or, All-set, set-get_or,
}
use swarmrt.Arena.{
  Part, no_part, Arena, push_pid, push_block, Grab, has_both, round, rob_all, Spawned, hand_out,
  part_of, grab, spawn, destroy,
}
use swarmrt.Arena.Steal.{IsPaired, count, pop_both_cases, give_back_keeps, rob_empty, rob_full}

-- How often a slot is free.
unfoldable pub free : ℕ → List Part → ℕ
free y [] = 0
free y (p ∷ ps) = count y p.pids + free y ps

free-set :
    (y : ℕ) (ps : List Part) (i : ℕ) (p : Part)
    → i < length ps
    → free y (set ps i p) + count y (get_or ps i no_part).pids ≡ free y ps + count y p.pids
unfolding free
free-set y [] i p h = absurd (omega arith)
free-set y (q ∷ ps) zero p h = omega arith
free-set y (q ∷ ps) (suc i) p h = omega (arith, free-set y ps i p (omega arith))

pub record IsValid (a : Arena) : Type 0 where
  pub some_parts : 0 < length a.parts
  pub some_schedulers : 0 < a.num_schedulers
  pub paired : All IsPaired a.parts

-- The steal loop with empty hands, beside an empty stack of its own.
List-cases : (l : List ℕ) → (l ≡ []) ⊎ (0 < length l)
List-cases [] = inl refl
List-cases (x ∷ l) = inr (omega arith)

abbrev Outcome : ℕ → ℕ → List Part → Grab × List Part → Type 0
Outcome i n parts r =
    (r ≡ ((none, none), parts)) × ((j : ℕ) → i ≤ j → j < i + n → (get_or parts j no_part).pids ≡ [])
    ⊎ ((x : ℕ) × (r.0 ≡ (some x, some x))
        × All IsPaired r.1
        × (length r.1 ≡ length parts)
        × ((y : ℕ) → free y parts ≡ free y r.1 + (if x == y then 1 else 0)))

rob_all_done :
    (n i id x : ℕ) (parts : List Part)
    → rob_all n i id ((some x, some x), parts) ≡ ((some x, some x), parts)
unfolding rob_all has_both
rob_all_done zero i id x parts = refl
rob_all_done (suc n) i id x parts = refl

-- One index of the loop, as an outcome of length one.
round_lem :
    (i id : ℕ) (parts : List Part)
    → id < length parts
    → i < length parts
    → All IsPaired parts
    → (get_or parts id no_part).pids ≡ []
    → Outcome i 1 parts (round i id (none, none) parts)
unfolding round
round_lem i id parts own inside paired mine =
    let p = get_or parts id no_part in
    let v = get_or parts i no_part in
    let p_paired : IsPaired p = All-get_or IsPaired parts id no_part paired refl in
    let v_paired : IsPaired v = All-get_or IsPaired parts i no_part paired refl in
    elim (Bool-cases (i == id)) [
      | inl e ↦ inl (rw e refl, λ j a b. let k : j ≡ id = ground arith in rw k mine)
      | inr e ↦ elim (List-cases v.pids) [
        | inl none_there ↦ inl (
          rw (e, rob_empty p v p_paired v_paired mine none_there, set-get_or, set-get_or) refl,
          λ j a b. let k : j ≡ i = omega arith in rw k none_there,
        )
        | inr some_there ↦
            let (x, p', v', r, t) = rob_full p v p_paired v_paired mine some_there in
            rw (e, r)
              (inr (
                x,
                refl,
                All-set IsPaired (set parts i v') id p'
                    (All-set IsPaired parts i v' paired t.victim) t.thief,
                rw (length-set, length-set) refl,
                λ y.
                    let a = free-set y parts i v' inside in
                    let b = free-set y (set parts i v') id p' (rw length-set own) in
                    let c : get_or (set parts i v') id no_part ≡ p =
                      rw (get_or-set parts i id v' no_part inside, e) refl in
                    let d : count y p.pids ≡ 0 = unfold count in rw mine refl in
                    omega (arith, a, rw c at b, d, t.moved y),
              ))
      ]
    ]

pair_eq : (s : Grab × List Part) {g : Grab} → s.0 ≡ g → s ≡ (g, s.1)
pair_eq s e = ground arith

rob_all_lem :
    (n i id : ℕ) (parts : List Part)
    → id < length parts
    → i + n ≤ length parts
    → All IsPaired parts
    → (get_or parts id no_part).pids ≡ []
    → Outcome i n parts (rob_all n i id ((none, none), parts))
unfolding rob_all has_both
rob_all_lem zero i id parts own inside paired mine = inl (refl, λ j a b. absurd (omega arith))
rob_all_lem (suc n) i id parts own inside paired mine =
    elim (round_lem i id parts own (omega arith) paired mine) [
      | inr found ↦
          let e = pair_eq (round i id (none, none) parts) found.1 in
          rw (e, rob_all_done) (inr (found.0, refl, found.2, found.3, found.4))
      | inl (e, here) ↦ rw e (elim (rob_all_lem n (i + 1) id parts own (omega arith) paired mine) [
        | inr found ↦ inr found
        | inl (r, there) ↦ inl (
          r,
          λ j a b. elim (Bool-cases (j == i)) [
            | inl k ↦ here j a (ground arith)
            | inr k ↦ there j (ground arith) (omega arith)
          ],
        )
      ])
    ]

part_of-lt : (sched : ℕ) (parts : List Part) → 0 < length parts → part_of sched parts < length parts
unfolding part_of
part_of-lt sched parts h = ground arith

free_of_empty :
    (y : ℕ) (ps : List Part)
    → ((j : ℕ) → j < length ps → (get_or ps j no_part).pids ≡ [])
    → free y ps ≡ 0
unfolding free count
free_of_empty y [] h = refl
free_of_empty y (p ∷ ps) h =
    let rest = free_of_empty y ps (λ j k. h (suc j) (omega arith)) in
    rw (h 0 (omega arith)) (omega (arith, rest))

abbrev GrabResult : List Part → Grab × List Part → Type 0
GrabResult parts r =
    (r ≡ ((none, none), parts)) × ((y : ℕ) → free y parts ≡ 0)
    ⊎ ((x : ℕ) × (r.0 ≡ (some x, some x))
        × All IsPaired r.1
        × (length r.1 ≡ length parts)
        × ((y : ℕ) → free y parts ≡ free y r.1 + (if x == y then 1 else 0)))

grab_lem :
    (id : ℕ) (parts : List Part)
    → id < length parts
    → All IsPaired parts
    → GrabResult parts (grab id parts)
unfolding grab
grab_lem id parts inside paired =
    let p = get_or parts id no_part in
    let mine : IsPaired p = All-get_or IsPaired parts id no_part paired refl in
    elim (pop_both_cases p mine) [
      | inr (x, xs, top, popped) ↦
          let left : Part = record { pids = xs; blocks = xs } in
          rw (popped, give_back_keeps (some x, some x) left refl, rob_all_done)
            (inr (
              x,
              refl,
              All-set IsPaired parts id left paired refl,
              length-set parts id left,
              λ y.
                  let a = free-set y parts id left inside in
                  let b : count y p.pids ≡ (if x == y then 1 else 0) + count y xs =
                    unfold count in rw top refl in
                  omega (arith, a, b),
            ))
      | inl (none_left, popped) ↦
          rw (popped, give_back_keeps (none, none) p refl, set-get_or)
            (elim (rob_all_lem (length parts) 0 id parts inside (omega arith) paired none_left) [
              | inl (e, none_there) ↦
                  inl (
                    e,
                    λ y. free_of_empty y parts (λ j k. none_there j (omega arith) (omega arith)),
                  )
              | inr found ↦ inr found
            ])
    ]

-- What a spawn does with the free slots.
abbrev pub SpawnResult : Arena → Option Spawned × Arena → Type 0
SpawnResult a (some s, a') =
    (s.block ≡ s.slot)
    × ((y : ℕ) → free y a.parts ≡ free y a'.parts + (if s.slot == y then 1 else 0))
SpawnResult a (none, a') = ((y : ℕ) → free y a.parts ≡ 0) × (a'.parts ≡ a.parts)

-- On a valid arena a spawn hands out a slot with the block of the same number, which was free and is
-- now free once less, while every other slot is free as often as before; it fails only when no slot
-- is free in any partition, and then moves nothing. The arena stays valid.
pub spawn_lem : (a : Arena) → IsValid a → SpawnResult a (spawn a) × IsValid (spawn a).1
unfolding spawn hand_out
spawn_lem a v =
    let sched = a.next_sched % a.num_schedulers in
    let inside = part_of-lt sched a.parts v.some_parts in
    elim (grab_lem (part_of sched a.parts) a.parts inside v.paired) [
      | inl (e, none_free) ↦ rw e (
        (none_free, refl),
        record {
          some_parts = v.some_parts;
          some_schedulers = v.some_schedulers;
          paired = v.paired;
        },
      )
      | inr (x, e, paired, len, counts) ↦ rw (pair_eq (grab (part_of sched a.parts) a.parts) e) (
        (refl, counts),
        record {
          some_parts = rw len v.some_parts;
          some_schedulers = v.some_schedulers;
          paired = paired;
        },
      )
    ]

-- A clean-up makes the slot of the process free once more and every other slot as often as before;
-- the arena stays valid if the process had the block of the same number.
pub destroy_lem :
    (sched slot : ℕ) (a : Arena)
    → IsValid a
    → IsValid (destroy sched slot slot a)
      × ((y : ℕ)
          → free y (destroy sched slot slot a).parts
            ≡ free y a.parts + (if slot == y then 1 else 0))
unfolding destroy push_pid push_block
destroy_lem sched slot a v =
    let id = part_of sched a.parts in
    let inside = part_of-lt sched a.parts v.some_parts in
    let p = get_or a.parts id no_part in
    let mine : IsPaired p = All-get_or IsPaired a.parts id no_part v.paired refl in
    let p' : Part = record { pids = slot ∷ p.pids; blocks = slot ∷ p.blocks } in
    (
      record {
        some_parts = rw length-set v.some_parts;
        some_schedulers = v.some_schedulers;
        paired = All-set IsPaired a.parts id p' v.paired (ap (λ l. slot ∷ l) mine);
      },
      λ y. unfold count in omega (arith, free-set y a.parts id p' inside),
    )
