-- ===== src/Arena/Steal.antt =====
-- Every partition keeps as many blocks as slots, in the same order, so that no slot is ever popped
-- with no block.
use swarmrt.Base.{
  ℕ, zero, suc, ◌+◌, ◌<◌, min, ◌≡◌, refl, ap, ◌⊎◌, inl, inr, List, [], ◌∷◌, none, some,
  if◌then◌else◌, ◌==◌, arith, length,
}
use swarmrt.Arena.{
  Part, pop_pid, pop_block, move_tops, steal_count, steal_pids, steal_blocks, Grab, pop_both,
  give_back, rob,
}

-- Blocks go with slots.
abbrev pub IsPaired : Part → Type 0
IsPaired p = p.blocks ≡ p.pids

abbrev pub Matched : Grab → Type 0
Matched g = g.1 ≡ g.0

pub pop_both-IsPaired : (p : Part) → IsPaired p → Matched (pop_both p).0 × IsPaired (pop_both p).1
unfolding pop_both
pop_both-IsPaired p e = ground arith

pub give_back_keeps : (g : Grab) (p : Part) → Matched g → give_back g p ≡ (g, p)
unfolding give_back
give_back_keeps (none, b) p e = refl
give_back_keeps (some x, none) p e = cc
give_back_keeps (some x, some b) p e = refl

steal-IsPaired :
    (p v : Part)
    → IsPaired p
    → IsPaired v
    → let (p₁, v₁) = steal_pids p v in
      let (p₂, v₂) = steal_blocks p₁ v₁ in IsPaired p₂ × IsPaired v₂
unfolding steal_pids steal_blocks
steal-IsPaired p v a b = rw (a, b) (refl, refl)

-- How often a number is on a stack.
unfoldable pub count : ℕ → List ℕ → ℕ
count y [] = 0
count y (x ∷ xs) = (if x == y then 1 else 0) + count y xs

move_tops-count :
    (y n : ℕ) (dst victim : List ℕ)
    → let (d, v) = move_tops n dst victim in count y d + count y v ≡ count y dst + count y victim
unfolding move_tops count
move_tops-count y zero dst victim = refl
move_tops-count y (suc n) dst [] = refl
move_tops-count y (suc n) dst (x ∷ victim) = omega (arith, move_tops-count y n (x ∷ dst) victim)

move_tops-length :
    (n : ℕ) (dst victim : List ℕ)
    → length (move_tops n dst victim).0 ≡ length dst + min n (length victim)
unfolding move_tops
move_tops-length zero dst victim = omega arith
move_tops-length (suc n) dst [] = omega arith
move_tops-length (suc n) dst (x ∷ victim) = omega (arith, move_tops-length n (x ∷ dst) victim)

move_tops-nil : (n : ℕ) (dst : List ℕ) → move_tops n dst [] ≡ (dst, [])
unfolding move_tops
move_tops-nil zero dst = refl
move_tops-nil (suc n) dst = refl

steal_count_pos : (n : ℕ) → 0 < n → 0 < steal_count n
unfolding steal_count
steal_count_pos n h = ground arith

-- What a successful grab holds, once.
abbrev pub held : ℕ → Grab → ℕ
held y (some x, b) = if x == y then 1 else 0
held y (none, b) = 0

pub pop_both_cases :
    (p : Part)
    → IsPaired p
    → (p.pids ≡ []) × (pop_both p ≡ ((none, none), p))
      ⊎ ((x : ℕ) × (xs : List ℕ) × (p.pids ≡ x ∷ xs)
          × (pop_both p ≡ ((some x, some x), record { pids = xs; blocks = xs })))
unfolding pop_both pop_pid pop_block
pop_both_cases p e =
    elim p.pids
        as (λ l.
          p.pids ≡ l
          → (p.pids ≡ []) × (pop_both p ≡ ((none, none), p))
            ⊎ ((x : ℕ) × (xs : List ℕ) × (p.pids ≡ x ∷ xs)
                × (pop_both p ≡ ((some x, some x), record { pids = xs; blocks = xs })))) [
                  | [] ↦ λ h. inl (h, ground arith)
                  | x ∷ xs ↦ λ h. inr (x, xs, h, ground arith)
                ]
      refl

-- A round of the steal loop with empty hands and an empty stack: an empty victim changes nothing,
-- and any other yields a slot with its block.
pub record Robbed (v : Part) (x : ℕ) (p' v' : Part) : Type 0 where
  pub thief : IsPaired p'
  pub victim : IsPaired v'
  pub moved :
      (y : ℕ) → (if x == y then 1 else 0) + count y p'.pids + count y v'.pids ≡ count y v.pids

pub rob_empty :
    (p v : Part)
    → IsPaired p
    → IsPaired v
    → p.pids ≡ []
    → v.pids ≡ []
    → rob (none, none) p v ≡ ((none, none), p, v)
unfolding rob steal_pids steal_blocks pop_both pop_pid pop_block
rob_empty p v a b c d = rw (a, b, c, d) refl

pub rob_full :
    (p v : Part)
    → IsPaired p
    → IsPaired v
    → p.pids ≡ []
    → 0 < length v.pids
    → (x : ℕ) × (p' v' : Part) × (rob (none, none) p v ≡ ((some x, some x), p', v'))
      × Robbed v x p' v'
unfolding rob
rob_full p v a b c d =
    let n = steal_count (length v.pids) in
    let moved = move_tops n p.pids v.pids in
    let p₂ : Part = record { pids = moved.0; blocks = moved.0 } in
    let v₂ : Part = record { pids = moved.1; blocks = moved.1 } in
    let some_moved : length moved.0 ≡ length p.pids + min n (length v.pids) =
      move_tops-length n p.pids v.pids in
    let wanted : 0 < n = steal_count_pos (length v.pids) d in
    elim (pop_both_cases p₂ refl) [
      | inl (none_left, _) ↦ absurd (omega (arith, ap length none_left, some_moved, wanted))
      | inr (x, xs, top, popped) ↦ (
        x,
        record { pids = xs; blocks = xs },
        v₂,
        rw (a, b, popped) refl,
        record { thief = refl; victim = refl; moved = λ y. counted x xs top y },
      )
    ]
  where
    counted :
        (x : ℕ) (xs : List ℕ)
        → (move_tops (steal_count (length v.pids)) p.pids v.pids).0 ≡ x ∷ xs
        → (y : ℕ)
        → (if x == y then 1 else 0)
            + count y xs
            + count y (move_tops (steal_count (length v.pids)) p.pids v.pids).1
          ≡ count y v.pids
    counted x xs top y =
        let all = move_tops-count y (steal_count (length v.pids)) p.pids v.pids in
        let none_there : count y p.pids ≡ 0 = unfold count in rw c refl in
        let first : count y (move_tops (steal_count (length v.pids)) p.pids v.pids).0
            ≡ (if x == y then 1 else 0) + count y xs =
          unfold count in rw top refl in
        omega (arith, all, none_there, first)
