-- ===== src/Arena/Start.antt =====
-- What `sw_arena_init` sets up: every slot of the slab is free once, with its block.
use swarmrt.Base.{
  ℕ, zero, suc, ◌+◌, ◌-◌, ◌*◌, ◌/◌, ◌≤◌, ◌<◌, ◌≡◌, refl, ap, List, [], ◌∷◌, if◌then◌else◌, ltb, leb,
  arith, length, All,
}
use swarmrt.Arena.{push_range, init_parts, num_parts, new}
use swarmrt.Arena.Steal.{IsPaired, count}
use swarmrt.Arena.Conserve.{free, IsValid}

abbrev within : ℕ → ℕ → ℕ → ℕ
within lo hi y = if leb lo y then (if ltb y hi then 1 else 0) else 0

push_range-count :
    (y start n : ℕ) (stack : List ℕ)
    → count y (push_range start n stack) ≡ within start (start + n) y + count y stack
unfolding push_range count
push_range-count y start zero stack = ground arith
push_range-count y start (suc n) stack =
    ground (arith, push_range-count y (start + 1) n (start ∷ stack))

init_parts-free :
    (y max per p n : ℕ)
    → (p + suc n) * per ≤ max
    → free y (init_parts max per p (suc n)) ≡ within (p * per) max y
unfolding init_parts free
init_parts-free y max per p zero h =
    let e : p * per + (max - p * per) ≡ max = omega arith in
    let filled = push_range-count y (p * per) (max - p * per) [] in
    let none_more : count y [] ≡ 0 = unfold count in refl in
    omega (arith, rw e at filled, none_more)
init_parts-free y max per p (suc n) h =
    let rest = init_parts-free y max per (p + 1) n (omega arith) in
    let first = push_range-count y (p * per) per [] in
    let none_more : count y [] ≡ 0 = unfold count in refl in
    let next : (p + 1) * per ≡ p * per + per = omega arith in
    let room : p * per + per ≤ max = omega arith in
    ground (arith, rest, first, none_more, next, room)

init_parts-IsPaired : (max per p n : ℕ) → All IsPaired (init_parts max per p n)
unfolding init_parts
init_parts-IsPaired max per p zero = tt
init_parts-IsPaired max per p (suc n) = (refl, init_parts-IsPaired max per (p + 1) n)

length-init_parts : (max per p n : ℕ) → length (init_parts max per p n) ≡ n
unfolding init_parts
length-init_parts max per p zero = refl
length-init_parts max per p (suc n) = ap suc (length-init_parts max per (p + 1) n)

num_parts_pos : (n : ℕ) → 0 < num_parts n
unfolding num_parts
num_parts_pos n = ground arith

-- With at least one scheduler the arena starts valid, every slot of the slab is free exactly once,
-- and no other number is.
pub new_lem :
    (num_schedulers max_procs : ℕ)
    → 0 < num_schedulers
    → IsValid (new num_schedulers max_procs)
      × ((y : ℕ) → free y (new num_schedulers max_procs).parts ≡ (if ltb y max_procs then 1 else 0))
unfolding new
new_lem s max h =
    let pos = num_parts_pos s in
    (
      record {
        some_parts = rw length-init_parts pos;
        some_schedulers = h;
        paired = init_parts-IsPaired max (max / num_parts s) 0 (num_parts s);
      },
      λ y. start (num_parts s) pos y,
    )
  where
    mul_div_le : (n m : ℕ) → n * (m / n) ≤ m
    mul_div_le n m = grind arith

    start :
        (n : ℕ)
        → 0 < n
        → (y : ℕ) → free y (init_parts max (max / n) 0 n) ≡ (if ltb y max then 1 else 0)
    start zero h y = absurd (omega arith)
    start (suc n) h y =
        rw (init_parts-free y max (max / suc n) 0 n (omega (arith, mul_div_le (suc n) max)))
          (ground arith)
