-- ===== src/Arena/Schedule.antt =====
-- Which scheduler `sw_spawn_link` of src/swarmrt_native.c gives its child. It draws schedulers in
-- turn until one is not the parent's, and then `sw_spawn_opts` draws once more.
use swarmrt.Base.{
  ℕ, zero, suc, ◌+◌, ◌%◌, ◌^◌, ◌<◌, ◌≡◌, true, false, if◌then◌else◌, ◌==◌, ltb, arith,
}

-- `__sync_fetch_and_add(&g_swarm->next_sched, 1) % g_swarm->num_schedulers`, and the counter after.
abbrev pub draw : ℕ → ℕ → ℕ × ℕ
draw n next = (next % n, (next + 1) % 2 ^ 32)

-- The loop of `sw_spawn_link`, with fuel; it gives the counter.
unfoldable pub skip_own : ℕ → ℕ → ℕ → ℕ → ℕ
skip_own zero n own next = next
skip_own (suc fuel) n own next =
    let (target, next') = draw n next in
    let again = skip_own fuel n own next' in if target == own then again else next'

-- The scheduler of the child, where `own` is the parent's.
unfoldable pub child_sched : ℕ → ℕ → ℕ → ℕ → ℕ
unfolding skip_own
child_sched fuel n own next =
    let next' = elim (ltb 1 n) as (λ _. ℕ) [ true ↦ skip_own fuel n own next | false ↦ next ] in
    (draw n next').0

-- With two schedulers the loop ends after two draws, and the child always gets the scheduler of its
-- parent, which the loop was to avoid.
pub child_sched_two :
    (fuel own next : ℕ) → own < 2 → next < 2 ^ 32 → child_sched (suc (suc fuel)) 2 own next ≡ own
unfolding child_sched
child_sched_two fuel own next h k = ground arith
