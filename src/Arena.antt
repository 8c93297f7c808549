-- ===== src/Arena.antt =====
-- The arena of src/swarmrt_arena.h with `sw_arena_init`, `sw_spawn_opts` and `process_destroy` of
-- src/swarmrt_native.c: slots of the process slab and heap blocks, on one pair of free stacks for
-- each scheduler. A stack is the list of its entries with the top first; that its array is never
-- overrun is a theorem. The locks make each access of a partition one step, and a call of
-- `sw_spawn_opts` is modelled as it runs with no other thread between its accesses. The fields of
-- the process control block are not modelled here, nor is a failure of mmap for its stack.
pub mod Steal
pub mod Conserve
pub mod Start
pub mod Schedule
use swarmrt.Base.{
  ℕ, zero, suc, ◌+◌, ◌-◌, ◌*◌, ◌/◌, ◌%◌, ◌^◌, List, [], ◌∷◌, Bool, true, false, Option, none, some,
  if◌then◌else◌, ◌==◌, ltb, length, get_or, set,
}

-- `SW_MAX_PARTITIONS` and `SW_STEAL_BATCH`
abbrev pub max_partitions : ℕ
max_partitions = 64

abbrev pub steal_batch : ℕ
steal_batch = 64

-- `sw_arena_partition_t`
pub record Part : Type 0 where
  pub pids : List ℕ
  pub blocks : List ℕ

abbrev pub no_part : Part
no_part = record { pids = []; blocks = [] }

-- The partitions, and the counters that the allocator shares with the swarm.
pub record Arena : Type 0 where
  pub parts : List Part
  pub num_schedulers : ℕ
  pub next_sched : ℕ
  pub next_pid : ℕ

-- `part_pop_pid`, with `none` for -1.
unfoldable pub pop_pid : Part → Option ℕ × Part
pop_pid p = elim p.pids [ [] ↦ (none, p) | x ∷ xs ↦ (some x, record p { pids = xs }) ]

-- `part_pop_block`
unfoldable pub pop_block : Part → Option ℕ × Part
pop_block p = elim p.blocks [ [] ↦ (none, p) | x ∷ xs ↦ (some x, record p { blocks = xs }) ]

-- `part_push_pid`
unfoldable pub push_pid : ℕ → Part → Part
push_pid x p = record p { pids = x ∷ p.pids }

-- `part_push_block`
unfoldable pub push_block : ℕ → Part → Part
push_block x p = record p { blocks = x ∷ p.blocks }

-- The loop of the two steal functions: `n` times the victim's top goes to the top of the other.
unfoldable pub move_tops : ℕ → List ℕ → List ℕ → List ℕ × List ℕ
move_tops zero dst victim = (dst, victim)
move_tops (suc n) dst [] = (dst, [])
move_tops (suc n) dst (x ∷ victim) = move_tops n (x ∷ dst) victim

-- How many entries are stolen: half, rounded up, and a batch at most.
unfoldable pub steal_count : ℕ → ℕ
steal_count avail = let n = (avail + 1) / 2 in if ltb steal_batch n then steal_batch else n

-- `part_steal_pids`: the new stacks of the thief and of the victim.
unfoldable pub steal_pids : Part → Part → Part × Part
unfolding move_tops steal_count
steal_pids dst victim =
    let (d, v) = move_tops (steal_count (length victim.pids)) dst.pids victim.pids in
    (record dst { pids = d }, record victim { pids = v })

-- `part_steal_blocks`
unfoldable pub steal_blocks : Part → Part → Part × Part
unfolding move_tops steal_count
steal_blocks dst victim =
    let (d, v) = move_tops (steal_count (length victim.blocks)) dst.blocks victim.blocks in
    (record dst { blocks = d }, record victim { blocks = v })

-- A slot and a block, each unless its stack was empty.
abbrev pub Grab : Type 0
Grab = Option ℕ × Option ℕ

-- A pop of a slot, and of a block if there was a slot.
unfoldable pub pop_both : Part → Grab × Part
unfolding pop_pid pop_block
pop_both p =
    let (slot, p') = pop_pid p in
    elim slot [
      | none ↦ ((none, none), p')
      | some x ↦ let (block, p'') = pop_block p' in ((some x, block), p'')
    ]

-- A slot with no block is pushed back.
unfoldable pub give_back : Grab → Part → Grab × Part
unfolding push_pid
give_back (none, b) p = ((none, b), p)
give_back (some x, none) p = ((none, none), push_pid x p)
give_back (some x, some b) p = ((some x, some b), p)

unfoldable pub has_both : Grab → Bool
has_both (some x, some b) = true
has_both (some x, none) = false
has_both (none, b) = false

-- One round of the steal loop: a victim is robbed of what is lacking, and both pops are tried. A
-- slot that an earlier round popped with no block is overwritten.
unfoldable pub rob : Grab → Part → Part → Grab × Part × Part
unfolding steal_pids steal_blocks pop_both
rob (slot, block) p victim =
    let first : Part × Part = elim slot [ none ↦ steal_pids p victim | some _ ↦ (p, victim) ] in
    let second : Part × Part = elim block [
      | none ↦ steal_blocks first.0 first.1
      | some _ ↦ first
    ] in
    let (got, p') = pop_both second.0 in (got, p', second.1)

-- One index of the steal loop: the partition itself is passed over.
unfoldable pub round : ℕ → ℕ → Grab → List Part → Grab × List Part
round i id got parts =
    let (got', p, v) = rob got (get_or parts id no_part) (get_or parts i no_part) in
    if i == id then (got, parts) else (got', set (set parts i v) id p)

-- The steal loop over the partitions from `i` on, `n` of them.
unfoldable pub rob_all : ℕ → ℕ → ℕ → Grab × List Part → Grab × List Part
unfolding has_both
rob_all zero i id s = s
rob_all (suc n) i id s =
    let rest = rob_all n (i + 1) id (round i id s.0 s.1) in if has_both s.0 then s else rest

-- What `sw_spawn_opts` takes for a process: its slot, its block, its PID and its scheduler.
pub record Spawned : Type 0 where
  pub slot : ℕ
  pub block : ℕ
  pub pid : ℕ
  pub sched : ℕ

unfoldable pub hand_out : ℕ → Grab → Arena → Option Spawned × Arena
hand_out sched (some x, some b) a = (
  some (record { slot = x; block = b; pid = a.next_pid; sched = sched }),
  record a { next_pid = (a.next_pid + 1) % 2 ^ 64 },
)
hand_out sched (some x, none) a = (none, a)
hand_out sched (none, b) a = (none, a)

-- The partition of a scheduler: its own, or the first one if it has none.
unfoldable pub part_of : ℕ → List Part → ℕ
part_of sched parts = if ltb sched (length parts) then sched else 0

-- Steps 2 and 3 of `sw_spawn_opts`: a pop from the own partition, else from what it steals.
unfoldable pub grab : ℕ → List Part → Grab × List Part
grab id parts =
    let (got, p) = pop_both (get_or parts id no_part) in
    let (got₁, p₁) = give_back got p in rob_all (length parts) 0 id (got₁, set parts id p₁)

-- `sw_spawn_opts`, as far as it allocates: `none` is NULL.
unfoldable pub spawn : Arena → Option Spawned × Arena
spawn a =
    let sched = a.next_sched % a.num_schedulers in
    let (got, parts) = grab (part_of sched a.parts) a.parts in
    hand_out sched got (record a { parts = parts; next_sched = (a.next_sched + 1) % 2 ^ 32 })

-- The end of `process_destroy`: the slot and the block go to the partition of the scheduler that
-- cleans up (0 outside a scheduler).
unfoldable pub destroy : ℕ → ℕ → ℕ → Arena → Arena
unfolding push_pid push_block
destroy sched slot block a =
    let id = part_of sched a.parts in
    record a {
      parts = set a.parts id (push_block block (push_pid slot (get_or a.parts id no_part)));
    }

-- The numbers from `start` on, `n` of them, pushed one after the other on a stack.
unfoldable pub push_range : ℕ → ℕ → List ℕ → List ℕ
push_range start zero stack = stack
push_range start (suc n) stack = push_range (start + 1) n (start ∷ stack)

-- The loop of `sw_arena_init` over the partitions from `p` on, `n` of them; the last takes the rest.
unfoldable pub init_parts : ℕ → ℕ → ℕ → ℕ → List Part
unfolding push_range
init_parts max_procs per p zero = []
init_parts max_procs per p (suc n) =
    let size : ℕ = elim n [ zero ↦ max_procs - p * per | suc k ↦ per ] in
    record { pids = push_range (p * per) size []; blocks = push_range (p * per) size [] }
    ∷ init_parts max_procs per (p + 1) n

unfoldable pub num_parts : ℕ → ℕ
num_parts n =
    let at_least = if n == 0 then 1 else n in
    if ltb max_partitions at_least then max_partitions else at_least

-- `sw_arena_init`
unfoldable pub new : ℕ → ℕ → Arena
unfolding init_parts num_parts
new num_schedulers max_procs =
    let n = num_parts num_schedulers in
    record {
      parts = init_parts max_procs (max_procs / n) 0 n;
      num_schedulers = num_schedulers;
      next_sched = 0;
      next_pid = 0;
    }
