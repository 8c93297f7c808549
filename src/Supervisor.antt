-- ===== src/Supervisor.antt =====
-- The supervisor of src/swarmrt_otp.c. The supervised processes, the registry and the scheduler are
-- seen through the calls that the supervisor makes: each call is an entry of a log, and whether a
-- spawn succeeds is a parameter, which gives the process of the n-th spawn or `none` for NULL. The
-- clock is an argument, in seconds on 32 bits. The freeing of messages and the pauses are left out.
pub mod Breaker
pub mod Loops
pub mod Restarts
pub mod Messages
use swarmrt.Base.{
  ℕ, zero, suc, ◌+◌, ◌-◌, ◌%◌, ◌^◌, min, List, [], ◌∷◌, Bool, true, false, not, ◌&&◌, Option, none,
  some, if◌then◌else◌, ◌==◌, ltb, leb, get_or, set, Bytes,
}

-- `sw_restart_strategy_t`
pub data Strategy : Type 0 where
  one_for_one one_for_all rest_for_one : Strategy

-- `sw_child_restart_t`
pub data Restart : Type 0 where
  permanent temporary transient : Restart

-- `sw_child_spec_t`; the function and its argument are one number.
pub record ChildSpec : Type 0 where
  pub name : Bytes
  pub start : ℕ
  pub restart : Restart

-- `sw_sup_child_rt_t`
pub record Child : Type 0 where
  pub spec : ChildSpec
  pub proc : Option ℕ
  pub monitor_ref : ℕ
  pub alive : Bool

-- `sw_sup_state_t` with the fields of `sw_sup_spec_t` that the loop reads.
pub record Sup : Type 0 where
  pub strategy : Strategy
  pub max_restarts : ℕ
  pub max_seconds : ℕ
  pub children : List Child
  pub restart_times : List ℕ
  pub restart_idx : ℕ
  pub restart_count : ℕ

-- The calls that a supervisor makes.
pub data Call : Type 0 where
  spawn_link : ℕ → Call
  monitor : ℕ → ℕ → Call
  register : Bytes → ℕ → Call
  demonitor : ℕ → Call
  unlink : ℕ → Call
  kill : ℕ → Call

-- What a supervisor sees of the runtime: how many spawns there were, the number of the next monitor,
-- on 64 bits, and its calls, the last one first.
pub record World : Type 0 where
  pub spawns : ℕ
  pub next_ref : ℕ
  pub calls : List Call

abbrev pub ring_size : ℕ
ring_size = 64

-- `now - then <= window` on 32 bits.
unfoldable pub within : ℕ → ℕ → ℕ → Bool
within now window time = leb ((now + 2 ^ 32 - time) % 2 ^ 32) window

-- The counting loop of `sup_check_circuit_breaker` from `i` on, `n` rounds of it.
unfoldable pub count_recent : ℕ → ℕ → Sup → ℕ → ℕ → ℕ
unfolding within
count_recent now window st i zero = 0
count_recent now window st i (suc n) =
    let time = get_or st.restart_times ((st.restart_idx + ring_size - 1 - i) % ring_size) 0 in
    let rest = count_recent now window st (i + 1) n in
    if within now window time then suc rest else 0

-- `sup_check_circuit_breaker`
unfoldable pub check_breaker : ℕ → Sup → Bool
unfolding count_recent
check_breaker now st =
    let window = if st.max_seconds == 0 then 1 else st.max_seconds in
    let count = count_recent now window st 0 (min st.restart_count ring_size) in
    if st.max_restarts == 0 then false else leb st.max_restarts count

-- `sup_record_restart`
unfoldable pub record_restart : ℕ → Sup → Sup
record_restart now st = record st {
  restart_times = set st.restart_times st.restart_idx now;
  restart_idx = (st.restart_idx + 1) % ring_size;
  restart_count = if ltb st.restart_count ring_size then st.restart_count + 1 else st.restart_count;
}

abbrev pub says : Call → World → World
says c w = record w { calls = c ∷ w.calls }

-- `if (child->spec.name[0]) sw_register(...)`
unfoldable pub register_child : Bytes → ℕ → World → World
register_child [] p w = w
register_child (c ∷ name) p w = says (register (c ∷ name) p) w

-- `sup_kill_child`
unfoldable pub kill_child : Child → World → Child × World
kill_child c w = elim c.proc [
  | none ↦ (c, w)
  | some p ↦
      if c.alive
      then (
        record c { alive = false; proc = none },
        says (kill p) (says (unlink p) (says (demonitor c.monitor_ref) w)),
      )
      else (c, w)
]

-- A loop over the children from index `i` on; the index goes to the body.
unfoldable pub for_children :
    (ℕ → Child → World → Child × World) → ℕ → List Child → World → List Child × World
for_children body i [] w = ([], w)
for_children body i (c ∷ cs) w =
    let (c', w') = body i c w in let (cs', w'') = for_children body (i + 1) cs w' in (c' ∷ cs', w'')

-- `sup_kill_child` on every child.
unfoldable pub kill_all : List Child → World → List Child × World
unfolding kill_child for_children
kill_all cs w = for_children (λ i c w. kill_child c w) 0 cs w

-- The first child that is alive under a monitor.
unfoldable pub find_child : ℕ → ℕ → List Child → Option ℕ
find_child ref i [] = none
find_child ref i (c ∷ cs) =
    let rest = find_child ref (i + 1) cs in if c.alive && c.monitor_ref == ref then some i else rest

-- The choice whether to restart, by the policy and the reason of the exit (0 is normal).
unfoldable pub should_restart : Restart → ℕ → Bool
should_restart permanent reason = true
should_restart transient reason = not (reason == 0)
should_restart temporary reason = false

-- What the handling of a message leaves: the state, the world, and whether the loop goes on.
pub record Outcome : Type 0 where
  pub sup : Sup
  pub world : World
  pub running : Bool

-- The first loop of a strategy that kills: the children from `from` on but for `skip`.
unfoldable pub kill_others : ℕ → ℕ → ℕ → Child → World → Child × World
unfolding kill_child
kill_others from skip i c w =
    if leb from i && not (i == skip) && c.alive then kill_child c w else (c, w)

abbrev pub mark_dead : Child → Child
mark_dead c = record c { alive = false; proc = none }

abbrev pub blank : Child
blank = record {
  spec = record { name = []; start = 0; restart = temporary };
  proc = none;
  monitor_ref = 0;
  alive = false;
}

-- The message STOP.
unfoldable pub on_stop : Sup → World → Outcome
unfolding kill_all
on_stop st w =
    let (cs, w') = kill_all st.children w in
    record { sup = record st { children = cs }; world = w'; running = false }

module _ (grant : ℕ → Option ℕ) where
  -- `sup_start_child`
  unfoldable pub start_child : Child → World → Child × World
  unfolding register_child
  start_child c w =
      let w₁ = says (spawn_link c.spec.start) (record w { spawns = w.spawns + 1 }) in
      elim (grant w.spawns) [
        | none ↦ (record c { proc = none }, w₁)
        | some p ↦ (
          record c { proc = some p; monitor_ref = w.next_ref; alive = true },
          register_child c.spec.name p
              (says (monitor w.next_ref p) (record w₁ { next_ref = (w.next_ref + 1) % 2 ^ 64 })),
        )
      ]

  -- The second loop: the children from `from` on that are not alive.
  unfoldable pub start_dead : ℕ → ℕ → Child → World → Child × World
  unfolding start_child
  start_dead from i c w = if leb from i && not c.alive then start_child c w else (c, w)

  -- The children from `from` on are killed, but for the crashed one, and started again.
  unfoldable pub restart_from : ℕ → ℕ → List Child → World → List Child × World
  unfolding kill_others start_dead for_children
  restart_from from crashed cs w =
      let (cs₁, w₁) = for_children (kill_others from crashed) 0 cs w in
      for_children (start_dead from) 0 cs₁ w₁

  -- Start one child by its index.
  unfoldable pub restart_one : ℕ → ℕ → Child → World → Child × World
  unfolding start_child
  restart_one crashed i c w = if i == crashed then start_child c w else (c, w)

  -- The switch on the strategy.
  unfoldable pub apply_strategy : Strategy → ℕ → List Child → World → List Child × World
  unfolding restart_one restart_from for_children
  apply_strategy one_for_one i cs w = for_children (restart_one i) 0 cs w
  apply_strategy one_for_all i cs w = restart_from 0 i cs w
  apply_strategy rest_for_one i cs w = restart_from i i cs w

  -- The restart of child `i`, which is marked dead; `now` and `later` are the two looks at the clock.
  unfoldable pub restart_child : ℕ → ℕ → ℕ → Sup → World → Outcome
  unfolding check_breaker record_restart kill_all
  restart_child now later i st w =
      if check_breaker now st
      then (let (cs, w') = kill_all st.children w in
          record { sup = record st { children = cs }; world = w'; running = false })
      else (let st' = record_restart later st in
          let (cs, w') = apply_strategy st.strategy i st.children w in
          record { sup = record st' { children = cs }; world = w'; running = true })

  -- The message DOWN.
  unfoldable pub on_down : ℕ → ℕ → ℕ → ℕ → Sup → World → Outcome
  unfolding find_child should_restart restart_child
  on_down now later ref reason st w = elim (find_child ref 0 st.children) [
    | none ↦ record { sup = st; world = w; running = true }
    | some i ↦
        let c = get_or st.children i blank in
        let st' = record st { children = set st.children i (mark_dead c) } in
        if should_restart c.spec.restart reason
        then restart_child now later i st' w
        else record { sup = st'; world = w; running = true }
  ]

  -- The start of `supervisor_entry`: every child is started in turn.
  unfoldable pub start_all : List Child → World → List Child × World
  unfolding start_child for_children
  start_all cs w = for_children (λ i c w. start_child c w) 0 cs w

-- The messages that the loop tells apart.
pub data Message : Type 0 where
  down : ℕ → ℕ → ℕ → ℕ → Message
  exit : Message
  stop : Message
  other : Message
  -- NULL with tag 0: the supervisor was killed
  nothing : Message

-- One round of the loop of `supervisor_entry`; a DOWN carries the clock, the monitor and the reason.
unfoldable pub handle : (ℕ → Option ℕ) → Message → Sup → World → Outcome
unfolding on_down on_stop
handle grant (down now later ref reason) st w = on_down grant now later ref reason st w
handle grant exit st w = record { sup = st; world = w; running = true }
handle grant stop st w = on_stop st w
handle grant other st w = record { sup = st; world = w; running = true }
handle grant nothing st w = record { sup = st; world = w; running = false }
