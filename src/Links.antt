-- ===== src/Links.antt =====
-- Links, monitors and the end of a process in src/swarmrt_native.c (`sw_link`, `sw_unlink`,
-- `sw_spawn_link`, `sw_monitor`, `sw_demonitor`, `process_exit`). A process is the number of its
-- slot. All of it runs under `link_lock`, so each call is one step; a signal that is delivered is an
-- entry of a log, and the kill of a linked process sets its kill flag. The look at whether a process
-- is dead is made at the call. The clean-up of tables, groups, modules and names that `process_exit`
-- calls at its end stands in the modules of these.
pub mod Peers
pub mod Mutual
pub mod Symmetry
pub mod Exits
use swarmrt.Base.{
  ℕ, ◌+◌, ◌%◌, ◌^◌, List, [], ◌∷◌, Bool, true, false, ◌||◌, Option, none, some, if◌then◌else◌, ◌==◌,
}
use swarmrt.Registry.{update}

-- `sw_monitor_t`
pub record Mon : Type 0 where
  pub ref : ℕ
  pub watcher : ℕ
  pub watched : ℕ

-- `sw_signal_t` with its tag and the process that it is delivered to.
pub data Signal : Type 0 where
  exit_signal : ℕ → ℕ → ℕ → Signal
  down_signal : ℕ → ℕ → ℕ → ℕ → Signal

-- The fields of the processes that links and monitors use, the next reference, and the delivered
-- signals, the newest first.
pub record World : Type 0 where
  pub pid : ℕ → ℕ
  pub dead : ℕ → Bool
  pub trap : ℕ → Bool
  pub reason : ℕ → ℕ
  pub killed : ℕ → Bool
  pub links : ℕ → List ℕ
  pub watching : ℕ → List Mon
  pub watched_by : ℕ → List Mon
  pub next_ref : ℕ
  pub signals : List Signal

-- `deliver_signal`
abbrev pub deliver : Signal → World → World
deliver s w = record w { signals = s ∷ w.signals }

-- The kill flag and the exit reason of a process that does not trap exits.
abbrev pub kill : ℕ → ℕ → World → World
kill p why w = record w { killed = update w.killed p true; reason = update w.reason p why }

unfoldable pub has : ℕ → List ℕ → Bool
has p [] = false
has p (q ∷ qs) = (q == p) || has p qs

-- The loop that takes the first link to a process from a list.
unfoldable pub drop_peer : ℕ → List ℕ → List ℕ
drop_peer p [] = []
drop_peer p (q ∷ qs) = if q == p then qs else q ∷ drop_peer p qs

-- A link in both lists.
unfoldable pub add_link : ℕ → ℕ → World → World
add_link p q w =
    let ls = update w.links p (q ∷ w.links p) in record w { links = update ls q (p ∷ ls q) }

-- The branch of `sw_link` for a process that is dead.
unfoldable pub link_dead : ℕ → ℕ → World → World
link_dead p q w =
    if w.trap p
    then deliver (exit_signal p (w.pid q) (w.reason q)) w
    else if w.reason q == 0
    then w
    else kill p (w.reason q) w

-- `sw_link` by the process `p`: true for 0, false for -1.
unfoldable pub link : ℕ → ℕ → World → Bool × World
unfolding has
link p q w =
    if p == q
    then (false, w)
    else if w.dead q
    then (true, link_dead p q w)
    else if has q (w.links p)
    then (true, w)
    else (true, add_link p q w)

-- `sw_unlink` by the process `p`
unfoldable pub unlink : ℕ → ℕ → World → World
unfolding drop_peer
unlink p q w =
    let ls = update w.links p (drop_peer q (w.links p)) in
    record w { links = update ls q (drop_peer p (ls q)) }

-- `sw_monitor` by the process `p`: the reference.
unfoldable pub monitor : ℕ → ℕ → World → ℕ × World
monitor p q w =
    let w' = record w { next_ref = (w.next_ref + 1) % 2 ^ 64 } in
    let mon : Mon = record { ref = w.next_ref; watcher = p; watched = q } in
    (
      w.next_ref,
      if w.dead q then deliver (down_signal p (w.pid q) w.next_ref (w.reason q)) w' else record w' {
        watching = update w.watching p (mon ∷ w.watching p);
        watched_by = update w.watched_by q (mon ∷ w.watched_by q);
      },
    )

-- The list without the first monitor of a reference. A monitor object is told by its reference.
unfoldable pub drop_mon : ℕ → List Mon → List Mon
drop_mon ref [] = []
drop_mon ref (m ∷ ms) = if m.ref == ref then ms else m ∷ drop_mon ref ms

unfoldable pub find_mon : ℕ → List Mon → Option Mon
find_mon ref [] = none
find_mon ref (m ∷ ms) = if m.ref == ref then some m else find_mon ref ms

-- `sw_demonitor` by the process `p`: true for 0, false for -1.
unfoldable pub demonitor : ℕ → ℕ → World → Bool × World
unfolding drop_mon find_mon
demonitor p ref w = elim (find_mon ref (w.watching p)) [
  | none ↦ (false, w)
  | some m ↦ if ref == 0 then (false, w) else (
    true,
    record w {
      watching = update w.watching p (drop_mon ref (w.watching p));
      watched_by = update w.watched_by m.watched (drop_mon ref (w.watched_by m.watched));
    },
  )
]

-- What the end of `p` with a reason does to one linked process.
unfoldable pub part : ℕ → ℕ → ℕ → World → World
unfolding drop_peer
part p why q w =
    let w' = record w { links = update w.links q (drop_peer p (w.links q)) } in
    if why == 0
    then (if w.trap q then deliver (exit_signal q (w.pid p) 0) w' else w')
    else if w.trap q
    then deliver (exit_signal q (w.pid p) why) w'
    else kill q why w'

-- The first loop of `process_exit`, over the links of `p`.
unfoldable pub part_all : ℕ → ℕ → List ℕ → World → World
unfolding part
part_all p why [] w = w
part_all p why (q ∷ qs) w = part_all p why qs (part p why q w)

-- The second loop, over the monitors on `p`.
unfoldable pub notify_all : ℕ → ℕ → List Mon → World → World
unfolding drop_mon
notify_all p why [] w = w
notify_all p why (m ∷ ms) w =
    let w' = deliver (down_signal m.watcher (w.pid p) m.ref why) w in
    notify_all p why ms
      (record w' { watching = update w.watching m.watcher (drop_mon m.ref (w.watching m.watcher)) })

-- The third loop, over the monitors that `p` has.
unfoldable pub forget_all : List Mon → World → World
unfolding drop_mon
forget_all [] w = w
forget_all (m ∷ ms) w = forget_all ms (record w {
  watched_by = update w.watched_by m.watched (drop_mon m.ref (w.watched_by m.watched));
})

-- `process_exit`, as far as it holds the lock.
unfoldable pub exit : ℕ → ℕ → World → World
unfolding part_all notify_all forget_all
exit p why w =
    let w₀ = record w { reason = update w.reason p why } in
    let w₁ = part_all p why (w₀.links p) w₀ in
    let w₂ = record w₁ { links = update w₁.links p [] } in
    let w₃ = notify_all p why (w₂.watched_by p) w₂ in
    let w₄ = record w₃ { watched_by = update w₃.watched_by p [] } in
    let w₅ = forget_all (w₄.watching p) w₄ in record w₅ { watching = update w₅.watching p [] }
