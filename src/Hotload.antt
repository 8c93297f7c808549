-- ===== src/Hotload.antt =====
-- Hot code loading (src/swarmrt_hotload.c): named modules with a current and a previous function,
-- and the processes that run them. Functions are numbers. A module is never made inactive, so the
-- field `active` is left out. The states of the processes and what a spawn gives are arguments.
pub mod Versions
use swarmrt.Base.{
  sub_32, ℕ, ◌+◌, ◌-◌, ◌%◌, ◌^◌, List, [], ◌∷◌, ◌++◌, Bool, true, false, not, Option, none, some,
  if◌then◌else◌, leb, map, length, take, select, Bytes, bytes_eq,
}
use swarmrt.Mailbox.Receive.{ProcState, free, exiting}
use swarmrt.Registry.{name_max}
use swarmrt.Groups.{drop_every}

abbrev pub module_max : ℕ
module_max = 256

-- `sw_mod_entry_t` with its `sw_module_t`; the processes are the newest first.
pub record Module : Type 0 where
  pub name : Bytes
  pub current : ℕ
  pub previous : Option ℕ
  pub version : ℕ
  pub procs : List ℕ
  pub proc_count : ℕ

-- `sw_code_change_t` with the process that it is sent to.
pub record Notice : Type 0 where
  pub to : ℕ
  pub old_version : ℕ
  pub new_version : ℕ
  pub new_func : ℕ
  pub module_name : Bytes

-- `mod_find_locked`, which is `sw_module_find`.
unfoldable pub find_module : Bytes → List Module → Option Module
find_module name [] = none
find_module name (m ∷ ms) = if bytes_eq m.name name then some m else find_module name ms

-- The modules after a change of the one that is found.
unfoldable pub change_module : Bytes → Module → List Module → List Module
change_module name m' [] = []
change_module name m' (m ∷ ms) =
    if bytes_eq m.name name then m' ∷ ms else m ∷ change_module name m' ms

-- `sw_module_register`; the result is the entry, `none` for NULL.
unfoldable pub register_module : Bytes → ℕ → List Module → Option Module × List Module
unfolding find_module
register_module name func ms =
    let m : Module = record {
      name = take name_max name;
      current = func;
      previous = none;
      version = 1;
      procs = [];
      proc_count = 0;
    } in
    elim (find_module name ms) [
      | some old ↦ (some old, ms)
      | none ↦ if leb module_max (length ms) then (none, ms) else (some m, ms ++ (m ∷ []))
    ]

unfoldable pub is_gone : ProcState → Bool
is_gone free = true
is_gone exiting = true
is_gone s = false

unfoldable pub is_free : ProcState → Bool
is_free free = true
is_free s = false

abbrev notice : Bytes → ℕ → ℕ → ℕ → ℕ → Notice
notice name old new func p = record {
  to = p;
  old_version = old;
  new_version = new;
  new_func = func;
  module_name = take name_max name;
}

-- `sw_module_upgrade`: whether it succeeds, what it sends, and the modules.
unfoldable pub upgrade :
    (ℕ → ProcState) → Bytes → ℕ → List Module → Bool × List Notice × List Module
unfolding find_module change_module is_gone
upgrade state name func ms = elim (find_module name ms) [
  | none ↦ (false, [], ms)
  | some m ↦
      let new = (m.version + 1) % 2 ^ 32 in
      let told = select (λ p. not (is_gone (state p))) m.procs in
      (
        true,
        map (notice name m.version new func) told,
        change_module name (record m { current = func; previous = some m.current; version = new })
            ms,
      )
]

-- `sw_module_rollback`
unfoldable pub rollback : (ℕ → ProcState) → Bytes → List Module → Bool × List Notice × List Module
unfolding find_module change_module is_free
rollback state name ms = elim (find_module name ms) [
  | none ↦ (false, [], ms)
  | some m ↦ elim m.previous [
    | none ↦ (false, [], ms)
    | some old ↦
        let new = (m.version + 1) % 2 ^ 32 in
        let told = select (λ p. not (is_free (state p))) m.procs in
        (
          true,
          map (notice name ((new + 2 ^ 32 - 1) % 2 ^ 32) new old) told,
          change_module name (record m { current = old; previous = some m.current; version = new })
              ms,
        )
  ]
]

-- `sw_module_version`
unfoldable pub module_version : Bytes → List Module → ℕ
unfolding find_module
module_version name ms = elim (find_module name ms) [ none ↦ 0 | some m ↦ m.version ]

-- `sw_module_spawn` and `sw_module_spawn_link`: the function that is started, unless there is no such
-- module, and the modules, where a process that was started is tracked.
unfoldable pub spawn_module : Option ℕ → Bytes → List Module → Option ℕ × List Module
unfolding find_module change_module
spawn_module spawned name ms = elim (find_module name ms) [
  | none ↦ (none, ms)
  | some m ↦ elim spawned [
    | none ↦ (some m.current, ms)
    | some p ↦ (
      some m.current,
      change_module name
          (record m { procs = p ∷ m.procs; proc_count = (m.proc_count + 1) % 2 ^ 32 }) ms,
    )
  ]
]

unfoldable pub forget_in : ℕ → Module → Module
unfolding drop_every
forget_in p m =
    let (n, rest) = drop_every p m.procs in
    record m { procs = rest; proc_count = sub_32 m.proc_count n }

-- `sw_module_cleanup_proc`
unfoldable pub forget_proc : ℕ → List Module → List Module
unfolding forget_in
forget_proc p ms = map (forget_in p) ms
