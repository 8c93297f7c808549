-- ===== src/Tests/Upgrades.antt =====
-- Modules on concrete names.
use swarmrt.Base.{
  ℕ, ◌+◌, ◌%◌, ◌^◌, ◌≡◌, refl, List, [], ◌∷◌, true, none, some, if◌then◌else◌, Bytes, bytes_eq,
}
use swarmrt.Mailbox.Receive.{ProcState, waiting}
use swarmrt.Hotload.{Module, find_module, upgrade, rollback}
use swarmrt.Hotload.Versions.{rollback-upgrade}

abbrev web : Bytes
web = 119 ∷ 101 ∷ []

abbrev db : Bytes
db = 100 ∷ 98 ∷ []

abbrev served : Module
served = record {
  name = web;
  current = 10;
  previous = none;
  version = 1;
  procs = 5 ∷ 4 ∷ [];
  proc_count = 2;
}

abbrev stored : Module
stored = record {
  name = db;
  current = 20;
  previous = none;
  version = 1;
  procs = [];
  proc_count = 0;
}

abbrev two_modules : List Module
two_modules = stored ∷ served ∷ []

abbrev all_wait : ℕ → ProcState
all_wait p = waiting

rollback-upgrade_example :
    let up = upgrade all_wait web 11 two_modules in
    let back = rollback all_wait web up.2 in
    (up.0 ≡ true)
    × (back.0 ≡ true)
    × (find_module db back.2 ≡ (
        if bytes_eq web db
        then some (record served { previous = some 11; version = (served.version + 2) % 2 ^ 32 })
        else find_module db two_modules))
unfolding find_module
rollback-upgrade_example = rollback-upgrade all_wait web db 11 served two_modules refl
