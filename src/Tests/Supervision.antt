-- ===== src/Tests/Supervision.antt =====
-- The supervisor on concrete children.
use swarmrt.Base.{
  ℕ, ◌+◌, ◌≡◌, refl, List, [], ◌∷◌, true, false, Option, none, some, if◌then◌else◌, leb, ◌==◌, take,
  replicate, arith,
}
use swarmrt.Supervisor.{
  rest_for_one, permanent, ChildSpec, Child, Sup, World, down, handle, ring_size, check_breaker,
  record_restart,
}
use swarmrt.Supervisor.Breaker.{Represents, recent, record_restart-Represents, check_breaker_lem}
use swarmrt.Supervisor.Messages.{IsValid, Leaves, handle-Leaves}

abbrev spec : ChildSpec
spec = record { name = 97 ∷ []; start = 11; restart = permanent }

abbrev live : ℕ → ℕ → Child
live p ref = record { spec = spec; proc = some p; monitor_ref = ref; alive = true }

abbrev crashed : Child
crashed = record { spec = spec; proc = none; monitor_ref = 2; alive = false }

-- Every spawn succeeds but the fifth.
abbrev grants : ℕ → Option ℕ
grants n = if n == 4 then none else some (100 + n)

abbrev fresh : World
fresh = record { spawns = 3; next_ref = 4; calls = [] }

abbrev pool : Sup
pool = record {
  strategy = rest_for_one;
  max_restarts = 3;
  max_seconds = 5;
  children = live 21 1 ∷ live 22 2 ∷ live 23 3 ∷ [];
  restart_times = replicate 64 0;
  restart_idx = 0;
  restart_count = 0;
}

pool-Represents : Represents pool []
pool-Represents = record {
  sized = refl;
  index = omega arith;
  counted = refl;
  newest = λ i h. absurd (omega arith);
}

record_restart-Represents_example : Represents (record_restart 50 pool) (50 ∷ [])
record_restart-Represents_example = record_restart-Represents 50 pool [] pool-Represents

check_breaker_lem_example : check_breaker 52 (record_restart 50 pool) ≡ (
    if (record_restart 50 pool).max_restarts == 0
    then false
    else leb (record_restart 50 pool).max_restarts (
        recent 52
          (if (record_restart 50 pool).max_seconds == 0
            then 1
            else (record_restart 50 pool).max_seconds)
          (take ring_size (50 ∷ []))))
check_breaker_lem_example =
    check_breaker_lem 52 (record_restart 50 pool) (50 ∷ [])
      (record_restart-Represents 50 pool [] pool-Represents)

abbrev after_crash : List Child
after_crash = live 21 1 ∷ crashed ∷ live 23 3 ∷ []

pool-IsValid : IsValid pool
pool-IsValid = record {
  sound = ((λ a n. cc), ((λ a n. cc), ((λ a n. cc), tt)));
  sized = refl;
  index = omega arith;
  counted = omega arith;
}

handle-Leaves_example : Leaves pool (handle grants (down 50 50 2 1) pool fresh)
handle-Leaves_example = handle-Leaves grants (down 50 50 2 1) pool fresh pool-IsValid (λ e. cc)
