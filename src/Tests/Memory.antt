-- ===== src/Tests/Memory.antt =====
-- The arena on concrete numbers.
use swarmrt.Base.{ℕ, ◌+◌, ◌≡◌, if◌then◌else◌, ◌==◌, arith}
use swarmrt.Arena.{Arena, spawn, destroy, new}
use swarmrt.Arena.Conserve.{IsValid, free, SpawnResult, spawn_lem, destroy_lem}
use swarmrt.Arena.Start.{new_lem}

-- Two partitions for five slots.
abbrev five_slots : Arena
five_slots = new 2 5

five_slots-IsValid : IsValid five_slots
five_slots-IsValid = (new_lem 2 5 (omega arith)).0

spawn_lem_example : SpawnResult five_slots (spawn five_slots) × IsValid (spawn five_slots).1
spawn_lem_example = spawn_lem five_slots five_slots-IsValid

abbrev four_free : Arena
four_free = (spawn five_slots).1

four_free-IsValid : IsValid four_free
four_free-IsValid = (spawn_lem five_slots five_slots-IsValid).1

destroy_lem_example :
    IsValid (destroy 0 1 1 four_free)
    × ((y : ℕ)
        → free y (destroy 0 1 1 four_free).parts
          ≡ free y four_free.parts + (if 1 == y then 1 else 0))
destroy_lem_example = destroy_lem 0 1 four_free four_free-IsValid
