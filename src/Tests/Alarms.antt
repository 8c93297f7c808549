-- ===== src/Tests/Alarms.antt =====
-- Timers on concrete times.
use swarmrt.Base.{◌≡◌, [], ◌∷◌, not, some, leb, select, map, arith}
use swarmrt.Timers.{Timer, Timers, send_after, cancel, effect, fire}
use swarmrt.Timers.Sorted.{IsValid}
use swarmrt.Timers.Laws.{fire_lem, timer_op-IsValid}

abbrev early : Timer
early = record { ref = 1; fire_at = 100; dest = 7; tag = 0; msg = 0 }

abbrev late : Timer
late = record { ref = 2; fire_at = 900; dest = 8; tag = 3; msg = 50 }

abbrev two : Timers
two = record { head = early ∷ late ∷ []; next_ref = 3 }

two-IsValid : IsValid two
two-IsValid = record {
  sorted = ((omega arith, tt), (tt, tt));
  distinct = ((omega arith, tt), (tt, tt));
  older = (omega arith, (omega arith, tt));
  real = (omega arith, (omega arith, tt));
  started = omega arith;
}

fire_lem_example : fire 500 two ≡ (
  map effect (select (λ t. leb t.fire_at 500) two.head),
  record two { head = select (λ t. not (leb t.fire_at 500)) two.head },
)
fire_lem_example = fire_lem 500 two two-IsValid

timer_op-IsValid_example :
    IsValid (send_after 10 5 (some 9) 4 60 two).1
    × IsValid (cancel 1 two).1
    × IsValid (fire 10 two).1
timer_op-IsValid_example = timer_op-IsValid 10 5 4 60 1 (some 9) two two-IsValid (omega arith)
