-- ===== src/Supervisor/Breaker.antt =====
-- The circuit breaker: the ring buffer of restart times is the list of the last 64 restarts.
use swarmrt.Base.{
  ℕ, zero, suc, ◌+◌, ◌-◌, ◌%◌, ◌≤◌, ◌<◌, min, ◌≡◌, refl, ap, ◌∙◌, ◌≢◌, List, [], ◌∷◌, false,
  if◌then◌else◌, ◌==◌, leb, arith, length, get_or, take, ==_refl, length-set, get_or-set,
}
use native.Mathlib.Nat.{add-zero}
use swarmrt.Supervisor.{Sup, ring_size, within, count_recent, check_breaker, record_restart}

-- The ring holds the last 64 times of a history, the newest first.
pub record Represents (st : Sup) (h : List ℕ) : Type 0 where
  pub sized : length st.restart_times ≡ ring_size
  pub index : st.restart_idx < ring_size
  pub counted : st.restart_count ≡ min ring_size (length h)
  pub newest :
      (i : ℕ)
      → i < st.restart_count
      → get_or st.restart_times ((st.restart_idx + ring_size - 1 - i) % ring_size) 0 ≡ get_or h i 0

newest-record :
    (now : ℕ) (st : Sup) (h : List ℕ)
    → Represents st h
    → (i : ℕ) → i < (record_restart now st).restart_count
    → get_or
        (record_restart now st).restart_times
        (((record_restart now st).restart_idx + ring_size - 1 - i) % ring_size)
        0
      ≡ get_or (now ∷ h) i 0
unfolding record_restart
newest-record now st h r zero k =
    let e : ((st.restart_idx + 1) % 64 + 64 - 1 - 0) % 64 ≡ st.restart_idx =
      omega (arith, r.index) in
    rw
      (
        e,
        get_or-set st.restart_times st.restart_idx st.restart_idx now 0 (rw r.sized r.index),
        ==_refl,
      )
      refl
newest-record now st h r (suc i) k =
    let few : st.restart_count ≤ 64 = omega (arith, r.counted) in
    let bounds : (i < st.restart_count) × (suc i < 64) = ground (arith, few) in
    let e : ((st.restart_idx + 1) % 64 + 64 - 1 - suc i) % 64 ≡ (st.restart_idx + 64 - 1 - i) % 64 =
      omega (arith, r.index, bounds.1) in
    let apart : (st.restart_idx == (st.restart_idx + 64 - 1 - i) % 64) ≡ false =
      not_here st.restart_idx i r.index bounds.1 in
    rw
      (
        e,
        get_or-set st.restart_times st.restart_idx ((st.restart_idx + 64 - 1 - i) % 64) now 0
            (rw r.sized r.index),
        apart,
      )
      (r.newest i bounds.0)
  where
    not_here : (idx i : ℕ) → idx < 64 → suc i < 64 → (idx == (idx + 64 - 1 - i) % 64) ≡ false
    not_here idx i h k = let ne : idx ≢ (idx + 64 - 1 - i) % 64 = omega arith in ground (arith, ne)

-- A recorded restart is the newest entry of the history.
pub record_restart-Represents :
    (now : ℕ) (st : Sup) (h : List ℕ)
    → Represents st h
    → Represents (record_restart now st) (now ∷ h)
unfolding record_restart
record_restart-Represents now st h r = record {
  sized = rw length-set r.sized;
  index = omega arith;
  counted = ground (arith, r.counted);
  newest = newest-record now st h r;
}

-- How many entries at the front of a history lie in the window.
unfoldable pub recent : ℕ → ℕ → List ℕ → ℕ
recent now window [] = 0
recent now window (t ∷ h) = if within now window t then suc (recent now window h) else 0

count_recent-recent :
    (now window : ℕ) (st : Sup) (h : List ℕ)
    → Represents st h
    → (n i : ℕ) (g : List ℕ) → i + n ≡ st.restart_count
    → n ≤ length g
    → ((k : ℕ) → k < n → get_or h (i + k) 0 ≡ get_or g k 0)
    → count_recent now window st i n ≡ recent now window (take n g)
unfolding count_recent recent
count_recent-recent now window st h r zero i g e l same = refl
count_recent-recent now window st h r (suc n) i [] e l same = absurd (omega arith)
count_recent-recent now window st h r (suc n) i (t ∷ g) e l same =
    let here : get_or h i 0 ≡ t = rw add-zero at (same 0 (omega arith)) in
    let rest = count_recent-recent now window st h r n (i + 1) g (omega arith) (omega arith) (λ k b.
      let s = same (suc k) (omega arith) in
      let m : i + suc k ≡ i + 1 + k = omega arith in rw m at s) in
    rw (r.newest i (omega arith), here, rest) refl

take-min : (n : ℕ) (h : List ℕ) → take (min n (length h)) h ≡ take n h
take-min zero h = let e : min 0 (length h) ≡ 0 = omega arith in rw e refl
take-min (suc n) [] = let e : min (suc n) 0 ≡ 0 = omega arith in rw e refl
take-min (suc n) (t ∷ h) =
    let e : min (suc n) (suc (length h)) ≡ suc (min n (length h)) = omega arith in
    rw e (ap (λ l. t ∷ l) (take-min n h))

-- The loop counts the restarts at the front of the last 64 that lie in the window.
count_recent_lem :
    (now window : ℕ) (st : Sup) (h : List ℕ)
    → Represents st h
    → count_recent now window st 0 (min st.restart_count ring_size)
      ≡ recent now window (take ring_size h)
count_recent_lem now window st h r =
    let all : min st.restart_count 64 ≡ st.restart_count = omega (arith, r.counted) in
    let few : st.restart_count ≤ length h = omega (arith, r.counted) in
    let e : st.restart_count ≡ min 64 (length h) = r.counted in
    rw all (
      count_recent-recent now window st h r st.restart_count 0 h (omega arith) few
        (λ k b. let z : 0 + k ≡ k = omega arith in rw z refl)
      ∙ (ap (λ k. recent now window (take k h)) e ∙ ap (recent now window) (take-min 64 h)))

-- The breaker trips just when there is a limit and the last 64 restarts begin with at least as many
-- that lie in the window (of one second, if none is set).
pub check_breaker_lem :
    (now : ℕ) (st : Sup) (h : List ℕ)
    → Represents st h
    → check_breaker now st ≡ (
        if st.max_restarts == 0
        then false
        else leb st.max_restarts
            (recent now (if st.max_seconds == 0 then 1 else st.max_seconds) (take ring_size h)))
unfolding check_breaker
check_breaker_lem now st h r =
    rw (count_recent_lem now (if st.max_seconds == 0 then 1 else st.max_seconds) st h r) refl

count_recent-le : (now window : ℕ) (st : Sup) (i n : ℕ) → count_recent now window st i n ≤ n
unfolding count_recent
count_recent-le now window st i zero = omega arith
count_recent-le now window st i (suc n) = ground (arith, count_recent-le now window st (i + 1) n)

-- With a limit of more than 64 restarts the breaker never trips, however many restarts there were.
pub check_breaker-large :
    (now : ℕ) (st : Sup) → ring_size < st.max_restarts → check_breaker now st ≡ false
unfolding check_breaker
check_breaker-large now st h =
    let window = if st.max_seconds == 0 then 1 else st.max_seconds in
    ground (arith, count_recent-le now window st 0 (min st.restart_count ring_size))
