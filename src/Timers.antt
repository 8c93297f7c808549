-- ===== src/Timers.antt =====
-- The timers of src/swarmrt_native.c: a list sorted by the time of firing, under a lock. The clock is
-- an argument, in nanoseconds on 64 bits. The loop of `fire_timers` gives the lock back while it
-- delivers; here it runs without other operations in between.
pub mod Sorted
pub mod Laws
use swarmrt.Base.{
  ℕ, ◌+◌, ◌*◌, ◌%◌, ◌^◌, List, [], ◌∷◌, Bool, true, false, ◌&&◌, Option, none, some, if◌then◌else◌,
  ◌==◌, leb, map,
}

-- `sw_timer_t`; a message is the number of its address, 0 for NULL.
pub record Timer : Type 0 where
  pub ref : ℕ
  pub fire_at : ℕ
  pub dest : ℕ
  pub tag : ℕ
  pub msg : ℕ

-- `sw_timer_list_t` with the counter of references.
pub record Timers : Type 0 where
  pub head : List Timer
  pub next_ref : ℕ

-- What the firing of a timer does: a call of `mailbox_wake` or of `sw_send_tagged`.
pub data Effect : Type 0 where
  wake_up : ℕ → Effect
  send_tagged : ℕ → ℕ → ℕ → Effect

-- The walk to the place of a new timer, behind those that fire no later.
unfoldable pub insert : Timer → List Timer → List Timer
insert t [] = t ∷ []
insert t (u ∷ us) = if leb u.fire_at t.fire_at then u ∷ insert t us else t ∷ u ∷ us

-- `sw_send_after`: the reference, 0 if there is no destination.
unfoldable pub send_after : ℕ → ℕ → Option ℕ → ℕ → ℕ → Timers → ℕ × Timers
unfolding insert
send_after now delay none tag msg tl = (0, tl)
send_after now delay (some dest) tag msg tl =
    let t : Timer = record {
      ref = tl.next_ref;
      fire_at = (now + delay * 1000000) % 2 ^ 64;
      dest = dest;
      tag = tag;
      msg = msg;
    } in
    (tl.next_ref, record { head = insert t tl.head; next_ref = (tl.next_ref + 1) % 2 ^ 64 })

-- The list without the first timer of a reference, and whether there was one.
unfoldable pub drop_ref : ℕ → List Timer → Bool × List Timer
drop_ref ref [] = (false, [])
drop_ref ref (t ∷ ts) =
    let (found, rest) = drop_ref ref ts in if t.ref == ref then (true, ts) else (found, t ∷ rest)

-- `sw_cancel_timer`: true for 0, false for -1.
unfoldable pub cancel : ℕ → Timers → Bool × Timers
unfolding drop_ref
cancel ref tl =
    let (found, rest) = drop_ref ref tl.head in
    if ref == 0 then (false, tl) else (found, record tl { head = rest })

-- `SW_TAG_NONE` is 0.
unfoldable pub effect : Timer → Effect
effect t = if t.msg == 0 && t.tag == 0 then wake_up t.dest else send_tagged t.dest t.tag t.msg

-- The loop of `fire_timers`: the timers that it takes off, and the rest.
unfoldable pub take_due : ℕ → List Timer → List Timer × List Timer
take_due now [] = ([], [])
take_due now (t ∷ ts) =
    let (due, rest) = take_due now ts in if leb t.fire_at now then (t ∷ due, rest) else ([], t ∷ ts)

-- `fire_timers`
unfoldable pub fire : ℕ → Timers → List Effect × Timers
unfolding take_due
fire now tl = let (due, rest) = take_due now tl.head in (map effect due, record tl { head = rest })
