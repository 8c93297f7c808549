-- ===== src/Timers/Laws.antt =====
-- What setting, cancelling and firing of timers do to the list as a whole.
use swarmrt.Base.{
  ℕ, suc, ◌+◌, ◌^◌, ◌≤◌, ◌<◌, ◌≡◌, refl, sym, ◌≢◌, inl, inr, List, [], ◌∷◌, ◌++◌, Bool, true, false,
  not, Option, if◌then◌else◌, ◌==◌, ltb, leb, map, append-nil, append_assoc, arith, length, select,
  All, Bool-cases, ==_iff,
}
use swarmrt.Timers.{Timer, Timers, insert, send_after, drop_ref, cancel, effect, fire}
use swarmrt.Timers.Sorted.{
  IsSorted, IsDistinct, IsValid, All-map, send_after-IsValid, take_due_lem, select_whole,
  select_void,
}

-- On a valid list a firing delivers exactly the timers that are due, in the order of their times, and
-- keeps exactly the others.
pub fire_lem :
    (now : ℕ) (tl : Timers)
    → IsValid tl
    → fire now tl ≡ (
      map effect (select (λ t. leb t.fire_at now) tl.head),
      record tl { head = select (λ t. not (leb t.fire_at now)) tl.head },
    )
unfolding fire
fire_lem now tl v = rw (take_due_lem now tl.head v.sorted) refl

abbrev is_ref : ℕ → Timer → Bool
is_ref ref t = t.ref == ref

abbrev is_there : ℕ → List Timer → Bool
is_there ref ts = ltb 0 (length (select (is_ref ref) ts))

drop_ref_lem :
    (ref : ℕ) (ts : List Timer)
    → IsDistinct ts
    → drop_ref ref ts ≡ (is_there ref ts, select (λ t. not (is_ref ref t)) ts)
unfolding drop_ref select
drop_ref_lem ref [] h = refl
drop_ref_lem ref (t ∷ ts) h = elim (Bool-cases (t.ref == ref)) [
  | inl e ↦
      let others =
        All-map (λ u. u.ref ≢ t.ref) (λ u. not (is_ref ref u) ≡ true) (λ u b. ground (arith, e)) ts
          h.0 in
      rw (e, drop_ref, select)
        (let some_there : ltb 0 (suc (length (select (is_ref ref) ts))) ≡ true = ground arith in
          rw (select_whole (λ u. not (is_ref ref u)) ts others, some_there) refl)
  | inr e ↦ rw (e, drop_ref, select) (rw (drop_ref_lem ref ts h.1) refl)
]

select_absent :
    (ref : ℕ) (ts : List Timer) → All (λ t. 0 < t.ref) ts → ref ≡ 0 → is_there ref ts ≡ false
unfolding select
select_absent ref [] h z = refl
select_absent ref (t ∷ ts) h z =
    let e : (t.ref == ref) ≡ false = ground (arith, h.0) in
    rw (e, select) (select_absent ref ts h.1 z)

select-whole :
    (ref : ℕ) (ts : List Timer)
    → All (λ t. 0 < t.ref) ts
    → ref ≡ 0
    → select (λ t. not (is_ref ref t)) ts ≡ ts
select-whole ref ts h z =
    select_whole (λ t. not (is_ref ref t)) ts
      (All-map (λ t. 0 < t.ref) (λ t. not (is_ref ref t) ≡ true) (λ t b. ground arith) ts h)

-- On a valid list the cancelling of a reference takes away the timer of that reference and no other,
-- and says whether there was one.
pub cancel_lem :
    (ref : ℕ) (tl : Timers)
    → IsValid tl
    → cancel ref tl ≡ (
      ltb 0 (length (select (λ t. t.ref == ref) tl.head)),
      record tl { head = select (λ t. not (t.ref == ref)) tl.head },
    )
unfolding cancel
cancel_lem ref tl v = elim (Bool-cases (ref == 0)) [
  | inl e ↦
      let z = (==_iff ref 0).0 e in
      rw (e, cancel)
        (rw (select_absent ref tl.head v.real z, select-whole ref tl.head v.real z) refl)
  | inr e ↦ rw (e, cancel) (rw (drop_ref_lem ref tl.head v.distinct) refl)
]

All-select {κ} :
    (P : Timer → Type κ) (p : Timer → Bool) (ts : List Timer) → All P ts → All P (select p ts)
unfolding select
All-select P p [] h = tt
All-select P p (t ∷ ts) h = elim (Bool-cases (p t)) [
  | inl e ↦ rw (e, select) (h.0, All-select P p ts h.1)
  | inr e ↦ rw (e, select) (All-select P p ts h.1)
]

select-IsSorted : (p : Timer → Bool) (ts : List Timer) → IsSorted ts → IsSorted (select p ts)
unfolding select
select-IsSorted p [] h = tt
select-IsSorted p (t ∷ ts) h = elim (Bool-cases (p t)) [
  | inl e ↦
      rw (e, select) (All-select (λ u. t.fire_at ≤ u.fire_at) p ts h.0, select-IsSorted p ts h.1)
  | inr e ↦ rw (e, select) (select-IsSorted p ts h.1)
]

select-IsDistinct : (p : Timer → Bool) (ts : List Timer) → IsDistinct ts → IsDistinct (select p ts)
unfolding select
select-IsDistinct p [] h = tt
select-IsDistinct p (t ∷ ts) h = elim (Bool-cases (p t)) [
  | inl e ↦ rw (e, select) (All-select (λ u. u.ref ≢ t.ref) p ts h.0, select-IsDistinct p ts h.1)
  | inr e ↦ rw (e, select) (select-IsDistinct p ts h.1)
]

select-IsValid :
    (p : Timer → Bool) (tl : Timers) → IsValid tl → IsValid (record tl { head = select p tl.head })
select-IsValid p tl v = record {
  sorted = select-IsSorted p tl.head v.sorted;
  distinct = select-IsDistinct p tl.head v.distinct;
  older = All-select (λ t. t.ref < tl.next_ref) p tl.head v.older;
  real = All-select (λ t. 0 < t.ref) p tl.head v.real;
  started = v.started;
}

-- Setting a timer, while the counter of references does not wrap round, cancelling one, and firing
-- keep the list valid: sorted by time, with distinct references.
pub timer_op-IsValid :
    (now delay tag msg ref : ℕ) (dest : Option ℕ) (tl : Timers)
    → IsValid tl
    → tl.next_ref + 1 < 2 ^ 64
    → IsValid (send_after now delay dest tag msg tl).1
      × IsValid (cancel ref tl).1
      × IsValid (fire now tl).1
timer_op-IsValid now delay tag msg ref dest tl v h = (
  send_after-IsValid now delay tag msg dest tl v h,
  rw (cancel_lem ref tl v) (select-IsValid _ tl v),
  rw (fire_lem now tl v) (select-IsValid _ tl v),
)

abbrev fires_at : ℕ → Timer → Bool
fires_at k t = t.fire_at == k

select-cons :
    (p : Timer → Bool) (t : Timer) (ts : List Timer)
    → select p (t ∷ ts) ≡ (if p t then t ∷ [] else []) ++ select p ts
unfolding select
select-cons p t ts = elim (Bool-cases (p t)) [ inl e ↦ rw e refl | inr e ↦ rw e refl ]

-- The timers for one moment stay in the order in which they were set: a new one stands behind all
-- others of its moment, and those of other moments are as they were.
pub insert-select :
    (k : ℕ) (t : Timer) (ts : List Timer)
    → IsSorted ts
    → select (λ u. u.fire_at == k) (insert t ts)
      ≡ select (λ u. u.fire_at == k) ts ++ (if t.fire_at == k then t ∷ [] else [])
unfolding insert select
insert-select k t [] h = refl
insert-select k t (u ∷ us) h = elim (Bool-cases (leb u.fire_at t.fire_at)) [
  | inl e ↦
      rw (e, insert)
        (rw
          (
            select-cons (fires_at k) u (insert t us),
            select-cons (fires_at k) u us,
            insert-select k t us h.1,
          )
          (simp append_assoc))
  | inr e ↦
      rw (e, insert)
        (elim (Bool-cases (t.fire_at == k)) [
          | inl q ↦
              let others =
                All-map (λ v. u.fire_at ≤ v.fire_at) (λ v. fires_at k v ≡ false)
                  (λ v b. ground (arith, e, q)) (u ∷ us) (omega arith, h.0) in
              rw (select-cons (fires_at k) t (u ∷ us), select_void (fires_at k) (u ∷ us) others, q)
                refl
          | inr q ↦
              rw (select-cons (fires_at k) t (u ∷ us), q)
                (sym (append-nil (select (fires_at k) (u ∷ us))))
        ])
]
