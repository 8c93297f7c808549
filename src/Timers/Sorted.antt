-- ===== src/Timers/Sorted.antt =====
-- The list of timers stays sorted, and a firing takes just the timers that are due.
use swarmrt.Base.{
  ℕ, ◌+◌, ◌%◌, ◌^◌, ◌≤◌, ◌<◌, ◌≡◌, refl, ap, ◌≢◌, inl, inr, List, [], ◌∷◌, Bool, true, false, not,
  Option, none, some, leb, arith, select, All, Bool-cases,
}
use swarmrt.Timers.{Timer, Timers, insert, send_after, take_due}

abbrev pub IsSorted : List Timer → Type 0
IsSorted [] = Unit
IsSorted (t ∷ ts) = All (λ u. t.fire_at ≤ u.fire_at) ts × IsSorted ts

abbrev pub IsDistinct : List Timer → Type 0
IsDistinct [] = Unit
IsDistinct (t ∷ ts) = All (λ u. u.ref ≢ t.ref) ts × IsDistinct ts

-- The timers are sorted by the time of firing, and their references are distinct, not 0, and older
-- than the next one.
pub record IsValid (tl : Timers) : Type 0 where
  pub sorted : IsSorted tl.head
  pub distinct : IsDistinct tl.head
  pub older : All (λ t. t.ref < tl.next_ref) tl.head
  pub real : All (λ t. 0 < t.ref) tl.head
  pub started : 0 < tl.next_ref

All-insert {κ} :
    (P : Timer → Type κ) (t : Timer) (ts : List Timer) → P t → All P ts → All P (insert t ts)
unfolding insert
All-insert P t [] h k = (h, tt)
All-insert P t (u ∷ us) h k = elim (Bool-cases (leb u.fire_at t.fire_at)) [
  | inl e ↦ rw (e, insert) (k.0, All-insert P t us h k.1)
  | inr e ↦ rw (e, insert) (h, k)
]

pub All-map {κ μ} :
    (P : Timer → Type κ) (Q : Timer → Type μ)
    → ((t : Timer) → P t → Q t)
    → (ts : List Timer) → All P ts
    → All Q ts
All-map P Q f [] h = tt
All-map P Q f (t ∷ ts) h = (f t h.0, All-map P Q f ts h.1)

insert-IsSorted : (t : Timer) (ts : List Timer) → IsSorted ts → IsSorted (insert t ts)
unfolding insert
insert-IsSorted t [] h = (tt, tt)
insert-IsSorted t (u ∷ us) h = elim (Bool-cases (leb u.fire_at t.fire_at)) [
  | inl e ↦
      rw (e, insert)
        (All-insert (λ v. u.fire_at ≤ v.fire_at) t us (ground arith) h.0, insert-IsSorted t us h.1)
  | inr e ↦
      let le : t.fire_at ≤ u.fire_at = ground arith in
      rw (e, insert)
        (
          (
            le,
            All-map (λ v. u.fire_at ≤ v.fire_at) (λ v. t.fire_at ≤ v.fire_at) (λ v b. omega arith)
                us h.0,
          ),
          h,
        )
]

insert-IsDistinct :
    (t : Timer) (ts : List Timer)
    → All (λ u. u.ref < t.ref) ts
    → IsDistinct ts
    → IsDistinct (insert t ts)
unfolding insert
insert-IsDistinct t [] n h = (tt, tt)
insert-IsDistinct t (u ∷ us) n h = elim (Bool-cases (leb u.fire_at t.fire_at)) [
  | inl e ↦
      rw (e, insert)
        (
          All-insert (λ v. v.ref ≢ u.ref) t us (omega (arith, n.0)) h.0,
          insert-IsDistinct t us n.1 h.1,
        )
  | inr e ↦
      rw (e, insert)
        (All-map (λ v. v.ref < t.ref) (λ v. v.ref ≢ t.ref) (λ v b. omega arith) (u ∷ us) n, h)
]

-- While the counter of references does not wrap round, a new timer keeps the list valid.
pub send_after-IsValid :
    (now delay tag msg : ℕ) (dest : Option ℕ) (tl : Timers)
    → IsValid tl
    → tl.next_ref + 1 < 2 ^ 64
    → IsValid (send_after now delay dest tag msg tl).1
unfolding send_after
send_after-IsValid now delay tag msg none tl v h = v
send_after-IsValid now delay tag msg (some dest) tl v h =
    let e : (tl.next_ref + 1) % 2 ^ 64 ≡ tl.next_ref + 1 = omega arith in
    record {
      sorted = insert-IsSorted _ tl.head v.sorted;
      distinct = insert-IsDistinct _ tl.head v.older v.distinct;
      older = rw e (
          All-insert (λ t. t.ref < tl.next_ref + 1) _ tl.head (omega arith)
            (All-map (λ t. t.ref < tl.next_ref) (λ t. t.ref < tl.next_ref + 1) (λ t b. omega arith)
              tl.head v.older));
      real = All-insert (λ t. 0 < t.ref) _ tl.head v.started v.real;
      started = rw e (omega arith);
    }

pub select_void :
    (p : Timer → Bool) (ts : List Timer) → All (λ t. p t ≡ false) ts → select p ts ≡ []
unfolding select
select_void p [] h = refl
select_void p (t ∷ ts) h = rw h.0 (select_void p ts h.1)

pub select_whole :
    (p : Timer → Bool) (ts : List Timer) → All (λ t. p t ≡ true) ts → select p ts ≡ ts
unfolding select
select_whole p [] h = refl
select_whole p (t ∷ ts) h = rw h.0 (ap (λ l. t ∷ l) (select_whole p ts h.1))

abbrev pub is_due : ℕ → Timer → Bool
is_due now t = leb t.fire_at now

pub take_due_lem :
    (now : ℕ) (ts : List Timer)
    → IsSorted ts
    → take_due now ts ≡ (select (is_due now) ts, select (λ t. not (is_due now t)) ts)
unfolding take_due select
take_due_lem now [] h = refl
take_due_lem now (t ∷ ts) h = elim (Bool-cases (leb t.fire_at now)) [
  | inl e ↦ rw (e, take_due, select) (rw (take_due_lem now ts h.1) refl)
  | inr e ↦
      let later =
        All-map (λ u. t.fire_at ≤ u.fire_at) (λ u. is_due now u ≡ false) (λ u b. ground arith) ts
          h.0 in
      let whole =
        All-map (λ u. t.fire_at ≤ u.fire_at) (λ u. not (is_due now u) ≡ true) (λ u b. ground arith)
          ts h.0 in
      rw (e, take_due, select)
        (rw (select_void (is_due now) ts later, select_whole (λ u. not (is_due now u)) ts whole)
          refl)
]
