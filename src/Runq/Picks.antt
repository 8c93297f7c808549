-- ===== src/Runq/Picks.antt =====
-- The accesses of `sw_pick_next` and the order of the queue.
use swarmrt.Base.{
  ℕ, zero, suc, ◌≡◌, refl, sym, ap, ◌∙◌, ◌≢◌, inl, inr, List, [], ◌∷◌, ◌++◌, Bool, true, false, not,
  ◌==◌, append-nil, append_assoc, arith, select, Bool-cases, ==_iff, select-append,
}
use mathlib.Core.Bool.{false≢true}
use swarmrt.Links.Peers.{count}
use swarmrt.Runq.{
  stub, At, looking, past_stub, at_tail, spinning, at_swap, at_land, at_last, Run, look, look_first,
  pick_at,
}
use swarmrt.Runq.Shape.{IsQueue, swap-IsQueue, land-IsQueue, next-in_rest, last_alone, head-land}

-- The list without the stub.
unfoldable pub procs : List ℕ → List ℕ
procs ns = select (λ n. not (n == stub)) ns

-- Where the head may be the stub.
unfoldable pub off_stub : At → Bool
off_stub looking = false
off_stub past_stub = true
off_stub at_tail = true
off_stub (spinning k) = true
off_stub at_swap = true
off_stub at_land = true
off_stub at_last = true

unfoldable pub swaps : At → Bool
swaps looking = false
swaps past_stub = false
swaps at_tail = false
swaps (spinning k) = false
swaps at_swap = true
swaps at_land = false
swaps at_last = false

-- A run whose queue is a chain, which the scheduler and the log agree with.
pub record IsSound (s : Run) : Type 0 where
  pub rest : List ℕ
  pub queue_sound : IsQueue s.queue rest
  pub off : off_stub s.at ≡ true → s.queue.head ≢ stub
  pub unstubbed : swaps s.at ≡ true → count stub rest ≡ 0
  pub log : s.pushed ≡ s.taken ++ procs (s.queue.head ∷ rest)

pub procs-off : (n : ℕ) (ns : List ℕ) → n ≢ stub → procs (n ∷ ns) ≡ n ∷ procs ns
unfolding procs select
procs-off n ns h = let e : (n == stub) ≡ false = ground (arith, h) in rw e refl

pub procs-append : (xs ys : List ℕ) → procs (xs ++ ys) ≡ procs xs ++ procs ys
unfolding procs
procs-append xs ys = select-append (λ n. not (n == stub)) xs ys

look-IsSound :
    (otherwise : At) (s : Run)
    → swaps otherwise ≡ false
    → s.queue.head ≢ stub
    → IsSound s
    → IsSound (look otherwise s)
unfolding look off_stub swaps
look-IsSound otherwise s calm off v = elim (Bool-cases (s.queue.next s.queue.head == 0)) [
  | inl e ↦ rw e (record {
    rest = v.rest;
    queue_sound = v.queue_sound;
    off = λ h. off;
    unstubbed = λ h. absurd (false≢true (sym calm ∙ h));
    log = v.log;
  })
  | inr e ↦
      let next = next-in_rest s.queue v.rest (ground (arith, e)) v.queue_sound in
      rw e (record {
        rest = next.0;
        queue_sound = next.2;
        off = λ h. absurd (false≢true h);
        unstubbed = λ h. absurd (false≢true h);
        log =
            v.log
            ∙ ap (λ l. s.taken ++ l)
                (procs-off s.queue.head v.rest off ∙ ap (λ r. s.queue.head ∷ procs r) next.1)
            ∙ sym (
                append_assoc s.taken (s.queue.head ∷ [])
                  (procs (s.queue.next s.queue.head ∷ next.0)));
      })
]

pub procs-nil : procs [] ≡ []
unfolding procs select
procs-nil = refl

pub procs-stub : (ns : List ℕ) → procs (stub ∷ ns) ≡ procs ns
unfolding procs select
procs-stub ns = refl

pub next_off :
    (s : Run) (rest ys : List ℕ)
    → s.queue.head ≡ stub
    → IsQueue s.queue rest
    → rest ≡ (s.queue.next s.queue.head ∷ ys)
    → s.queue.next s.queue.head ≢ stub
unfolding count
next_off s rest ys at_stub v e = ground (arith, v.distinct stub, ap (λ l. count stub l) e, at_stub)

look_first-IsSound : (s : Run) → IsSound s → IsSound (look_first s)
unfolding look_first off_stub swaps
look_first-IsSound s v = elim (Bool-cases (s.queue.head == stub)) [
  | inl e ↦ elim (Bool-cases (s.queue.next stub == 0)) [
    | inl none_there ↦ rw e (
        rw none_there (record {
          rest = v.rest;
          queue_sound = v.queue_sound;
          off = λ h. absurd (false≢true h);
          unstubbed = λ h. absurd (false≢true h);
          log = v.log;
        }))
    | inr there ↦
        let at_stub : s.queue.head ≡ stub = (==_iff s.queue.head stub).0 e in
        let next = next-in_rest s.queue v.rest (rw at_stub (ground (arith, there))) v.queue_sound in
        rw (e, look_first)
          (rw there (record {
            rest = next.0;
            queue_sound = next.2;
            off = λ h. next_off s v.rest next.0 at_stub v.queue_sound next.1;
            unstubbed = λ h. absurd (false≢true h);
            log =
                v.log
                ∙ ap (λ l. s.taken ++ l)
                    (ap (λ h. procs (h ∷ v.rest)) at_stub ∙ procs-stub v.rest ∙ ap procs next.1);
          }))
  ]
  | inr e ↦ rw (e, look_first) (look-IsSound at_tail s refl (ground (arith, e)) v)
]

at_tail-IsSound : (s : Run) → s.at ≡ at_tail → IsSound s → IsSound (pick_at at_tail s)
unfolding pick_at off_stub swaps count
at_tail-IsSound s e v =
    let off : s.queue.head ≢ stub = v.off (ap off_stub e) in
    elim (Bool-cases (s.queue.head == s.queue.tail)) [
      | inl t ↦
          let none_more =
            last_alone s.queue v.rest ((==_iff s.queue.head s.queue.tail).0 t) v.queue_sound in
          rw (t, pick_at)
            (record {
              rest = v.rest;
              queue_sound = v.queue_sound;
              off = λ h. off;
              unstubbed = λ h. ap (λ l. count stub l) none_more;
              log = v.log;
            })
      | inr t ↦
          rw (t, pick_at)
            (record {
              rest = v.rest;
              queue_sound = v.queue_sound;
              off = λ h. off;
              unstubbed = λ h. absurd (false≢true h);
              log = v.log;
            })
    ]

at_swap-IsSound : (s : Run) → s.at ≡ at_swap → IsSound s → IsSound (pick_at at_swap s)
unfolding pick_at off_stub swaps count
at_swap-IsSound s e v =
    let off : s.queue.head ≢ stub = v.off (ap off_stub e) in
    let free : count stub v.rest ≡ 0 = v.unstubbed (ap swaps e) in
    record {
      rest = v.rest ++ (stub ∷ []);
      queue_sound =
          swap-IsQueue stub s.queue v.rest (ground arith) (ground (arith, off, free)) v.queue_sound;
      off = λ h. off;
      unstubbed = λ h. absurd (false≢true h);
      log =
          v.log
          ∙ ap (λ l. s.taken ++ l)
              (sym (
                procs-append (s.queue.head ∷ v.rest) (stub ∷ [])
                ∙ ap (λ l. procs (s.queue.head ∷ v.rest) ++ l) (procs-stub [] ∙ procs-nil)
                ∙ append-nil _));
    }

at_land-IsSound : (s : Run) → s.at ≡ at_land → IsSound s → IsSound (pick_at at_land s)
unfolding pick_at off_stub swaps
at_land-IsSound s e v = record {
  rest = v.rest;
  queue_sound = land-IsQueue stub s.queue v.rest v.queue_sound;
  off = λ h. rw (head-land stub s.queue) (v.off (ap off_stub e));
  unstubbed = λ h. absurd (false≢true h);
  log = rw (head-land stub s.queue) v.log;
}

pub pick_at-IsSound : (at : At) (s : Run) → s.at ≡ at → IsSound s → IsSound (pick_at at s)
unfolding pick_at off_stub swaps
pick_at-IsSound looking s e v = look_first-IsSound s v
pick_at-IsSound past_stub s e v = look-IsSound at_tail s refl (v.off (ap off_stub e)) v
pick_at-IsSound at_tail s e v = at_tail-IsSound s e v
pick_at-IsSound (spinning zero) s e v = record {
  rest = v.rest;
  queue_sound = v.queue_sound;
  off = λ h. absurd (false≢true h);
  unstubbed = λ h. absurd (false≢true h);
  log = v.log;
}
pick_at-IsSound (spinning (suc k)) s e v =
    look-IsSound (spinning k) s refl (v.off (ap off_stub e)) v
pick_at-IsSound at_swap s e v = at_swap-IsSound s e v
pick_at-IsSound at_land s e v = at_land-IsSound s e v
pick_at-IsSound at_last s e v = look-IsSound looking s refl (v.off (ap off_stub e)) v
