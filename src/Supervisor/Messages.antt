-- ===== src/Supervisor/Messages.antt =====
-- What every message leaves of the supervisor.
use swarmrt.Base.{
  ℕ, zero, suc, ◌+◌, ◌≤◌, ◌<◌, ◌≡◌, refl, ◌∙◌, ◌≢◌, ◌⊎◌, inl, inr, List, [], ◌∷◌, true, false,
  Option, arith, length, get_or, set, All, Bool-cases, Option-cases, length-set, All-get_or,
  All-set,
}
use swarmrt.Supervisor.{
  Strategy, one_for_one, one_for_all, rest_for_one, Child, Sup, World, ring_size, kill_child,
  for_children, kill_all, find_child, should_restart, Outcome, kill_others, start_dead,
  restart_from, restart_one, apply_strategy, mark_dead, restart_child, blank, on_down, on_stop,
  Message, down, exit, stop, other, nothing, handle, check_breaker, record_restart,
}
use swarmrt.Supervisor.Loops.{IsSound, covers, Restarted, length-for_children}
use swarmrt.Supervisor.Restarts.{both_ways}

-- A body that makes a child with `Q` of a child with `P` does so for every child.
for_children-All {κ μ} :
    (P : Child → Type κ) (Q : Child → Type μ) (body : ℕ → Child → World → Child × World)
    → ((i : ℕ) (c : Child) (w : World) → P c → Q (body i c w).0)
    → (i : ℕ) (cs : List Child) (w : World) → All P cs
    → All Q (for_children body i cs w).0
unfolding for_children
for_children-All P Q body make i [] w h = tt
for_children-All P Q body make i (c ∷ cs) w (h, hs) =
    (make i c w h, for_children-All P Q body make (i + 1) cs (body i c w).1 hs)

abbrev IsDead : Child → Type 0
IsDead c = c.alive ≡ false

kill_child-IsDead : (c : Child) (w : World) → IsSound c → IsDead (kill_child c w).0
unfolding kill_child
kill_child-IsDead c w sound = elim (Bool-cases c.alive) [
  | inl a ↦ elim (Option-cases c.proc) [
    | inl e ↦ absurd (sound a e)
    | inr (p, e) ↦ rw (e, kill_child) (rw (a, kill_child) refl)
  ]
  | inr a ↦ elim (Option-cases c.proc) [
    | inl e ↦ rw (e, kill_child) a
    | inr (p, e) ↦ rw (e, kill_child) (rw (a, kill_child) refl)
  ]
]

kill_all-IsDead : (cs : List Child) (w : World) → All IsSound cs → All IsDead (kill_all cs w).0
unfolding kill_all
kill_all-IsDead cs w h =
    for_children-All IsSound IsDead (λ i c w. kill_child c w) (λ i c w. kill_child-IsDead c w) 0 cs
      w h

All-map {ℓ κ μ} :
    {A : Type ℓ} (P : A → Type κ) (Q : A → Type μ)
    → ((x : A) → P x → Q x)
    → (xs : List A) → All P xs
    → All Q xs
All-map P Q f [] h = tt
All-map P Q f (x ∷ xs) (h, hs) = (f x h, All-map P Q f xs hs)

All-pointwise {ℓ κ} :
    {A : Type ℓ} (P : A → Type κ) (d : A) (xs : List A)
    → ((j : ℕ) → j < length xs → P (get_or xs j d))
    → All P xs
All-pointwise P d [] h = tt
All-pointwise P d (x ∷ xs) h =
    (h 0 (omega arith), All-pointwise P d xs (λ j k. h (suc j) (omega arith)))

IsSound-dead : (c : Child) → IsDead c → IsSound c
IsSound-dead c d a = absurd (cc)

-- Every child that is alive has a process, and the ring of restart times has its size and its index
-- within it.
pub record IsValid (st : Sup) : Type 0 where
  pub sound : All IsSound st.children
  pub sized : length st.restart_times ≡ ring_size
  pub index : st.restart_idx < ring_size
  pub counted : st.restart_count ≤ ring_size

-- What a handled message leaves: a valid state with as many children, and when the loop stops no
-- child that is alive.
pub record Leaves (st : Sup) (o : Outcome) : Type 0 where
  pub valid : IsValid o.sup
  pub same : length o.sup.children ≡ length st.children
  pub stopped : (o.running ≡ true) ⊎ All IsDead o.sup.children

record_restart-IsValid :
    (now : ℕ) (st : Sup) (cs : List Child)
    → IsValid st
    → All IsSound cs
    → IsValid (record (record_restart now st) { children = cs })
unfolding record_restart
record_restart-IsValid now st cs v h = record {
  sound = h;
  sized = rw length-set v.sized;
  index = omega arith;
  counted = ground (arith, v.counted);
}

length-kill_all : (cs : List Child) (w : World) → length (kill_all cs w).0 ≡ length cs
unfolding kill_all
length-kill_all cs w = length-for_children (λ i c w. kill_child c w) 0 cs w

on_stop-Leaves : (st : Sup) (w : World) → IsValid st → Leaves st (on_stop st w)
unfolding on_stop
on_stop-Leaves st w v =
    let dead = kill_all-IsDead st.children w v.sound in
    record {
      valid = record {
        sound = All-map IsDead IsSound IsSound-dead (kill_all st.children w).0 dead;
        sized = v.sized;
        index = v.index;
        counted = v.counted;
      };
      same = length-kill_all st.children w;
      stopped = inr dead;
    }

marked-dead :
    (cs : List Child) (i : ℕ) (c : Child) → (get_or (set cs i (mark_dead c)) i blank).alive ≡ false
marked-dead [] i c = refl
marked-dead (d ∷ cs) zero c = refl
marked-dead (d ∷ cs) (suc i) c = marked-dead cs i c

marked-IsValid :
    (st : Sup) (i : ℕ) (c : Child)
    → IsValid st
    → IsValid (record st { children = set st.children i (mark_dead c) })
marked-IsValid st i c v = record {
  sound = All-set IsSound st.children i (mark_dead c) v.sound (λ a. absurd (cc));
  sized = v.sized;
  index = v.index;
  counted = v.counted;
}

resized :
    (st : Sup) (i : ℕ) (c : Child) (o : Outcome)
    → Leaves (record st { children = set st.children i (mark_dead c) }) o
    → Leaves st o
resized st i c o l = record {
  valid = l.valid;
  same = l.same ∙ length-set st.children i (mark_dead c);
  stopped = l.stopped;
}

unchanged :
    (st : Sup) (w : World) → IsValid st → Leaves st (record { sup = st; world = w; running = true })
unchanged st w v = record { valid = v; same = refl; stopped = inl refl }

module _ (grant : ℕ → Option ℕ) where
  length-restart_from :
      (from i : ℕ) (cs : List Child) (w : World)
      → length (restart_from grant from i cs w).0 ≡ length cs
  unfolding restart_from
  length-restart_from from i cs w =
      let (cs₁, w₁) = for_children (kill_others from i) 0 cs w in
      length-for_children (start_dead grant from) 0 cs₁ w₁
      ∙ length-for_children (kill_others from i) 0 cs w

  length-apply_strategy :
      (s : Strategy) (i : ℕ) (cs : List Child) (w : World)
      → length (apply_strategy grant s i cs w).0 ≡ length cs
  unfolding apply_strategy restart_from
  length-apply_strategy one_for_one i cs w = length-for_children (restart_one grant i) 0 cs w
  length-apply_strategy one_for_all i cs w = length-restart_from 0 i cs w
  length-apply_strategy rest_for_one i cs w = length-restart_from i i cs w

  IsSound-Restarted : (n base : ℕ) (c d : Child) → Restarted grant n base c d → IsSound d
  IsSound-Restarted n base c d (e, inl (p, g, a, h, m)) = λ k q. cc
  IsSound-Restarted n base c d (e, inr (g, a, p)) = IsSound-dead d a

  apply_strategy-IsSound :
      (s : Strategy) (i : ℕ) (cs : List Child) (w : World)
      → All IsSound cs
      → (get_or cs i blank).alive ≡ false
      → All IsSound (apply_strategy grant s i cs w).0
  apply_strategy-IsSound s i cs w sound dead =
      All-pointwise IsSound blank (apply_strategy grant s i cs w).0 (λ j k.
        let both =
          both_ways grant 0 s i j cs w sound dead (rw (length-apply_strategy s i cs w) at k)
            (omega arith, inl refl) in
        elim (Bool-cases (covers s i j)) [
          | inl cover ↦ IsSound-Restarted _ 0 (get_or cs j blank) _ (both.0 cover)
          | inr out ↦ rw (both.1 out) (All-get_or IsSound cs j blank sound (λ t. absurd (cc)))
        ])

  restart_child-Leaves :
      (now later i : ℕ) (st : Sup) (w : World)
      → IsValid st
      → (get_or st.children i blank).alive ≡ false
      → Leaves st (restart_child grant now later i st w)
  unfolding restart_child on_stop
  restart_child-Leaves now later i st w v dead = elim (Bool-cases (check_breaker now st)) [
    | inl e ↦ rw (e, restart_child) (on_stop-Leaves st w v)
    | inr e ↦
        rw (e, restart_child)
          (record {
            valid =
                record_restart-IsValid later st (apply_strategy grant st.strategy i st.children w).0
                  v (apply_strategy-IsSound st.strategy i st.children w v.sound dead);
            same = length-apply_strategy st.strategy i st.children w;
            stopped = inl refl;
          })
  ]

  on_down-Leaves :
      (now later ref reason : ℕ) (st : Sup) (w : World)
      → IsValid st
      → Leaves st (on_down grant now later ref reason st w)
  unfolding on_down
  on_down-Leaves now later ref reason st w v = elim (Option-cases (find_child ref 0 st.children)) [
    | inl e ↦ rw (e, on_down) (unchanged st w v)
    | inr (i, e) ↦
        let c = get_or st.children i blank in
        let st' = record st { children = set st.children i (mark_dead c) } in
        let v' : IsValid st' = marked-IsValid st i c v in
        elim (Bool-cases (should_restart c.spec.restart reason)) [
          | inl r ↦
              rw (e, on_down)
                (rw (r, on_down)
                  (resized st i c _
                    (restart_child-Leaves now later i st' w v' (marked-dead st.children i c))))
          | inr r ↦ rw (e, on_down) (rw (r, on_down) (resized st i c _ (unchanged st' w v')))
        ]
  ]

-- After any message to a supervisor in which every child that is alive has a process and the ring of
-- restart times is well formed, but for the NULL that a killed one receives, that holds again, the
-- number of children is the same, and if the message ends the loop then no child is alive.
pub handle-Leaves :
    (grant : ℕ → Option ℕ) (m : Message) (st : Sup) (w : World)
    → IsValid st
    → m ≢ nothing
    → Leaves st (handle grant m st w)
unfolding handle
handle-Leaves grant (down now later ref reason) st w v h =
    on_down-Leaves grant now later ref reason st w v
handle-Leaves grant exit st w v h = unchanged st w v
handle-Leaves grant stop st w v h = on_stop-Leaves st w v
handle-Leaves grant other st w v h = unchanged st w v
handle-Leaves grant nothing st w v h = absurd (h refl)
