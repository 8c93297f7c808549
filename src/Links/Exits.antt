-- ===== src/Links/Exits.antt =====
-- Who hears of the end of a process: signals, kills and reasons after `process_exit`.
use swarmrt.Base.{
  ℕ, ◌≡◌, refl, sym, ap, ◌∙◌, inl, inr, List, [], ◌∷◌, ◌++◌, not, ◌&&◌, ◌||◌, if◌then◌else◌, ◌==◌,
  map, reverse, append_assoc, arith, select, Bool-cases, ==_iff,
}
use mathlib.Core.List.{reverse-append}
use swarmrt.Registry.{update}
use swarmrt.Links.{
  World, Mon, Signal, exit_signal, down_signal, has, part, part_all, notify_all, forget_all, exit,
}

-- The processes that trap exits, in a list of linked ones, each with a signal.
abbrev pub exit_signals : ℕ → ℕ → World → List ℕ → List Signal
exit_signals p why w qs = map (λ q. exit_signal q (w.pid p) why) (select w.trap qs)

abbrev pub down_signals : ℕ → ℕ → World → List Mon → List Signal
down_signals p why w ms = map (λ m. down_signal m.watcher (w.pid p) m.ref why) ms

signals-part :
    (p why q : ℕ) (w : World)
    → (part p why q w).signals
      ≡ (if w.trap q then exit_signal q (w.pid p) why ∷ w.signals else w.signals)
unfolding part
signals-part p why q w = elim (Bool-cases (why == 0)) [
  | inl e ↦
      let zero_why : why ≡ 0 = (==_iff why 0).0 e in
      elim (Bool-cases (w.trap q)) [
        | inl t ↦ rw (zero_why, part) (rw (t, part) refl)
        | inr t ↦ rw (zero_why, part) (rw (t, part) refl)
      ]
  | inr e ↦ elim (Bool-cases (w.trap q)) [
    | inl t ↦ rw (e, part) (rw (t, part) refl)
    | inr t ↦ rw (e, part) (rw (t, part) refl)
  ]
]

kept-part :
    (p why q : ℕ) (w : World)
    → ((part p why q w).trap ≡ w.trap)
      × ((part p why q w).pid ≡ w.pid)
      × ((part p why q w).watched_by ≡ w.watched_by)
unfolding part
kept-part p why q w = elim (Bool-cases (why == 0)) [
  | inl e ↦ elim (Bool-cases (w.trap q)) [
    | inl t ↦ rw (e, part) (rw (t, part) (refl, refl, refl))
    | inr t ↦ rw (e, part) (rw (t, part) (refl, refl, refl))
  ]
  | inr e ↦ elim (Bool-cases (w.trap q)) [
    | inl t ↦ rw (e, part) (rw (t, part) (refl, refl, refl))
    | inr t ↦ rw (e, part) (rw (t, part) (refl, refl, refl))
  ]
]

kept-part_all :
    (p why : ℕ) (qs : List ℕ) (w : World)
    → ((part_all p why qs w).trap ≡ w.trap)
      × ((part_all p why qs w).pid ≡ w.pid)
      × ((part_all p why qs w).watched_by ≡ w.watched_by)
unfolding part_all
kept-part_all p why [] w = (refl, refl, refl)
kept-part_all p why (q ∷ qs) w =
    let one = kept-part p why q w in
    let rest = kept-part_all p why qs (part p why q w) in
    (rest.0 ∙ one.0, rest.1 ∙ one.1, rest.2 ∙ one.2)

reverse_onto :
    (s : Signal) (ss rest : List Signal) → reverse (s ∷ ss) ++ rest ≡ reverse ss ++ (s ∷ rest)
reverse_onto s ss rest =
    ap (λ l. l ++ rest) (reverse-append (s ∷ []) ss) ∙ append_assoc (reverse ss) (s ∷ []) rest

signals-part_all :
    (p why : ℕ) (qs : List ℕ) (w : World)
    → (part_all p why qs w).signals ≡ reverse (exit_signals p why w qs) ++ w.signals
unfolding part_all select
signals-part_all p why [] w = refl
signals-part_all p why (q ∷ qs) w =
    let kept = kept-part p why q w in
    signals-part_all p why qs (part p why q w)
    ∙ (rw (kept.0, kept.1, signals-part p why q w)
        (elim (Bool-cases (w.trap q)) [
          | inl e ↦
              rw (e, select)
                (sym
                  (reverse_onto (exit_signal q (w.pid p) why) (exit_signals p why w qs) w.signals))
          | inr e ↦ rw (e, select) refl
        ]))

signals-notify_all :
    (p why : ℕ) (ms : List Mon) (w : World)
    → (notify_all p why ms w).signals ≡ reverse (down_signals p why w ms) ++ w.signals
unfolding notify_all
signals-notify_all p why [] w = refl
signals-notify_all p why (m ∷ ms) w =
    signals-notify_all p why ms _
    ∙ sym (
        reverse_onto (down_signal m.watcher (w.pid p) m.ref why) (down_signals p why w ms)
          w.signals)

signals-forget_all : (ms : List Mon) (w : World) → (forget_all ms w).signals ≡ w.signals
unfolding forget_all
signals-forget_all [] w = refl
signals-forget_all (m ∷ ms) w = signals-forget_all ms _

killed-part :
    (p why q x : ℕ) (w : World)
    → (part p why q w).killed x ≡ (w.killed x || (q == x && not (why == 0) && not (w.trap q)))
unfolding part
killed-part p why q x w = elim (Bool-cases (why == 0)) [
  | inl e ↦ elim (Bool-cases (w.trap q)) [
    | inl t ↦ rw (e, part) (rw (t, part) (ground arith))
    | inr t ↦ rw (e, part) (rw (t, part) (ground arith))
  ]
  | inr e ↦ elim (Bool-cases (w.trap q)) [
    | inl t ↦ rw (e, part) (rw (t, part) (ground arith))
    | inr t ↦ rw (e, part) (rw (t, part) (ground arith))
  ]
]

killed-part_all :
    (p why x : ℕ) (qs : List ℕ) (w : World)
    → (part_all p why qs w).killed x
      ≡ (w.killed x || (has x qs && not (why == 0) && not (w.trap x)))
unfolding part_all has
killed-part_all p why x [] w = ground arith
killed-part_all p why x (q ∷ qs) w =
    let kept = kept-part p why q w in
    killed-part_all p why x qs (part p why q w)
    ∙ (rw (kept.0, killed-part p why q x w)
        (elim (Bool-cases (q == x)) [
          | inl e ↦ let same : q ≡ x = (==_iff q x).0 e in rw same (ground arith)
          | inr e ↦ rw e (ground arith)
        ]))

killed-notify_all :
    (p why : ℕ) (ms : List Mon) (w : World) → (notify_all p why ms w).killed ≡ w.killed
unfolding notify_all
killed-notify_all p why [] w = refl
killed-notify_all p why (m ∷ ms) w = killed-notify_all p why ms _

killed-forget_all : (ms : List Mon) (w : World) → (forget_all ms w).killed ≡ w.killed
unfolding forget_all
killed-forget_all [] w = refl
killed-forget_all (m ∷ ms) w = killed-forget_all ms _

signals-exit :
    (p why : ℕ) (w : World)
    → (exit p why w).signals
      ≡ reverse (down_signals p why w (w.watched_by p))
        ++ (reverse (exit_signals p why w (w.links p)) ++ w.signals)
unfolding exit
signals-exit p why w =
    let w₀ : World = record w { reason = update w.reason p why } in
    let kept = kept-part_all p why (w.links p) w₀ in
    rw
      (
        signals-forget_all,
        signals-notify_all,
        kept.2,
        kept.1,
        signals-part_all p why (w.links p) w₀,
      )
      refl

killed-exit :
    (p why x : ℕ) (w : World)
    → (exit p why w).killed x
      ≡ (w.killed x || (has x (w.links p) && not (why == 0) && not (w.trap x)))
unfolding exit
killed-exit p why x w = rw (killed-forget_all, killed-notify_all, killed-part_all) refl

-- The end of a process delivers an exit signal for each of its links to a process that traps exits,
-- in the order of the links, then one DOWN with the reference of each monitor on it, and nothing
-- else; it sets the kill flag just of the linked processes that do not trap exits, and only if the
-- reason is not 0.
pub exit_reaches :
    (p why x : ℕ) (w : World)
    → ((exit p why w).signals
        ≡ reverse (down_signals p why w (w.watched_by p))
          ++ (reverse (exit_signals p why w (w.links p)) ++ w.signals))
      × ((exit p why w).killed x
          ≡ (w.killed x || (has x (w.links p) && not (why == 0) && not (w.trap x))))
exit_reaches p why x w = (signals-exit p why w, killed-exit p why x w)
