-- ===== src/Links/Mutual.antt =====
-- Links on both sides under one call.
use swarmrt.Base.{
  ℕ, zero, suc, ◌+◌, ◌-◌, ◌≤◌, ◌≡◌, refl, sym, ap, ◌∙◌, ◌≢◌, inl, inr, List, [], ◌∷◌, false, not,
  ◌&&◌, if◌then◌else◌, ◌==◌, arith, select, Bool-cases, ==_iff,
}
use swarmrt.Links.{
  World, Mon, has, drop_peer, add_link, link, link_dead, unlink, part, part_all, notify_all,
  forget_all, exit,
}
use swarmrt.Links.Peers.{count, has-count, count-drop_peer, drop_peer-select}

-- A process has another in its list just when that has it, at most once, and never itself.
pub record IsMutual (w : World) : Type 0 where
  pub mirrored : (p q : ℕ) → count q (w.links p) ≡ count p (w.links q)
  pub single : (p q : ℕ) → count q (w.links p) ≤ 1
  pub irreflexive : (p : ℕ) → count p (w.links p) ≡ 0

count-add_link :
    (p q x y : ℕ) (w : World)
    → p ≢ q
    → count y ((add_link p q w).links x)
      ≡ count y (w.links x)
        + (if x == p && y == q then 1 else 0)
        + (if x == q && y == p then 1 else 0)
unfolding add_link count
count-add_link p q x y w h = ground arith

pub add_link-IsMutual :
    (p q : ℕ) (w : World) → p ≢ q → count q (w.links p) ≡ 0 → IsMutual w → IsMutual (add_link p q w)
add_link-IsMutual p q w h free v = record {
  mirrored =
      λ x y. ground (arith, count-add_link p q x y w h, count-add_link p q y x w h, v.mirrored x y);
  single = λ x y. ground (arith, count-add_link p q x y w h, v.single x y, v.mirrored p q, free);
  irreflexive = λ x. ground (arith, count-add_link p q x x w h, v.irreflexive x);
}

-- Only the lists of links count.
same_links-IsMutual : (w w' : World) → w'.links ≡ w.links → IsMutual w → IsMutual w'
same_links-IsMutual w w' e v = record {
  mirrored = λ p q. rw e (v.mirrored p q);
  single = λ p q. rw e (v.single p q);
  irreflexive = λ p. rw e (v.irreflexive p);
}

links-link_dead : (p q : ℕ) (w : World) → (link_dead p q w).links ≡ w.links
unfolding link_dead
links-link_dead p q w = elim (Bool-cases (w.trap p)) [
  | inl e ↦ rw (e, link_dead) refl
  | inr e ↦ elim (Bool-cases (w.reason q == 0)) [
    | inl z ↦ rw (e, link_dead) (rw (z, link_dead) refl)
    | inr z ↦ rw (e, link_dead) (rw (z, link_dead) refl)
  ]
]

pub link-IsMutual : (p q : ℕ) (w : World) → IsMutual w → IsMutual (link p q w).1
unfolding link
link-IsMutual p q w v = elim (Bool-cases (p == q)) [
  | inl e ↦ rw e v
  | inr apart ↦ elim (Bool-cases (w.dead q)) [
    | inl e ↦ rw (apart, link) (rw (e, link) (same_links-IsMutual w _ (links-link_dead p q w) v))
    | inr e ↦ elim (Bool-cases (has q (w.links p))) [
      | inl there ↦ rw (apart, link) (rw (e, link) (rw there v))
      | inr free ↦
          rw (apart, link)
            (rw (e, link)
              (rw free (
                add_link-IsMutual p q w (ground (arith, apart))
                  (ground (arith, has-count q (w.links p), free)) v)))
    ]
  ]
]

count-unlink :
    (p q x y : ℕ) (w : World)
    → p ≢ q
    → count y ((unlink p q w).links x)
      ≡ count y (w.links x)
        - (if x == p && y == q then 1 else 0)
        - (if x == q && y == p then 1 else 0)
unfolding unlink
count-unlink p q x y w h =
    ground (arith, count-drop_peer y q (w.links p), count-drop_peer y p (w.links q))

pub unlink-IsMutual : (p q : ℕ) (w : World) → p ≢ q → IsMutual w → IsMutual (unlink p q w)
unlink-IsMutual p q w h v = record {
  mirrored =
      λ x y. ground (arith, count-unlink p q x y w h, count-unlink p q y x w h, v.mirrored x y);
  single = λ x y. ground (arith, count-unlink p q x y w h, v.single x y);
  irreflexive = λ x. ground (arith, count-unlink p q x x w h, v.irreflexive x);
}

-- `drop_peer` as often as said.
drops : ℕ → ℕ → List ℕ → List ℕ
drops zero p qs = qs
drops (suc n) p qs = drops n p (drop_peer p qs)

links-part :
    (p why q x : ℕ) (w : World)
    → (part p why q w).links x ≡ (if q == x then drop_peer p (w.links q) else w.links x)
unfolding part
links-part p why q x w = elim (Bool-cases (why == 0)) [
  | inl e ↦ elim (Bool-cases (w.trap q)) [
    | inl t ↦ rw (e, part) (rw (t, part) refl)
    | inr t ↦ rw (e, part) (rw (t, part) refl)
  ]
  | inr e ↦ elim (Bool-cases (w.trap q)) [
    | inl t ↦ rw (e, part) (rw (t, part) refl)
    | inr t ↦ rw (e, part) (rw (t, part) refl)
  ]
]

links-part_all :
    (p why x : ℕ) (qs : List ℕ) (w : World)
    → (part_all p why qs w).links x ≡ drops (count x qs) p (w.links x)
unfolding part_all drops count
links-part_all p why x [] w = refl
links-part_all p why x (q ∷ qs) w =
    links-part_all p why x qs (part p why q w)
    ∙ (rw (links-part p why q x w) (elim (Bool-cases (q == x)) [
      | inl e ↦
          let same : q ≡ x = (==_iff q x).0 e in
          let one : 1 + count x qs ≡ suc (count x qs) = omega arith in rw (e, one, same) refl
      | inr e ↦ let none_more : 0 + count x qs ≡ count x qs = omega arith in rw (e, none_more) refl
    ]))

links-notify_all : (p why : ℕ) (ms : List Mon) (w : World) → (notify_all p why ms w).links ≡ w.links
unfolding notify_all
links-notify_all p why [] w = refl
links-notify_all p why (m ∷ ms) w = links-notify_all p why ms _

links-forget_all : (ms : List Mon) (w : World) → (forget_all ms w).links ≡ w.links
unfolding forget_all
links-forget_all [] w = refl
links-forget_all (m ∷ ms) w = links-forget_all ms _

count-select_other :
    (p y : ℕ) (qs : List ℕ)
    → count y (select (λ q. not (q == p)) qs) ≡ (if p == y then 0 else count y qs)
unfolding count select
count-select_other p y [] = ground arith
count-select_other p y (q ∷ qs) = elim (Bool-cases (q == p)) [
  | inl e ↦ rw (e, select) (ground (arith, e, count-select_other p y qs))
  | inr e ↦ rw (e, select) (ground (arith, e, count-select_other p y qs))
]

select_absent : (p : ℕ) (qs : List ℕ) → count p qs ≡ 0 → select (λ q. not (q == p)) qs ≡ qs
unfolding count select
select_absent p [] h = refl
select_absent p (q ∷ qs) h =
    let e : (q == p) ≡ false = ground arith in
    rw (e, select) (ap (λ l. q ∷ l) (select_absent p qs (ground (arith, e))))

drops-select :
    (n p : ℕ) (qs : List ℕ) → n ≡ count p qs → n ≤ 1 → drops n p qs ≡ select (λ q. not (q == p)) qs
unfolding drops
drops-select zero p qs e h = sym (select_absent p qs (sym e))
drops-select (suc zero) p qs e h = drop_peer-select p qs (omega arith)
drops-select (suc (suc n)) p qs e h = absurd (omega arith)

-- The end of a process leaves it without links, takes it from the list of every other process, and
-- changes these lists in nothing else.
pub links-exit :
    (p why x : ℕ) (w : World)
    → IsMutual w
    → (exit p why w).links x ≡ (if p == x then [] else select (λ q. not (q == p)) (w.links x))
unfolding exit
links-exit p why x w v =
    rw (links-forget_all, links-notify_all)
      (elim (Bool-cases (p == x)) [
        | inl e ↦ rw e refl
        | inr e ↦
            rw (e, links-part_all)
              (drops-select (count x (w.links p)) p (w.links x) (v.mirrored p x) (v.single p x))
      ])

count-exit :
    (p why x y : ℕ) (w : World)
    → IsMutual w
    → count y ((exit p why w).links x)
      ≡ (if p == x then 0 else if p == y then 0 else count y (w.links x))
count-exit p why x y w v = rw (links-exit p why x w v) (elim (Bool-cases (p == x)) [
  | inl e ↦ rw e (unfold count in refl)
  | inr e ↦ rw e (count-select_other p y (w.links x))
])

pub exit-IsMutual : (p why : ℕ) (w : World) → IsMutual w → IsMutual (exit p why w)
exit-IsMutual p why w v = record {
  mirrored =
      λ x y. ground (arith, count-exit p why x y w v, count-exit p why y x w v, v.mirrored x y);
  single = λ x y. ground (arith, count-exit p why x y w v, v.single x y);
  irreflexive = λ x. ground (arith, count-exit p why x x w v, v.irreflexive x);
}
