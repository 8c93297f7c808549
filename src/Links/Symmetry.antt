-- ===== src/Links/Symmetry.antt =====
-- Links on both sides through any linking, unlinking and ends of processes.
use swarmrt.Base.{ℕ, ◌≡◌, refl, ◌∙◌, ◌≢◌, inl, inr, List, [], ◌∷◌, ◌==◌, arith, Bool-cases, ==_iff}
use swarmrt.Links.{World, drop_peer, add_link, link, unlink, exit}
use swarmrt.Links.Peers.{count, count-drop_peer}
use swarmrt.Links.Mutual.{
  IsMutual, link-IsMutual, unlink-IsMutual, exit-IsMutual, add_link-IsMutual,
}

-- What can be done to links; a spawned child is another process, with no link to its parent yet.
pub data Change : Type 0 where
  link_to : ℕ → ℕ → Change
  unlink_from : ℕ → ℕ → Change
  ends : ℕ → ℕ → Change

pub apply : Change → World → World
apply (link_to p q) w = (link p q w).1
apply (unlink_from p q) w = unlink p q w
apply (ends p why) w = exit p why w

pub apply_all : List Change → World → World
unfolding apply
apply_all [] w = w
apply_all (c ∷ cs) w = apply_all cs (apply c w)

count-unlink_self :
    (p x y : ℕ) (w : World) → IsMutual w → count y ((unlink p p w).links x) ≡ count y (w.links x)
unfolding unlink
count-unlink_self p x y w v = ground (
  arith,
  count-drop_peer y p (w.links p),
  count-drop_peer y p (drop_peer p (w.links p)),
  v.irreflexive p,
)

-- A process that unlinks itself changes nothing: it is not in its own list.
unlink_self-IsMutual : (p : ℕ) (w : World) → IsMutual w → IsMutual (unlink p p w)
unlink_self-IsMutual p w v = record {
  mirrored = λ x y. rw (count-unlink_self p x y w v, count-unlink_self p y x w v) (v.mirrored x y);
  single = λ x y. rw (count-unlink_self p x y w v) (v.single x y);
  irreflexive = λ x. rw (count-unlink_self p x x w v) (v.irreflexive x);
}

apply-IsMutual : (c : Change) (w : World) → IsMutual w → IsMutual (apply c w)
unfolding apply
apply-IsMutual (link_to p q) w v = link-IsMutual p q w v
apply-IsMutual (unlink_from p q) w v = elim (Bool-cases (p == q)) [
  | inl e ↦ let same : p ≡ q = (==_iff p q).0 e in rw same (unlink_self-IsMutual q w v)
  | inr e ↦ unlink-IsMutual p q w (ground (arith, e)) v
]
apply-IsMutual (ends p why) w v = exit-IsMutual p why w v

-- After any linking, unlinking and ends of processes, links are mutual: a process has another in its
-- list just when that has it, at most once, and never itself.
pub apply_all-IsMutual : (cs : List Change) (w : World) → IsMutual w → IsMutual (apply_all cs w)
unfolding apply_all
apply_all-IsMutual [] w v = v
apply_all-IsMutual (c ∷ cs) w v = apply_all-IsMutual cs (apply c w) (apply-IsMutual c w v)

-- The child of `sw_spawn_link`, which is fresh, is linked to its parent, and links stay mutual.
pub spawn_link-IsMutual :
    (p child : ℕ) (w : World)
    → p ≢ child
    → w.links child ≡ []
    → IsMutual w
    → IsMutual (add_link p child w)
spawn_link-IsMutual p child w h fresh v =
    let e : count p (w.links child) ≡ 0 = rw fresh (unfold count in refl) in
    add_link-IsMutual p child w h (v.mirrored p child ∙ e) v
