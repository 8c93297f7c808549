-- ===== src/Links/Peers.antt =====
-- Lists of peers: how often a process is in one, with and without a removal.
use swarmrt.Base.{
  ℕ, ◌+◌, ◌-◌, ◌≤◌, ◌≡◌, refl, sym, ap, inl, inr, List, [], ◌∷◌, false, not, if◌then◌else◌, ◌==◌,
  ltb, arith, select, Bool-cases,
}
use swarmrt.Links.{has, drop_peer}

-- How often a process is in a list.
unfoldable pub count : ℕ → List ℕ → ℕ
count p [] = 0
count p (q ∷ qs) = (if q == p then 1 else 0) + count p qs

pub has-count : (p : ℕ) (qs : List ℕ) → has p qs ≡ ltb 0 (count p qs)
unfolding has count
has-count p [] = refl
has-count p (q ∷ qs) = ground (arith, has-count p qs)

pub count-drop_peer :
    (x p : ℕ) (qs : List ℕ)
    → count x (drop_peer p qs) ≡ (if p == x then count x qs - 1 else count x qs)
unfolding count drop_peer
count-drop_peer x p [] = ground arith
count-drop_peer x p (q ∷ qs) = ground (arith, count-drop_peer x p qs)

-- A removal from a list that has the process at most once is the removal of all of it.
pub drop_peer-select :
    (p : ℕ) (qs : List ℕ) → count p qs ≤ 1 → drop_peer p qs ≡ select (λ q. not (q == p)) qs
unfolding count drop_peer select
drop_peer-select p [] h = refl
drop_peer-select p (q ∷ qs) h = elim (Bool-cases (q == p)) [
  | inl e ↦ rw (e, drop_peer, select) (sym (select_absent qs (ground (arith, e))))
  | inr e ↦ rw (e, drop_peer, select) (ap (λ l. q ∷ l) (drop_peer-select p qs (ground (arith, e))))
]
  where
    select_absent : (qs : List ℕ) → count p qs ≡ 0 → select (λ q. not (q == p)) qs ≡ qs
    select_absent [] h = refl
    select_absent (q ∷ qs) h =
        let e : (q == p) ≡ false = ground arith in
        rw (e, select) (ap (λ l. q ∷ l) (select_absent qs (ground (arith, e))))
