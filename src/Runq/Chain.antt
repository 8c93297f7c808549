-- ===== src/Runq/Chain.antt =====
-- The processes from the head of a run queue to its tail.
use swarmrt.Base.{
  ℕ, ◌≤◌, ◌≡◌, refl, ap, ◌∙◌, ◌≢◌, ◌⊎◌, inl, inr, List, [], ◌∷◌, ◌++◌, ◌==◌, arith, Bool-cases,
  ==_iff,
}
use swarmrt.Registry.{update}
use swarmrt.Links.Peers.{count}

-- A process and the one after it: linked, or the push of the second has not linked it yet.
unfoldable pub Next : (ℕ → ℕ) → (ℕ → ℕ) → ℕ → ℕ → Type 0
Next next prev x y = ((next x ≡ y) × (prev y ≡ 0)) ⊎ ((next x ≡ 0) × (prev y ≡ x))

-- From a process over a list of others to the last one, which has no next.
unfoldable pub Linked : (ℕ → ℕ) → (ℕ → ℕ) → ℕ → List ℕ → ℕ → Type 0
unfolding Next
Linked next prev x [] last = (last ≡ x) × (next x ≡ 0)
Linked next prev x (y ∷ ys) last = (Next next prev x y) × Linked next prev y ys last

module _ (next prev : ℕ → ℕ) where
  Next-update :
      (m v n u x y : ℕ)
      → m ≢ x
      → n ≢ y
      → Next next prev x y
      → Next (update next m v) (update prev n u) x y
  unfolding Next
  Next-update m v n u x y out out' l = ground arith

  -- Writes to processes outside the chain.
  pub Linked-update :
      (m v n u x : ℕ) (ys : List ℕ) (last : ℕ)
      → count m (x ∷ ys) ≡ 0
      → count n ys ≡ 0
      → Linked next prev x ys last
      → Linked (update next m v) (update prev n u) x ys last
  unfolding Linked count
  Linked-update m v n u x [] last out out' l = (l.0, ground (arith, l.1))
  Linked-update m v n u x (y ∷ ys) last out out' l = (
    Next-update m v n u x y (ground (arith, out)) (ground (arith, out')) l.0,
    Linked-update m v n u y ys last (ground (arith, out)) (ground (arith, out')) l.1,
  )

  -- One more process, which the last one does not yet know.
  pub Linked-append :
      (x n : ℕ) (ys : List ℕ) (last : ℕ)
      → prev n ≡ last
      → next n ≡ 0
      → Linked next prev x ys last
      → Linked next prev x (ys ++ (n ∷ [])) n
  unfolding Linked Next
  Linked-append x n [] last late free l = (inr (l.1, late ∙ l.0), (refl, free))
  Linked-append x n (y ∷ ys) last late free l = (l.0, Linked-append y n ys last late free l.1)

  -- The process before one that is not linked is in the chain.
  prev-in_chain :
      (x n : ℕ) (ys : List ℕ) (last : ℕ)
      → count n ys ≢ 0
      → prev n ≢ 0
      → Linked next prev x ys last
      → count (prev n) (x ∷ ys) ≢ 0
  unfolding Linked count Next
  prev-in_chain x n [] last there late l = absurd (there refl)
  prev-in_chain x n (y ∷ ys) last there late l = elim (Bool-cases (y == n)) [
    | inl e ↦ let same : y ≡ n = (==_iff y n).0 e in ground (arith, l.0, ap prev same)
    | inr e ↦
        let later = prev-in_chain y n ys last (ground (arith, there, e)) late l.1 in
        ground (arith, later)
  ]

  -- The end of a push keeps the chain.
  pub Linked-land :
      (x n : ℕ) (ys : List ℕ) (last : ℕ)
      → ((m : ℕ) → count m (x ∷ ys) ≤ 1)
      → count n ys ≢ 0
      → prev n ≢ 0
      → Linked next prev x ys last
      → Linked (update next (prev n) n) (update prev n 0) x ys last
  unfolding Linked count Next
  Linked-land x n [] last apart there late l = absurd (there refl)
  Linked-land x n (y ∷ ys) last apart there late l = elim (Bool-cases (y == n)) [
    | inl e ↦
        let same : y ≡ n = (==_iff y n).0 e in
        let at_x : prev n ≡ x = ground (arith, l.0, ap prev same, late) in
        (
          inl (ground (arith, at_x, same), ground (arith, same)),
          Linked-update (prev n) n n 0 y ys last (ground (arith, at_x, apart x, apart (prev n)))
              (ground (arith, same, apart n)) l.1,
        )
    | inr e ↦
        let later = prev-in_chain y n ys last (ground (arith, there, e)) late l.1 in
        (
          Next-update (prev n) n n 0 x y (ground (arith, later, apart x, apart (prev n)))
              (ground (arith, e)) l.0,
          Linked-land y n ys last (λ m. ground (arith, apart m)) (ground (arith, there, e)) late
              l.1,
        )
  ]

  pub last-in_chain :
      (x : ℕ) (ys : List ℕ) (last : ℕ) → Linked next prev x ys last → count last (x ∷ ys) ≢ 0
  unfolding Linked count
  last-in_chain x [] last l = ground (arith, l.0)
  last-in_chain x (y ∷ ys) last l = ground (arith, last-in_chain y ys last l.1)
