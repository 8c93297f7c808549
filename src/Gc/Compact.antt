-- ===== src/Gc/Compact.antt =====
-- What a minor collection leaves.
use swarmrt.Base.{
  ℕ, ◌-◌, ◌/◌, ◌≡◌, List, [], ◌∷◌, Bool, false, ◌&&◌, ◌||◌, if◌then◌else◌, ◌==◌, ltb, length, take,
}
use swarmrt.Gc.{Heap, index, is_root}

-- Whether a payload points to a word.
unfoldable pub rooted : Heap → List ℕ → ℕ → Bool
rooted h [] i = false
rooted h (p ∷ ps) i = (is_root h p && index h p == i) || rooted h ps i

-- What a collection does with a bitmap that has just the words with a root.
unfoldable pub Collected : Heap → List ℕ → ℕ × Heap → Type 0
Collected h kept r =
    (r.0 ≡ h.top - length kept)
    × (if ltb (h.top / 4) r.0 then take r.1.top r.1.words ≡ kept else r.1 ≡ h)
