-- ===== src/Tests/Collecting.antt =====
-- A minor collection of a concrete heap.
use swarmrt.Base.{ℕ, ◌≡◌, refl, List, [], ◌∷◌, none, some, replicate}
use swarmrt.Gc.{Heap, minor, mark, collect, count_live, compact}

abbrev four_words : Heap
four_words = record { start = 800; words = 11 ∷ 22 ∷ 33 ∷ 44 ∷ 0 ∷ []; top = 4 }

-- Two payloads in the heap, one elsewhere.
abbrev payloads : List ℕ
payloads = 824 ∷ 16 ∷ 808 ∷ []

minor-four_words :
    minor payloads four_words
    ≡ some (2, record { start = 800; words = 22 ∷ 44 ∷ 33 ∷ 44 ∷ 0 ∷ []; top = 2 })
unfolding minor mark collect count_live compact
minor-four_words = refl

-- A payload between the top and the end of the heap is marked outside the bitmap.
minor-stale : minor (1920 ∷ []) (record { start = 800; words = replicate 200 0; top = 2 }) ≡ none
unfolding minor mark
minor-stale = refl
