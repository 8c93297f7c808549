-- ===== src/Gc/Slide.antt =====
-- The loop that slides the marked words down.
use swarmrt.Base.{
  ℕ, zero, suc, ◌+◌, ◌≤◌, ◌<◌, ◌≡◌, refl, sym, ap, ◌∙◌, inl, inr, List, [], ◌∷◌, ◌++◌, Bool, false,
  if◌then◌else◌, ◌==◌, append-nil, append_assoc, arith, length, get_or, set, take, Bool-cases,
  ==_iff, length-set, set-get_or,
}
use swarmrt.Gc.{count_live, compact}

-- The words that pass a test, of `n` from `i` on.
unfoldable pub kept_words : (ℕ → Bool) → List ℕ → ℕ → ℕ → List ℕ
kept_words live ws zero i = []
kept_words live ws (suc n) i =
    let rest = kept_words live ws n (i + 1) in if live i then get_or ws i 0 ∷ rest else rest

pub length-kept_words :
    (bits : List Bool) (ws : List ℕ) (n i : ℕ)
    → length (kept_words (λ j. get_or bits j false) ws n i) ≡ count_live bits n i
unfolding kept_words count_live
length-kept_words bits ws zero i = refl
length-kept_words bits ws (suc n) i = ground (arith, length-kept_words bits ws n (i + 1))

kept_words-set :
    (live : ℕ → Bool) (ws : List ℕ) (n i d x : ℕ)
    → d < i
    → kept_words live (set ws d x) n i ≡ kept_words live ws n i
unfolding kept_words
kept_words-set live ws zero i d x h = refl
kept_words-set live ws (suc n) i d x h =
    rw (kept_words-set live ws n (i + 1) d x (omega (arith, h)), get_or-set_other ws d i x h) refl
  where
    get_or-set_other : (ws : List ℕ) (d i x : ℕ) → d < i → get_or (set ws d x) i 0 ≡ get_or ws i 0
    get_or-set_other [] d i x h = refl
    get_or-set_other (w ∷ ws) zero zero x h = absurd (omega arith)
    get_or-set_other (w ∷ ws) zero (suc i) x h = refl
    get_or-set_other (w ∷ ws) (suc d) zero x h = absurd (omega arith)
    get_or-set_other (w ∷ ws) (suc d) (suc i) x h = get_or-set_other ws d i x (omega (arith, h))

-- One more word after those that are there.
take-set :
    (ws : List ℕ) (d x : ℕ) → d < length ws → take (suc d) (set ws d x) ≡ take d ws ++ (x ∷ [])
take-set [] d x h = absurd (omega arith)
take-set (w ∷ ws) zero x h = refl
take-set (w ∷ ws) (suc d) x h = ap (λ l. w ∷ l) (take-set ws d x (omega (arith, h)))

-- A word written after those that are there, with the words that follow.
slide :
    (live : ℕ → Bool) (ws : List ℕ) (n src dst : ℕ)
    → dst < src
    → dst < length ws
    → take (dst + 1) (set ws dst (get_or ws src 0))
        ++ kept_words live (set ws dst (get_or ws src 0)) n (src + 1)
      ≡ take dst ws ++ (get_or ws src 0 ∷ kept_words live ws n (src + 1))
slide live ws n src dst h k =
    let e : dst + 1 ≡ suc dst = omega arith in
    rw
      (
        e,
        take-set ws dst (get_or ws src 0) k,
        kept_words-set live ws n (src + 1) dst (get_or ws src 0) (omega (arith, h)),
      )
      (append_assoc (take dst ws) (get_or ws src 0 ∷ []) (kept_words live ws n (src + 1)))

stay :
    (live : ℕ → Bool) (ws : List ℕ) (n src : ℕ)
    → src < length ws
    → take (src + 1) ws ++ kept_words live ws n (src + 1)
      ≡ take src ws ++ (get_or ws src 0 ∷ kept_words live ws n (src + 1))
stay live ws n src k =
    let e : src + 1 ≡ suc src = omega arith in
    let one =
      ap (λ l. take (suc src) l) (sym (set-get_or ws src 0))
      ∙ take-set ws src (get_or ws src 0) k in
    ap (λ l. l ++ kept_words live ws n (src + 1)) (ap (λ m. take m ws) e ∙ one)
    ∙ append_assoc (take src ws) (get_or ws src 0 ∷ []) (kept_words live ws n (src + 1))

pub take-compact :
    (bits : List Bool) (n src dst : ℕ) (ws : List ℕ)
    → dst ≤ src
    → src + n ≤ length ws
    → take (compact bits n src dst ws).0 (compact bits n src dst ws).1
      ≡ take dst ws ++ kept_words (λ j. get_or bits j false) ws n src
unfolding compact kept_words
take-compact bits zero src dst ws h k = sym (append-nil (take dst ws))
take-compact bits (suc n) src dst ws h k = elim (Bool-cases (get_or bits src false)) [
  | inl live ↦ elim (Bool-cases (dst == src)) [
    | inl e ↦
        let same : dst ≡ src = (==_iff dst src).0 e in
        rw (live, compact)
          (rw (e, compact)
            (take-compact bits n (src + 1) (dst + 1) ws (omega (arith, h)) (omega (arith, k))
              ∙ (rw same (stay (λ j. get_or bits j false) ws n src (omega (arith, k))))))
    | inr e ↦
        rw (live, compact)
          (rw (e, compact)
            (take-compact bits n (src + 1) (dst + 1) (set ws dst (get_or ws src 0))
                (omega (arith, h)) (omega (arith, k, length-set ws dst (get_or ws src 0)))
              ∙ slide (λ j. get_or bits j false) ws n src dst (ground (arith, h, e))
                  (ground (arith, h, e, k))))
  ]
  | inr dead ↦
      rw (dead, compact)
        (take-compact bits n (src + 1) dst ws (omega (arith, h)) (omega (arith, k)))
]
