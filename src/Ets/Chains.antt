-- ===== src/Ets/Chains.antt =====
-- One chain of a table that is a set.
use swarmrt.Base.{
  ℕ, ◌≡◌, refl, sym, ap, ◌∙◌, ◌⊎◌, inl, inr, List, [], ◌∷◌, true, false, none, some, if◌then◌else◌,
  Bool-cases,
}
use mathlib.Core.Bool.{false≢true}
use swarmrt.Ets.{Val, Floats, Entry, plain_set, key_eq, find, replace, put, delete_from}
use swarmrt.Ets.Keys.{IsExact, name, key_eq-name, name-key_eq, key_eq-key_eq}

module _ (fl : Floats) (mem : ℕ → Val) where
  -- No key has two entries.
  abbrev pub IsUnique : List Entry → Type 0
  IsUnique [] = Unit
  IsUnique (e ∷ es) = (find fl mem e.key es ≡ none) × IsUnique es

  module _ (k q v : ℕ) (exact_k : IsExact (mem k)) (exact_q : IsExact (mem q)) where
    -- A key that is equal to `q` but not to `k` tells them apart.
    apart :
        (x : ℕ) → key_eq fl mem x k ≡ false → key_eq fl mem x q ≡ true → key_eq fl mem k q ≡ false
    apart x h e = elim (Bool-cases (key_eq fl mem k q)) [
      | inl y ↦ absurd (
          false≢true (
            sym h
            ∙ name-key_eq fl mem x k
                (key_eq-name fl mem x q exact_q e ∙ sym (key_eq-name fl mem k q exact_q y))))
      | inr y ↦ y
    ]

    replace_cases :
        (es : List Entry)
        → (replace fl mem k v es ≡ none) × (find fl mem k es ≡ none)
          ⊎ ((es' : List Entry) × (replace fl mem k v es ≡ some es')
              × (find fl mem q es' ≡ (if key_eq fl mem k q then some v else find fl mem q es)))
    unfolding replace find
    replace_cases [] = inl (refl, refl)
    replace_cases (e ∷ es) = elim (Bool-cases (key_eq fl mem e.key k)) [
      | inl h ↦
          let same : key_eq fl mem e.key q ≡ key_eq fl mem k q =
            key_eq-key_eq fl mem e.key k q exact_k exact_q h in
          inr (
            record e { value = v } ∷ es,
            rw (h, replace) refl,
            rw (same, find)
                (elim (Bool-cases (key_eq fl mem k q)) [ inl y ↦ rw y refl | inr y ↦ rw y refl ]),
          )
      | inr h ↦ elim (replace_cases es) [
        | inl (n, f) ↦ inl (rw (h, replace) (rw (n, replace) refl), rw (h, find) f)
        | inr (es', r, f) ↦ inr (
          e ∷ es',
          rw (h, replace) (rw (r, replace) refl),
          elim (Bool-cases (key_eq fl mem e.key q)) [
            | inl y ↦ rw (y, find) (rw (apart e.key h y) refl)
            | inr y ↦ rw (y, find) f
          ],
        )
      ]
    ]

    pub find-put :
        (es : List Entry)
        → find fl mem q (put fl mem plain_set k v es).1
          ≡ (if key_eq fl mem k q then some v else find fl mem q es)
    unfolding put find
    find-put es = elim (replace_cases es) [
      | inl (n, f) ↦ rw (n, put) refl
      | inr (es', r, f) ↦ rw (r, put) f
    ]

  -- What is not found under a key is not found under an equal one.
  find-none :
      (x y : ℕ) (es : List Entry)
      → IsExact (mem y)
      → name fl mem x ≡ name fl mem y
      → find fl mem x es ≡ none
      → find fl mem y es ≡ none
  unfolding find
  find-none x y [] h e f = refl
  find-none x y (n ∷ es) h e f = elim (Bool-cases (key_eq fl mem n.key x)) [
    | inl a ↦ absurd (let g = rw (a, find) at f in cc)
    | inr a ↦
        let g = rw (a, find) at f in
        elim (Bool-cases (key_eq fl mem n.key y)) [
          | inl b ↦ absurd (
              false≢true
                (sym a ∙ name-key_eq fl mem n.key x (key_eq-name fl mem n.key y h b ∙ sym e)))
          | inr b ↦ rw (b, find) (find-none x y es h e g)
        ]
  ]

  pub find-delete_from :
      (k q : ℕ) (es : List Entry)
      → IsExact (mem k)
      → IsExact (mem q)
      → IsUnique es
      → find fl mem q (delete_from fl mem plain_set k es).1
        ≡ (if key_eq fl mem k q then none else find fl mem q es)
  unfolding delete_from find
  find-delete_from k q [] h j u = elim (Bool-cases (key_eq fl mem k q)) [
    | inl y ↦ rw y refl
    | inr y ↦ rw y refl
  ]
  find-delete_from k q (e ∷ es) h j u = elim (Bool-cases (key_eq fl mem e.key k)) [
    | inl x ↦
        let same : key_eq fl mem e.key q ≡ key_eq fl mem k q =
          key_eq-key_eq fl mem e.key k q h j x in
        rw (x, delete_from)
          (rw (same, find)
            (elim (Bool-cases (key_eq fl mem k q)) [
              | inl y ↦ rw y (
                  find-none e.key q es j
                    (key_eq-name fl mem e.key k h x ∙ key_eq-name fl mem k q j y) u.0)
              | inr y ↦ rw y refl
            ]))
    | inr x ↦
        rw (x, delete_from)
          (elim (Bool-cases (key_eq fl mem e.key q)) [
            | inl y ↦ rw (y, find) (rw (apart k q 0 h j e.key x y) refl)
            | inr y ↦ rw (y, find) (find-delete_from k q es h j u.1)
          ])
  ]

  -- A replacement changes no key.
  unfoldable keys : List Entry → List ℕ
  keys [] = []
  keys (e ∷ es) = e.key ∷ keys es

  find-keys :
      (x : ℕ) (es es' : List Entry)
      → keys es ≡ keys es'
      → find fl mem x es ≡ none
      → find fl mem x es' ≡ none
  unfolding find keys
  find-keys x es [] h f = refl
  find-keys x [] (e ∷ es') h f = absurd (cc)
  find-keys x (d ∷ es) (e ∷ es') h f =
      let one : d.key ≡ e.key = cc in
      let more : keys es ≡ keys es' = cc in
      elim (Bool-cases (key_eq fl mem d.key x)) [
        | inl a ↦ absurd (let g = rw (a, find) at f in cc)
        | inr a ↦
            let g = rw (a, find) at f in
            let b : key_eq fl mem e.key x ≡ false = rw (← one) a in
            rw (b, find) (find-keys x es es' more g)
      ]

  IsUnique-keys : (es es' : List Entry) → keys es ≡ keys es' → IsUnique es → IsUnique es'
  unfolding keys
  IsUnique-keys es [] h u = tt
  IsUnique-keys [] (e ∷ es') h u = absurd (cc)
  IsUnique-keys (d ∷ es) (e ∷ es') h u =
      let one : d.key ≡ e.key = cc in
      let more : keys es ≡ keys es' = cc in
      (rw (← one) (find-keys d.key es es' more u.0), IsUnique-keys es es' more u.1)

  keys-replace :
      (k v : ℕ) (es : List Entry)
      → (replace fl mem k v es ≡ none) × (find fl mem k es ≡ none)
        ⊎ ((es' : List Entry) × (replace fl mem k v es ≡ some es') × (keys es ≡ keys es'))
  unfolding replace find keys
  keys-replace k v [] = inl (refl, refl)
  keys-replace k v (e ∷ es) = elim (Bool-cases (key_eq fl mem e.key k)) [
    | inl h ↦ inr (record e { value = v } ∷ es, rw (h, replace) refl, refl)
    | inr h ↦ elim (keys-replace k v es) [
      | inl (n, f) ↦ inl (rw (h, replace) (rw (n, replace) refl), rw (h, find) f)
      | inr (es', r, f) ↦
          inr (e ∷ es', rw (h, replace) (rw (r, replace) refl), ap (λ l. e.key ∷ l) f)
    ]
  ]

  pub put-IsUnique :
      (k v : ℕ) (es : List Entry) → IsUnique es → IsUnique (put fl mem plain_set k v es).1
  unfolding put
  put-IsUnique k v es u = elim (keys-replace k v es) [
    | inl (n, f) ↦ rw (n, put) (f, u)
    | inr (es', r, same) ↦ rw (r, put) (IsUnique-keys es es' same u)
  ]

  find-delete_none :
      (k x : ℕ) (es : List Entry)
      → find fl mem x es ≡ none
      → find fl mem x (delete_from fl mem plain_set k es).1 ≡ none
  unfolding delete_from find
  find-delete_none k x [] f = refl
  find-delete_none k x (e ∷ es) f = elim (Bool-cases (key_eq fl mem e.key x)) [
    | inl a ↦ absurd (let g = rw (a, find) at f in cc)
    | inr a ↦
        let g = rw (a, find) at f in
        elim (Bool-cases (key_eq fl mem e.key k)) [
          | inl b ↦ rw (b, delete_from) g
          | inr b ↦ rw (b, delete_from) (rw (a, find) (find-delete_none k x es g))
        ]
  ]

  pub delete_from-IsUnique :
      (k : ℕ) (es : List Entry) → IsUnique es → IsUnique (delete_from fl mem plain_set k es).1
  unfolding delete_from
  delete_from-IsUnique k [] u = tt
  delete_from-IsUnique k (e ∷ es) u = elim (Bool-cases (key_eq fl mem e.key k)) [
    | inl b ↦ rw (b, delete_from) u.1
    | inr b ↦ rw (b, delete_from) (find-delete_none k e.key es u.0, delete_from-IsUnique k es u.1)
  ]
