-- ===== src/Runq/Shape.antt =====
-- The shape of a run queue under both halves of a push and the advance of the head.
use swarmrt.Base.{
  ℕ, ◌+◌, ◌≤◌, ◌≡◌, refl, sym, ap, ◌∙◌, ◌≢◌, inl, inr, List, [], ◌∷◌, ◌++◌, if◌then◌else◌, ◌==◌,
  arith, Bool-cases, ==_iff,
}
use swarmrt.Registry.{update}
use swarmrt.Links.Peers.{count}
use swarmrt.Runq.{Queue, swap, land}
use swarmrt.Runq.Chain.{Linked, Next, Linked-update, Linked-append, Linked-land, last-in_chain}

-- The head and the rest of a queue are a chain of different processes, and each push that has not
-- ended is of one in the rest.
pub record IsQueue (q : Queue) (rest : List ℕ) : Type 0 where
  pub linked : Linked q.next q.prev q.head rest q.tail
  pub distinct : (n : ℕ) → count n (q.head ∷ rest) ≤ 1
  pub no_null : count 0 (q.head ∷ rest) ≡ 0
  pub flying : (n : ℕ) → q.prev n ≢ 0 → count n rest ≢ 0

pub count-append : (n : ℕ) (xs ys : List ℕ) → count n (xs ++ ys) ≡ count n xs + count n ys
unfolding count
count-append n [] ys = ground arith
count-append n (x ∷ xs) ys = ground (arith, count-append n xs ys)

pub count-snoc :
    (m x n : ℕ) (rest : List ℕ)
    → count m (x ∷ (rest ++ (n ∷ []))) ≡ count m (x ∷ rest) + (if n == m then 1 else 0)
unfolding count
count-snoc m x n rest = ground (arith, count-append m rest (n ∷ []))

pub swap-IsQueue :
    (n : ℕ) (q : Queue) (rest : List ℕ)
    → n ≢ 0
    → count n (q.head ∷ rest) ≡ 0
    → IsQueue q rest
    → IsQueue (swap n q) (rest ++ (n ∷ []))
unfolding count
swap-IsQueue n q rest real free v = record {
  linked =
      Linked-append (update q.next n 0) (update q.prev n q.tail) q.head n rest q.tail (ground arith)
        (ground arith)
        (Linked-update q.next q.prev n 0 n q.tail q.head rest q.tail free (ground (arith, free))
          v.linked);
  distinct = λ m. ground (arith, count-append m rest (n ∷ []), v.distinct m, free);
  no_null = ground (arith, count-append 0 rest (n ∷ []), v.no_null, real);
  flying = λ m h. ground (arith, count-append m rest (n ∷ []), v.flying m);
}

pub land-IsQueue : (n : ℕ) (q : Queue) (rest : List ℕ) → IsQueue q rest → IsQueue (land n q) rest
unfolding land
land-IsQueue n q rest v = elim (Bool-cases (q.prev n == 0)) [
  | inl e ↦ rw e v
  | inr e ↦
      let late : q.prev n ≢ 0 = ground (arith, e) in
      rw e (record {
        linked =
            Linked-land q.next q.prev q.head n rest q.tail v.distinct (v.flying n late) late
              v.linked;
        distinct = v.distinct;
        no_null = v.no_null;
        flying = λ m h. ground (arith, v.flying m);
      })
]

-- A next process is the first of the rest.
pub next-in_rest :
    (q : Queue) (rest : List ℕ)
    → q.next q.head ≢ 0
    → IsQueue q rest
    → (ys : List ℕ) × (rest ≡ (q.next q.head ∷ ys)) × IsQueue (record q { head = q.next q.head }) ys
unfolding Linked Next count
next-in_rest q [] h v = absurd (h v.linked.1)
next-in_rest q (y ∷ ys) h v =
    let e : q.next q.head ≡ y = ground (arith, v.linked.0) in
    let landed : q.prev y ≡ 0 = ground (arith, v.linked.0) in
    rw e (
      ys,
      refl,
      record {
        linked = v.linked.1;
        distinct = λ n. ground (arith, v.distinct n);
        no_null = ground (arith, v.no_null);
        flying = λ n late. elim (Bool-cases (y == n)) [
          | inl same ↦ absurd (late (ap q.prev (sym ((==_iff y n).0 same)) ∙ landed))
          | inr apart ↦ ground (arith, v.flying n late, apart)
        ];
      },
    )

-- A head that is the tail has nothing after it.
pub last_alone : (q : Queue) (rest : List ℕ) → q.head ≡ q.tail → IsQueue q rest → rest ≡ []
unfolding Linked count
last_alone q [] h v = refl
last_alone q (y ∷ ys) h v =
    let there = last-in_chain q.next q.prev y ys q.tail v.linked.1 in
    absurd (ground (arith, h, there, v.distinct q.tail))

pub head-land : (n : ℕ) (q : Queue) → (land n q).head ≡ q.head
unfolding land
head-land n q = elim (Bool-cases (q.prev n == 0)) [ inl e ↦ rw e refl | inr e ↦ rw e refl ]
