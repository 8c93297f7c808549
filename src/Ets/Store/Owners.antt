-- ===== src/Ets/Store/Owners.antt =====
-- The tables that go with their owner.
use swarmrt.Base.{
  ℕ, ◌≡◌, refl, sym, ap, ◌∙◌, ◌≢◌, inl, inr, List, [], ◌∷◌, Bool, false, not, ◌||◌, none, ◌==◌,
  arith, take, select, All, Bool-cases, Option-cases, ==_iff,
}
use swarmrt.Ets.{Table}
use swarmrt.Ets.Store.{Store, find_table, unlink, drop, drop_each, max_snapshot, cleanup_owner}

-- No two tables have one number.
abbrev pub IsDistinct : List Table → Type 0
IsDistinct [] = Unit
IsDistinct (t ∷ ts) = All (λ u. u.tid ≢ t.tid) ts × IsDistinct ts

abbrev pub has : ℕ → List ℕ → Bool
has x [] = false
has x (y ∷ ys) = (x == y) || has x ys

abbrev pub without : List ℕ → List Table → List Table
without tids ts = select (λ t. not (has t.tid tids)) ts

find_table-unlink : (tid : ℕ) (ts : List Table) → find_table tid ts ≡ none → unlink tid ts ≡ ts
unfolding find_table unlink
find_table-unlink tid [] h = refl
find_table-unlink tid (t ∷ ts) h = elim (Bool-cases (t.tid == tid)) [
  | inl e ↦ absurd (let g = rw (e, find_table) at h in cc)
  | inr e ↦ rw (e, unlink) (ap (λ l. t ∷ l) (find_table-unlink tid ts (rw (e, find_table) at h)))
]

-- A drop takes the table of the number from the list.
tables-drop : (tid : ℕ) (s : Store) → (drop tid s).1.tables ≡ unlink tid s.tables
unfolding drop
tables-drop tid s = elim (Option-cases (find_table tid s.tables)) [
  | inl e ↦ rw (e, drop) (sym (find_table-unlink tid s.tables e))
  | inr (t, e) ↦ rw (e, drop) refl
]

All-unlink {κ} : (P : Table → Type κ) (tid : ℕ) (ts : List Table) → All P ts → All P (unlink tid ts)
unfolding unlink
All-unlink P tid [] h = tt
All-unlink P tid (t ∷ ts) h = elim (Bool-cases (t.tid == tid)) [
  | inl e ↦ rw (e, unlink) h.1
  | inr e ↦ rw (e, unlink) (h.0, All-unlink P tid ts h.1)
]

unlink-IsDistinct : (tid : ℕ) (ts : List Table) → IsDistinct ts → IsDistinct (unlink tid ts)
unfolding unlink
unlink-IsDistinct tid [] h = tt
unlink-IsDistinct tid (t ∷ ts) h = elim (Bool-cases (t.tid == tid)) [
  | inl e ↦ rw (e, unlink) h.1
  | inr e ↦
      rw (e, unlink) (All-unlink (λ u. u.tid ≢ t.tid) tid ts h.0, unlink-IsDistinct tid ts h.1)
]

without-cons_other :
    (tid : ℕ) (tids : List ℕ) (ts : List Table)
    → All (λ u. u.tid ≢ tid) ts
    → without (tid ∷ tids) ts ≡ without tids ts
unfolding select
without-cons_other tid tids [] h = refl
without-cons_other tid tids (t ∷ ts) h =
    let e : (t.tid == tid) ≡ false = ground (arith, h.0) in
    rw (e, without-cons_other tid tids ts h.1) refl

without-unlink :
    (tid : ℕ) (tids : List ℕ) (ts : List Table)
    → IsDistinct ts
    → without tids (unlink tid ts) ≡ without (tid ∷ tids) ts
unfolding select unlink
without-unlink tid tids [] h = refl
without-unlink tid tids (t ∷ ts) h = elim (Bool-cases (t.tid == tid)) [
  | inl e ↦
      let same : t.tid ≡ tid = (==_iff t.tid tid).0 e in
      rw (e, unlink, select) (sym (without-cons_other tid tids ts (rw same at h.0)))
  | inr e ↦ rw (e, unlink, select) (rw (without-unlink tid tids ts h.1) refl)
]

without-none : (ts : List Table) → without [] ts ≡ ts
unfolding select
without-none [] = refl
without-none (t ∷ ts) = ap (λ l. t ∷ l) (without-none ts)

tables-drop_each :
    (tids : List ℕ) (s : Store)
    → IsDistinct s.tables
    → (drop_each tids s).tables ≡ without tids s.tables
unfolding drop_each
tables-drop_each [] s h = sym (without-none s.tables)
tables-drop_each (tid ∷ tids) s h =
    let e = tables-drop tid s in
    tables-drop_each tids (drop tid s).1 (rw e (unlink-IsDistinct tid s.tables h))
    ∙ (ap (without tids) e ∙ without-unlink tid tids s.tables h)

-- When a process ends, the tables that go are those among the first 256 of its list, and every other
-- table stays as it was and where it was.
pub cleanup_owner_lem :
    (p : ℕ) (s : Store)
    → IsDistinct s.tables
    → (cleanup_owner p s).tables
      ≡ select (λ t. not (has t.tid (take max_snapshot (s.owned p)))) s.tables
unfolding cleanup_owner
cleanup_owner_lem p s h = tables-drop_each (take max_snapshot (s.owned p)) s h
