-- ===== src/Ets/Store.antt =====
-- All tables of src/swarmrt_ets.c, by their numbers, and the tables of each process.
pub mod Owners
use swarmrt.Base.{
  ℕ, ◌+◌, ◌%◌, ◌^◌, List, [], ◌∷◌, Bool, true, false, Option, none, some, if◌then◌else◌, ◌==◌, map,
  take, replicate,
}
use swarmrt.Registry.{update}
use swarmrt.Ets.{Val, Floats, Kind, Access, Table, num_buckets, insert_in, lookup_in, delete_in}

-- The global list, the list `ets_tables` of each process, by the numbers of the tables, and the next
-- number.
pub record Store : Type 0 where
  pub tables : List Table
  pub owned : ℕ → List ℕ
  pub next_tid : ℕ

-- `ets_find_table_locked`
unfoldable pub find_table : ℕ → List Table → Option Table
find_table tid [] = none
find_table tid (t ∷ ts) = if t.tid == tid then some t else find_table tid ts

-- The list with the first table of a number changed, which is how a change of a table is seen in it.
unfoldable pub store_table : Table → List Table → List Table
store_table t' [] = []
store_table t' (t ∷ ts) = if t.tid == t'.tid then t' ∷ ts else t ∷ store_table t' ts

-- `sw_ets_new`
unfoldable pub new : Option ℕ → Kind → Access → Store → ℕ × Store
new self kind access s =
    let t : Table = record {
      tid = s.next_tid;
      kind = kind;
      access = access;
      owner = self;
      buckets = replicate num_buckets [];
      count = 0;
    } in
    (
      s.next_tid,
      record {
        tables = t ∷ s.tables;
        owned = elim self [ none ↦ s.owned | some p ↦ update s.owned p (s.next_tid ∷ s.owned p) ];
        next_tid = (s.next_tid + 1) % 2 ^ 32;
      },
    )

-- The list without the first table of a number.
unfoldable pub unlink : ℕ → List Table → List Table
unlink tid [] = []
unlink tid (t ∷ ts) = if t.tid == tid then ts else t ∷ unlink tid ts

-- The list of an owner without the first entry of a number.
unfoldable pub disown : ℕ → List ℕ → List ℕ
disown tid [] = []
disown tid (x ∷ xs) = if x == tid then xs else x ∷ disown tid xs

-- `sw_ets_drop`: true for 0, false for -1.
unfoldable pub drop : ℕ → Store → Bool × Store
unfolding find_table unlink disown
drop tid s = elim (find_table tid s.tables) [
  | none ↦ (false, s)
  | some t ↦ (
    true,
    record s {
      tables = unlink tid s.tables;
      owned = elim t.owner [ none ↦ s.owned | some p ↦ update s.owned p (disown tid (s.owned p)) ];
    },
  )
]

-- The second loop of `sw_ets_cleanup_owner`.
unfoldable pub drop_each : List ℕ → Store → Store
drop_each [] s = s
drop_each (tid ∷ tids) s = drop_each tids (drop tid s).1

abbrev pub max_snapshot : ℕ
max_snapshot = 256

-- `sw_ets_cleanup_owner`
unfoldable pub cleanup_owner : ℕ → Store → Store
unfolding drop_each
cleanup_owner p s =
    let s' = drop_each (take max_snapshot (s.owned p)) s in
    record s' { owned = update s'.owned p [] }

-- `sw_ets_info_count`, with `none` for -1.
unfoldable pub info_count : ℕ → Store → Option ℕ
unfolding find_table
info_count tid s = elim (find_table tid s.tables) [ none ↦ none | some t ↦ some t.count ]

-- `sw_ets_list_tids`
unfoldable pub list_tids : ℕ → Store → List ℕ
list_tids max s = take max (map (λ t. t.tid) s.tables)

module _ (fl : Floats) (mem : ℕ → Val) where
  -- `sw_ets_insert`
  unfoldable pub insert : Option ℕ → ℕ → ℕ → ℕ → Store → Bool × Store
  unfolding find_table store_table insert_in
  insert self tid k v s = elim (find_table tid s.tables) [
    | none ↦ (false, s)
    | some t ↦
        let (done, t') = insert_in fl mem self k v t in
        (done, record s { tables = store_table t' s.tables })
  ]

  -- `sw_ets_lookup`, with `none` for the NULL of a missing table, key or permission.
  unfoldable pub lookup : Option ℕ → ℕ → ℕ → Store → Option ℕ
  unfolding find_table lookup_in
  lookup self tid k s = elim (find_table tid s.tables) [
    | none ↦ none
    | some t ↦ lookup_in fl mem self k t
  ]

  -- `sw_ets_delete`
  unfoldable pub delete : Option ℕ → ℕ → ℕ → Store → Bool × Store
  unfolding find_table store_table delete_in
  delete self tid k s = elim (find_table tid s.tables) [
    | none ↦ (false, s)
    | some t ↦
        let (done, t') = delete_in fl mem self k t in
        (done, record s { tables = store_table t' s.tables })
  ]
