-- ===== src/Ets.antt =====
-- The tables of src/swarmrt_ets.c. A key is the address of a value; what the addresses hold is a
-- parameter, which no operation changes, and so are the comparisons of floating-point numbers. A
-- stored value is the number of its address, 0 for NULL. Locks make each operation one step, and
-- `malloc` does not fail.
pub mod Keys
pub mod Chains
pub mod Laws
pub mod Store
use swarmrt.Base.{
  sub_32, ℕ, ◌+◌, ◌*◌, ◌/◌, ◌%◌, ◌^◌, List, [], ◌∷◌, Bool, true, false, ◌||◌, Option, none, some,
  if◌then◌else◌, ◌==◌, ltb, get_or, set, Bytes, bytes_eq,
}
use Prim.Native.Nat.{bit_xor}

-- What a key points to: nothing (the address NULL), a value with an integer on 64 bits, a float by
-- its bits, a string or an atom whose text may be NULL, or a value of another type.
pub data Val : Type 0 where
  null : Val
  int : ℕ → Val
  float : ℕ → Val
  string : Option Bytes → Val
  atom : Option Bytes → Val
  other : ℕ → Val

-- The number of a type in `sw_val_type_t`; NULL has none, and is told apart first.
unfoldable pub type_of : Val → ℕ
type_of null = 0
type_of (int i) = 1
type_of (float f) = 2
type_of (string s) = 3
type_of (atom s) = 4
type_of (other t) = t

-- The comparisons of floats.
pub record Floats : Type 0 where
  pub feq : ℕ → ℕ → Bool
  pub flt : ℕ → ℕ → Bool

unfoldable pub text_eq : Option Bytes → Option Bytes → Bool
text_eq (some s) (some t) = bytes_eq s t
text_eq (some s) none = false
text_eq none t = false

-- The switch of `ets_key_eq`, for two addresses that differ.
unfoldable pub val_eq : Floats → Val → Val → Bool
unfolding text_eq
val_eq fl (int i) (int j) = i == j
val_eq fl (float f) (float g) = fl.feq f g
val_eq fl (string s) (string t) = text_eq s t
val_eq fl (atom s) (atom t) = text_eq s t
val_eq fl v w = false

-- `strcmp(s, t) < 0`
unfoldable pub bytes_lt : Bytes → Bytes → Bool
bytes_lt s [] = false
bytes_lt [] (d ∷ t) = true
bytes_lt (c ∷ s) (d ∷ t) =
    let rest = bytes_lt s t in if ltb c d then true else if c == d then rest else false

abbrev text : Option Bytes → Bytes
text none = []
text (some s) = s

-- The switch of `ets_key_cmp` for two values of one type, where it is negative: the addresses `a`
-- and `b` differ.
unfoldable pub val_lt : Floats → ℕ → ℕ → Val → Val → Bool
unfolding bytes_lt
val_lt fl a b (int i) (int j) = ltb ((i + 2 ^ 63) % 2 ^ 64) ((j + 2 ^ 63) % 2 ^ 64)
val_lt fl a b (float f) (float g) = fl.flt f g
val_lt fl a b (string s) (string t) = bytes_lt (text s) (text t)
val_lt fl a b (atom s) (atom t) = bytes_lt (text s) (text t)
val_lt fl a b v w = ltb a b

unfoldable pub is_null : Val → Bool
is_null null = true
is_null v = false

-- FNV-1a on 64 bits.
unfoldable pub fnv64 : ℕ → Bytes → ℕ
fnv64 h [] = h
fnv64 h (c ∷ s) = fnv64 ((bit_xor h c * 1099511628211) % 2 ^ 64) s

-- The number that is hashed.
unfoldable pub raw_hash : ℕ → Val → ℕ
unfolding fnv64
raw_hash addr (int i) = i
raw_hash addr (string (some s)) = fnv64 14695981039346656037 s
raw_hash addr (atom (some s)) = fnv64 14695981039346656037 s
raw_hash addr v = addr

abbrev pub num_buckets : ℕ
num_buckets = 64

-- The finish of `ets_hash_key`.
unfoldable pub mix : ℕ → ℕ
mix k =
    let k₁ = bit_xor k (k / 2 ^ 33) in
    let k₂ = (k₁ * 18397679294719823053) % 2 ^ 64 in bit_xor k₂ (k₂ / 2 ^ 33) % num_buckets

-- `sw_ets_entry_t`
pub record Entry : Type 0 where
  pub key : ℕ
  pub value : ℕ

-- `sw_ets_type_t`
pub data Kind : Type 0 where
  plain_set ordered_set bag : Kind

-- `sw_ets_access_t`
pub data Access : Type 0 where
  open_to_all protected_table private_table : Access

-- `sw_ets_table_t`
pub record Table : Type 0 where
  pub tid : ℕ
  pub kind : Kind
  pub access : Access
  pub owner : Option ℕ
  pub buckets : List (List Entry)
  pub count : ℕ

-- Whether `sw_self()` is the owner; `none` is NULL.
unfoldable pub is_owner : Option ℕ → Table → Bool
is_owner self t = elim self [
  | none ↦ elim t.owner [ none ↦ true | some _ ↦ false ]
  | some p ↦ elim t.owner [ none ↦ false | some q ↦ p == q ]
]

-- `ets_check_read`
unfoldable pub check_read : Option ℕ → Table → Bool
unfolding is_owner
check_read self t = elim t.access [
  | open_to_all ↦ true
  | protected_table ↦ true
  | private_table ↦ is_owner self t
]

-- `ets_check_write`
unfoldable pub check_write : Option ℕ → Table → Bool
unfolding is_owner
check_write self t = elim t.access [
  | open_to_all ↦ true
  | protected_table ↦ is_owner self t
  | private_table ↦ is_owner self t
]

module _ (fl : Floats) (mem : ℕ → Val) where
  -- `ets_key_eq`
  unfoldable pub key_eq : ℕ → ℕ → Bool
  unfolding val_eq
  key_eq a b = if a == b then true else val_eq fl (mem a) (mem b)

  -- `ets_key_cmp(a, b) < 0`
  unfoldable pub key_lt : ℕ → ℕ → Bool
  unfolding val_lt is_null type_of
  key_lt a b =
      if a == b
      then false
      else if is_null (mem a) || is_null (mem b)
      then is_null (mem a)
      else if type_of (mem a) == type_of (mem b)
      then val_lt fl a b (mem a) (mem b)
      else ltb (type_of (mem a)) (type_of (mem b))

  -- `ets_hash_key`
  unfoldable pub hash_key : ℕ → ℕ
  unfolding raw_hash mix
  hash_key a = mix (raw_hash a (mem a))

  -- The value of the first entry of a key.
  unfoldable pub find : ℕ → List Entry → Option ℕ
  find k [] = none
  find k (e ∷ es) = if key_eq e.key k then some e.value else find k es

  -- The replacement in a set: the chain with the first entry of the key set to a value.
  unfoldable pub replace : ℕ → ℕ → List Entry → Option (List Entry)
  replace k v [] = none
  replace k v (e ∷ es) =
      let rest = replace k v es in
      if key_eq e.key k
      then some (record e { value = v } ∷ es)
      else elim rest [ none ↦ none | some es' ↦ some (e ∷ es') ]

  -- The walk of an ordered set, and how many entries it adds.
  unfoldable pub put_ordered : ℕ → ℕ → List Entry → ℕ × List Entry
  put_ordered k v [] = (1, record { key = k; value = v } ∷ [])
  put_ordered k v (e ∷ es) =
      let (n, es') = put_ordered k v es in
      if key_eq e.key k
      then (0, record e { value = v } ∷ es)
      else if key_lt k e.key
      then (1, record { key = k; value = v } ∷ e ∷ es)
      else (n, e ∷ es')

  -- What an insertion makes of a chain, and how many entries it adds.
  unfoldable pub put : Kind → ℕ → ℕ → List Entry → ℕ × List Entry
  unfolding replace put_ordered
  put plain_set k v es = elim (replace k v es) [
    | none ↦ (1, record { key = k; value = v } ∷ es)
    | some es' ↦ (0, es')
  ]
  put ordered_set k v es = put_ordered k v es
  put bag k v es = (1, record { key = k; value = v } ∷ es)

  -- `sw_ets_insert` on the table that was found: true for 0, false for -1.
  unfoldable pub insert_in : Option ℕ → ℕ → ℕ → Table → Bool × Table
  unfolding put hash_key check_write
  insert_in self k v t =
      let i = hash_key k in
      let (n, es) = put t.kind k v (get_or t.buckets i []) in
      if check_write self t
      then (true, record t { buckets = set t.buckets i es; count = (t.count + n) % 2 ^ 32 })
      else (false, t)

  -- `sw_ets_lookup` on the table that was found.
  unfoldable pub lookup_in : Option ℕ → ℕ → Table → Option ℕ
  unfolding find hash_key check_read
  lookup_in self k t = if check_read self t then find k (get_or t.buckets (hash_key k) []) else none

  -- The chain without the entries of a key, and how many they were.
  unfoldable pub delete_all : ℕ → List Entry → ℕ × List Entry
  delete_all k [] = (0, [])
  delete_all k (e ∷ es) =
      let (n, es') = delete_all k es in if key_eq e.key k then (n + 1, es') else (n, e ∷ es')

  -- The walk of a deletion: in a bag all entries of the key go, else the first one.
  unfoldable pub delete_from : Kind → ℕ → List Entry → ℕ × List Entry
  unfolding delete_all
  delete_from kind k [] = (0, [])
  delete_from kind k (e ∷ es) =
      let (n, es') = delete_from kind k es in
      let (m, others) = delete_all k es in
      if key_eq e.key k
      then elim kind [ plain_set ↦ (1, es) | ordered_set ↦ (1, es) | bag ↦ (1 + m, others) ]
      else (n, e ∷ es')

  -- `sw_ets_delete` on the table that was found.
  unfoldable pub delete_in : Option ℕ → ℕ → Table → Bool × Table
  unfolding delete_from hash_key check_write
  delete_in self k t =
      let i = hash_key k in
      let (n, es) = delete_from t.kind k (get_or t.buckets i []) in
      if check_write self t
      then (ltb 0 n, record t { buckets = set t.buckets i es; count = sub_32 t.count n })
      else (false, t)
