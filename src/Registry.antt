-- ===== src/Registry.antt =====
-- The process registry of src/swarmrt_native.c: names to processes, in chains that a hash of the
-- name picks. A process is the number of its slot. Its field `reg_entry` is a copy of the name that
-- its entry holds, since the code frees an entry only when it clears the pointer to it. All
-- operations run under the registry's lock, so each is one step. A call with no swarm, name or
-- process returns -1 or NULL and is left out, and memory is taken not to run out.
pub mod Laws
pub mod Kept
pub mod Removal
pub mod LongNames
use swarmrt.Base.{
  ℕ, ◌+◌, ◌*◌, ◌%◌, ◌^◌, List, [], ◌∷◌, Bool, true, false, Option, none, some, if◌then◌else◌, ◌==◌,
  length, get_or, set, take, Bytes, prefix_eq,
}
use Prim.Native.Nat.{bit_xor}

-- `SW_REG_NAME_MAX - 1`
abbrev pub name_max : ℕ
name_max = 63

-- `sw_reg_entry_t`; the chain is the list that it stands in.
pub record Entry : Type 0 where
  pub id : ℕ
  pub name : Bytes
  pub proc : ℕ

-- `sw_registry_t`, the field `reg_entry` of each process, and the next address of `malloc`.
pub record Registry : Type 0 where
  pub buckets : List (List Entry)
  pub reg_entry : ℕ → Option Entry
  pub next_id : ℕ

hash_from : ℕ → Bytes → ℕ
hash_from h [] = h
hash_from h (c ∷ cs) = hash_from ((bit_xor h c * 16777619) % 2 ^ 32) cs

-- `registry_hash`: FNV-1a on 32 bits.
unfoldable pub registry_hash : Bytes → ℕ
unfolding hash_from
registry_hash name = hash_from 2166136261 name

unfoldable pub bucket_of : Bytes → Registry → ℕ
bucket_of name r = registry_hash name % length r.buckets

-- `strncmp(e->name, name, SW_REG_NAME_MAX - 1) == 0`
unfoldable pub matches : Bytes → Entry → Bool
matches name e = prefix_eq name_max e.name name

-- The walk of a chain for the first entry of a name.
unfoldable pub find_entry : Bytes → List Entry → Option Entry
find_entry name [] = none
find_entry name (e ∷ es) = if matches name e then some e else find_entry name es

abbrev pub update {ℓ} : {A : Type ℓ} → (ℕ → A) → ℕ → A → ℕ → A
update f k v q = if k == q then v else f q

abbrev pub new_entry : Bytes → ℕ → Registry → Entry
new_entry name proc r = record { id = r.next_id; name = take name_max name; proc = proc }

-- The new entry goes to the front of its chain, and its process points to it.
unfoldable pub insert : Bytes → ℕ → Registry → Registry
insert name proc r =
    let i = bucket_of name r in
    record {
      buckets = set r.buckets i (new_entry name proc r ∷ get_or r.buckets i []);
      reg_entry = update r.reg_entry proc (some (new_entry name proc r));
      next_id = r.next_id + 1;
    }

-- `sw_register`: true for 0, false for -1.
unfoldable pub register : Bytes → ℕ → Registry → Bool × Registry
unfolding find_entry insert matches
register name proc r = elim (r.reg_entry proc) [
  | some _ ↦ (false, r)
  | none ↦ elim (find_entry name (get_or r.buckets (bucket_of name r) [])) [
    | some _ ↦ (false, r)
    | none ↦ (true, insert name proc r)
  ]
]

-- The chain without the first entry of a name.
unfoldable pub drop_entry : Bytes → List Entry → List Entry
drop_entry name [] = []
drop_entry name (e ∷ es) = if matches name e then es else e ∷ drop_entry name es

-- `sw_unregister`
unfoldable pub unregister : Bytes → Registry → Bool × Registry
unfolding find_entry drop_entry matches
unregister name r =
    let i = bucket_of name r in
    let chain = get_or r.buckets i [] in
    elim (find_entry name chain) [
      | none ↦ (false, r)
      | some e ↦ (
        true,
        record r {
          buckets = set r.buckets i (drop_entry name chain);
          reg_entry = update r.reg_entry e.proc none;
        },
      )
    ]

abbrev pub proc_of : Option Entry → Option ℕ
proc_of none = none
proc_of (some e) = some e.proc

-- `sw_whereis`
unfoldable pub whereis : Bytes → Registry → Option ℕ
unfolding find_entry matches
whereis name r = proc_of (find_entry name (get_or r.buckets (bucket_of name r) []))

-- The chain without the entry at an address.
unfoldable pub drop_own : ℕ → List Entry → List Entry
drop_own id [] = []
drop_own id (e ∷ es) = if e.id == id then es else e ∷ drop_own id es

-- `registry_remove_proc`: the bucket is that of the name that the entry holds.
unfoldable pub remove_proc : ℕ → Registry → Registry
unfolding drop_own
remove_proc proc r = elim (r.reg_entry proc) [
  | none ↦ r
  | some own ↦
      let i = bucket_of own.name r in
      record r {
        buckets = set r.buckets i (drop_own own.id (get_or r.buckets i []));
        reg_entry = update r.reg_entry proc none;
      }
]
