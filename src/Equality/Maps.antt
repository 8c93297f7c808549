-- ===== src/Equality/Maps.antt =====
-- A map after a put.
use swarmrt.Base.{ℕ, ◌≡◌, refl, inl, inr, Bool, true, false, Bool-cases}
use swarmrt.Values.{
  Key, atom_key, string_key, int_key, other_key, equals_key, get_entry, map_get, Value, nil_val,
  int_val, float_val, string_val, atom_val, pid_val, tuple_val, list_val, fun_val, map_val, Entries,
  no_entries, entries,
}
use swarmrt.Equality.{equal, equals_nil, get_by, get_value, put_entry, map_put}

get_by-put_entry :
    (feq : ℕ → ℕ → Bool) (es : Entries) (k v : Value)
    → equal feq k k ≡ true
    → get_by (λ q. equal feq q k) (put_entry feq es k v) ≡ v
unfolding get_by put_entry
get_by-put_entry feq no_entries k v h = rw h refl
get_by-put_entry feq (entries q u es) k v h = elim (Bool-cases (equal feq q k)) [
  | inl e ↦ rw (e, put_entry) (rw e refl)
  | inr e ↦ rw (e, put_entry) (rw e (get_by-put_entry feq es k v h))
]

get_by-put_other :
    (feq : ℕ → ℕ → Bool) (es : Entries) (k v k' : Value)
    → ((q : Value) → equal feq q k ≡ true → equal feq q k' ≡ false)
    → equal feq k k' ≡ false
    → get_by (λ q. equal feq q k') (put_entry feq es k v) ≡ get_by (λ q. equal feq q k') es
unfolding get_by put_entry
get_by-put_other feq no_entries k v k' h d = rw d refl
get_by-put_other feq (entries q u es) k v k' h d = elim (Bool-cases (equal feq q k)) [
  | inl e ↦ let other = h q e in rw (e, put_entry) (rw other refl)
  | inr e ↦ rw (e, put_entry, get_by-put_other feq es k v k' h d) refl
]

-- After a put of a key that equals itself the map has the new value under it; under another key, if no
-- value equals both, it has what it had.
pub get_value-map_put :
    (feq : ℕ → ℕ → Bool) (m k v k' : Value)
    → equal feq k k ≡ true
    → ((q : Value) → equal feq q k ≡ true → equal feq q k' ≡ false)
    → (get_value feq (map_put feq m k v) k ≡ v)
      × (get_value feq (map_put feq m k v) k' ≡ get_value feq m k')
unfolding get_value map_put get_by
get_value-map_put feq (map_val es) k v k' h d =
    (get_by-put_entry feq es k v h, get_by-put_other feq es k v k' d (d k h))
get_value-map_put feq m k v k' h d = (rw h refl, rw (d k h) refl)

pub key_value : Key → Value
key_value (atom_key s) = atom_val s
key_value (string_key s) = string_val s
key_value (int_key n) = int_val n
key_value other_key = fun_val 0

-- The comparison with a literal is equality with its value.
equals_key-equal :
    (feq : ℕ → ℕ → Bool) (v : Value) (k : Key) → equals_key v k ≡ equal feq v (key_value k)
unfolding equals_key equal equals_nil key_value
equals_key-equal feq nil_val (atom_key s) = refl
equals_key-equal feq (atom_val a) (atom_key s) = refl
equals_key-equal feq (string_val a) (string_key s) = refl
equals_key-equal feq (int_val n) (int_key m) = refl
equals_key-equal feq (float_val f) (atom_key s) = refl
equals_key-equal feq (float_val f) k = refl
equals_key-equal feq (pid_val p) (atom_key s) = refl
equals_key-equal feq (pid_val p) k = refl
equals_key-equal feq (tuple_val us) (atom_key s) = refl
equals_key-equal feq (tuple_val us) k = refl
equals_key-equal feq (list_val us) (atom_key s) = refl
equals_key-equal feq (list_val us) k = refl
equals_key-equal feq (fun_val f) (atom_key s) = refl
equals_key-equal feq (fun_val f) k = refl
equals_key-equal feq (map_val es) (atom_key s) = refl
equals_key-equal feq (map_val es) k = refl
equals_key-equal feq (int_val n) k = refl
equals_key-equal feq (string_val a) k = refl
equals_key-equal feq (atom_val a) k = refl
equals_key-equal feq (nil_val) k = refl

get_entry-get_by :
    (feq : ℕ → ℕ → Bool) (k : Key) (es : Entries)
    → get_entry k es ≡ get_by (λ q. equal feq q (key_value k)) es
unfolding get_entry get_by
get_entry-get_by feq k no_entries = refl
get_entry-get_by feq k (entries q u es) =
    rw (equals_key-equal feq q k, get_entry-get_by feq k es) refl

-- A look-up of a literal in a pattern is `sw_val_map_get` of its value.
pub map_get-get_value :
    (feq : ℕ → ℕ → Bool) (m : Value) (k : Key) → map_get k m ≡ get_value feq m (key_value k)
unfolding map_get get_value
map_get-get_value feq (map_val es) k = get_entry-get_by feq k es
map_get-get_value feq m k = refl
