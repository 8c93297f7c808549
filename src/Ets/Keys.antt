-- ===== src/Ets/Keys.antt =====
-- Equality of keys: what a key stands for, and that equal keys have equal hashes.
use swarmrt.Base.{
  ℕ, ◌≡◌, refl, sym, ap, ◌∙◌, ◌⊎◌, inl, inr, true, none, some, ◌==◌, arith, Bool-cases, ==_refl,
  ==_iff, Bytes, bytes_eq_refl, bytes_eq_sound,
}
use mathlib.Core.Bool.{false≢true}
use swarmrt.Ets.{
  Val, null, int, float, string, atom, other, Floats, val_eq, raw_hash, mix, key_eq, hash_key,
  text_eq, fnv64,
}

-- What a key is compared by: its value, or else its address.
pub data Name : Type 0 where
  number : ℕ → Name
  text_name : Bytes → Name
  atom_name : Bytes → Name
  place : ℕ → Name

unfoldable pub name_of : ℕ → Val → Name
name_of addr (int i) = number i
name_of addr (string (some s)) = text_name s
name_of addr (atom (some s)) = atom_name s
name_of addr v = place addr

-- A value that is no float.
unfoldable pub IsExact : Val → Type 0
IsExact (float f) = ⊥
IsExact v = Unit

val_eq-name :
    (fl : Floats) (a b : ℕ) (v w : Val)
    → IsExact w
    → val_eq fl v w ≡ true
    → name_of a v ≡ name_of b w
unfolding val_eq name_of IsExact text_eq
val_eq-name fl a b (int i) (int j) h e = ap number ((==_iff i j).0 e)
val_eq-name fl a b (float f) (float g) h e = absurd h
val_eq-name fl a b (string (some s)) (string (some t)) h e = ap text_name (bytes_eq_sound s t e)
val_eq-name fl a b (atom (some s)) (atom (some t)) h e = ap atom_name (bytes_eq_sound s t e)
val_eq-name fl a b (string none) (string t) h e = absurd (cc)
val_eq-name fl a b (atom none) (atom t) h e = absurd (cc)
val_eq-name fl a b _ _ h e = absurd (cc)

name-val_eq :
    (fl : Floats) (a b : ℕ) (v w : Val)
    → name_of a v ≡ name_of b w
    → (val_eq fl v w ≡ true) ⊎ (a ≡ b)
unfolding val_eq name_of text_eq
name-val_eq fl a b (int i) (int j) e = inl (let q : i ≡ j = cc in rw q (==_refl j))
name-val_eq fl a b (string (some s)) (string (some t)) e =
    inl (let q : s ≡ t = cc in rw q (bytes_eq_refl t))
name-val_eq fl a b (atom (some s)) (atom (some t)) e =
    inl (let q : s ≡ t = cc in rw q (bytes_eq_refl t))
name-val_eq fl a b (string none) (string none) e = inr (cc)
name-val_eq fl a b (atom none) (atom none) e = inr (cc)
name-val_eq fl a b null null e = inr (cc)
name-val_eq fl a b (float f) (float g) e = inr (cc)
name-val_eq fl a b (other t) (other u) e = inr (cc)
name-val_eq fl a b _ (string none) e = inr (cc)
name-val_eq fl a b _ (atom none) e = inr (cc)
name-val_eq fl a b (string none) _ e = inr (cc)
name-val_eq fl a b (atom none) _ e = inr (cc)
name-val_eq fl a b _ _ e = inr (cc)

-- What is hashed is what a key is compared by, but for floats.
unfoldable hash_of : Name → ℕ
hash_of (number i) = i
hash_of (text_name s) = fnv64 14695981039346656037 s
hash_of (atom_name s) = fnv64 14695981039346656037 s
hash_of (place a) = a

raw_hash-name : (a : ℕ) (v : Val) → raw_hash a v ≡ hash_of (name_of a v)
unfolding raw_hash name_of hash_of
raw_hash-name a (string (some s)) = refl
raw_hash-name a (atom (some s)) = refl
raw_hash-name a _ = refl

module _ (fl : Floats) (mem : ℕ → Val) where
  abbrev pub name : ℕ → Name
  name a = name_of a (mem a)

  pub key_eq-name : (a b : ℕ) → IsExact (mem b) → key_eq fl mem a b ≡ true → name a ≡ name b
  unfolding key_eq
  key_eq-name a b h e = elim (Bool-cases (a == b)) [
    | inl q ↦ let same : a ≡ b = (==_iff a b).0 q in rw same refl
    | inr q ↦ val_eq-name fl a b (mem a) (mem b) h (rw (q, key_eq) at e)
  ]

  pub name-key_eq : (a b : ℕ) → name a ≡ name b → key_eq fl mem a b ≡ true
  unfolding key_eq
  name-key_eq a b e = elim (Bool-cases (a == b)) [
    | inl q ↦ rw (q, key_eq) refl
    | inr q ↦
        rw (q, key_eq)
          (elim (name-val_eq fl a b (mem a) (mem b) e) [
            | inl same ↦ same
            | inr same ↦ absurd (ground (arith, same, q))
          ])
  ]

  -- Keys that are equal lie in one bucket, if they are no floats.
  pub key_eq-hash_key :
      (a b : ℕ) → IsExact (mem b) → key_eq fl mem a b ≡ true → hash_key fl mem a ≡ hash_key fl mem b
  unfolding hash_key
  key_eq-hash_key a b h e =
      ap mix (
        raw_hash-name a (mem a)
        ∙ (ap hash_of (key_eq-name a b h e) ∙ sym (raw_hash-name b (mem b))))

  -- Two keys that are each equal to a third, which is no float, are equal, and the other way round.
  pub key_eq-key_eq :
      (a b c : ℕ)
      → IsExact (mem b)
      → IsExact (mem c)
      → key_eq fl mem a b ≡ true
      → key_eq fl mem a c ≡ key_eq fl mem b c
  key_eq-key_eq a b c h k e = elim (Bool-cases (key_eq fl mem a c)) [
    | inl x ↦ x ∙ sym (name-key_eq b c (sym (key_eq-name a b h e) ∙ key_eq-name a c k x))
    | inr x ↦ elim (Bool-cases (key_eq fl mem b c)) [
      | inl y ↦
          absurd (false≢true (sym x ∙ name-key_eq a c (key_eq-name a b h e ∙ key_eq-name b c k y)))
      | inr y ↦ x ∙ sym y
    ]
  ]
