-- ===== src/Equality/Sides.antt =====
-- The two orders of the arguments of `sw_val_equal`.
use swarmrt.Base.{ℕ, ◌≡◌, refl, sym, ap, ap₂, ◌∙◌, inl, inr, Bool, ◌&&◌, ◌==◌, Bool-cases}
use swarmrt.Values.{
  Value, nil_val, int_val, float_val, string_val, atom_val, pid_val, tuple_val, list_val, fun_val,
  map_val, Values, no_values, values, Entries, no_entries, entries, count_values,
}
use swarmrt.Equality.{
  equal, equal_items, equal_entries, flipped, flipped_items, flipped_found, equals_nil, get_by,
  all_entries, count_entries,
}

equal-nil : (feq : ℕ → ℕ → Bool) (b : Value) → equals_nil b ≡ equal feq b nil_val
unfolding equal equals_nil
equal-nil feq nil_val = refl
equal-nil feq b = refl

flipped-nil : (feq : ℕ → ℕ → Bool) (b : Value) → equals_nil b ≡ flipped feq b nil_val
unfolding flipped equals_nil
flipped-nil feq nil_val = refl
flipped-nil feq b = refl

all_entries-equal :
    (feq : ℕ → ℕ → Bool) (es bs : Entries)
    → ((k v : Value) → flipped_found feq es k v ≡ equal feq v (get_by (λ q. flipped feq k q) es))
    → all_entries (λ k v. flipped_found feq es k v) bs ≡ equal_entries feq bs es
unfolding all_entries equal_entries
all_entries-equal feq es no_entries h = refl
all_entries-equal feq es (entries k v bs) h = rw (h k v, all_entries-equal feq es bs h) refl

found-flipped :
    (feq : ℕ → ℕ → Bool) (bs : Entries) (k v : Value)
    → ((q : Value) → flipped feq k q ≡ equal feq q k)
    → ((u : Value) → equal feq v u ≡ flipped feq u v)
    → equal feq v (get_by (λ q. flipped feq k q) bs) ≡ flipped_found feq bs k v
unfolding get_by flipped_found
found-flipped feq no_entries k v h g = sym (equal-nil feq v)
found-flipped feq (entries q u bs) k v h g = elim (Bool-cases (equal feq q k)) [
  | inl e ↦ rw (e, flipped_found) (rw (h q ∙ e) (g u))
  | inr e ↦ rw (e, flipped_found) (rw (h q ∙ e) (found-flipped feq bs k v h g))
]

mutual
  unfolding equal equal_items equal_entries flipped flipped_items flipped_found get_by all_entries

  flipped-equal : (feq : ℕ → ℕ → Bool) (a b : Value) → flipped feq a b ≡ equal feq b a
  flipped-equal feq nil_val b = equal-nil feq b
  flipped-equal feq (int_val n) (int_val m) = refl
  flipped-equal feq (int_val n) b = refl
  flipped-equal feq (float_val f) (float_val g) = refl
  flipped-equal feq (float_val f) b = refl
  flipped-equal feq (string_val s) (string_val t) = refl
  flipped-equal feq (string_val s) b = refl
  flipped-equal feq (atom_val s) (atom_val t) = refl
  flipped-equal feq (atom_val s) nil_val = refl
  flipped-equal feq (atom_val s) b = refl
  flipped-equal feq (pid_val p) (pid_val q) = refl
  flipped-equal feq (pid_val p) b = refl
  flipped-equal feq (tuple_val us) (tuple_val vs) =
      ap (λ t. count_values vs == count_values us && t) (flipped_items-equal feq us vs)
  flipped-equal feq (tuple_val us) b = refl
  flipped-equal feq (list_val us) (list_val vs) =
      ap (λ t. count_values vs == count_values us && t) (flipped_items-equal feq us vs)
  flipped-equal feq (list_val us) b = refl
  flipped-equal feq (fun_val f) (fun_val g) = refl
  flipped-equal feq (fun_val f) b = refl
  flipped-equal feq (map_val es) (map_val bs) =
      ap (λ t. count_entries bs == count_entries es && t)
        (all_entries-equal feq es bs (λ k v. found-equal feq es k v))
  flipped-equal feq (map_val es) b = refl

  flipped_items-equal :
      (feq : ℕ → ℕ → Bool) (us vs : Values) → flipped_items feq us vs ≡ equal_items feq vs us
  flipped_items-equal feq (values u us) (values v vs) =
      ap₂ (λ s t. s && t) (flipped-equal feq u v) (flipped_items-equal feq us vs)
  flipped_items-equal feq (values u us) no_values = refl
  flipped_items-equal feq no_values (values v vs) = refl
  flipped_items-equal feq no_values no_values = refl

  found-equal :
      (feq : ℕ → ℕ → Bool) (es : Entries) (k v : Value)
      → flipped_found feq es k v ≡ equal feq v (get_by (λ q. flipped feq k q) es)
  found-equal feq no_entries k v = equal-nil feq v
  found-equal feq (entries q u es) k v = elim (Bool-cases (equal feq q k)) [
    | inl e ↦ rw (e, flipped_found) (rw (sym (equal-flipped feq q k) ∙ e) (flipped-equal feq u v))
    | inr e ↦ rw (e, flipped_found) (rw (sym (equal-flipped feq q k) ∙ e) (found-equal feq es k v))
  ]

  equal-flipped : (feq : ℕ → ℕ → Bool) (a b : Value) → equal feq a b ≡ flipped feq b a
  equal-flipped feq nil_val b = flipped-nil feq b
  equal-flipped feq (int_val n) (int_val m) = refl
  equal-flipped feq (int_val n) b = refl
  equal-flipped feq (float_val f) (float_val g) = refl
  equal-flipped feq (float_val f) b = refl
  equal-flipped feq (string_val s) (string_val t) = refl
  equal-flipped feq (string_val s) b = refl
  equal-flipped feq (atom_val s) (atom_val t) = refl
  equal-flipped feq (atom_val s) nil_val = refl
  equal-flipped feq (atom_val s) b = refl
  equal-flipped feq (pid_val p) (pid_val q) = refl
  equal-flipped feq (pid_val p) b = refl
  equal-flipped feq (tuple_val us) (tuple_val vs) =
      ap (λ t. count_values us == count_values vs && t) (equal_items-flipped feq us vs)
  equal-flipped feq (tuple_val us) b = refl
  equal-flipped feq (list_val us) (list_val vs) =
      ap (λ t. count_values us == count_values vs && t) (equal_items-flipped feq us vs)
  equal-flipped feq (list_val us) b = refl
  equal-flipped feq (fun_val f) (fun_val g) = refl
  equal-flipped feq (fun_val f) b = refl
  equal-flipped feq (map_val es) (map_val bs) =
      ap (λ t. count_entries es == count_entries bs && t) (equal_entries-flipped feq es bs)
  equal-flipped feq (map_val es) b = refl

  equal_items-flipped :
      (feq : ℕ → ℕ → Bool) (us vs : Values) → equal_items feq us vs ≡ flipped_items feq vs us
  equal_items-flipped feq (values u us) (values v vs) =
      ap₂ (λ s t. s && t) (equal-flipped feq u v) (equal_items-flipped feq us vs)
  equal_items-flipped feq (values u us) no_values = refl
  equal_items-flipped feq no_values (values v vs) = refl
  equal_items-flipped feq no_values no_values = refl

  equal_entries-flipped :
      (feq : ℕ → ℕ → Bool) (es bs : Entries)
      → equal_entries feq es bs ≡ all_entries (λ k v. flipped_found feq bs k v) es
  equal_entries-flipped feq no_entries bs = refl
  equal_entries-flipped feq (entries k v es) bs =
      ap₂ (λ s t. s && t)
        (found-flipped feq bs k v (λ q. flipped-equal feq k q) (λ u. equal-flipped feq v u))
        (equal_entries-flipped feq es bs)

-- A look-up in a map compares the keys in the order of `sw_val_equal` whichever function it uses.
pub flipped-IsEqual : (feq : ℕ → ℕ → Bool) (a b : Value) → flipped feq a b ≡ equal feq b a
flipped-IsEqual feq a b = flipped-equal feq a b
