-- ===== src/Eval/Messages/Laws.antt =====
-- What the messages of the evaluator in src/swarmrt_lang.c keep.
use swarmrt.Base.{ℕ, zero, suc, ◌≤◌, ◌≡◌, refl, ap, [], ◌∷◌, arith, length, take, Bytes}
use swarmrt.Values.{
  Value, nil_val, int_val, float_val, string_val, atom_val, pid_val, tuple_val, list_val, fun_val,
  map_val,
}
use swarmrt.Eval.Messages.{serialize_val, deserialize_val}

-- Nil, numbers, and texts of at most 127 bytes.
unfoldable pub IsFlat : Value → Type 0
IsFlat nil_val = Unit
IsFlat (int_val n) = Unit
IsFlat (float_val f) = Unit
IsFlat (string_val s) = length s ≤ 127
IsFlat (atom_val s) = length s ≤ 127
IsFlat v = ⊥

take-all : (n : ℕ) (s : Bytes) → length s ≤ n → take n s ≡ s
take-all zero [] h = refl
take-all zero (c ∷ s) h = absurd (omega (arith, h))
take-all (suc n) [] h = refl
take-all (suc n) (c ∷ s) h = ap (λ t. c ∷ t) (take-all n s (omega (arith, h)))

-- Nil, an integer, a float, and a text or an atom of at most 127 bytes arrive as they were sent.
pub deserialize_val-serialize_val : (v : Value) → IsFlat v → deserialize_val (serialize_val v) ≡ v
unfolding IsFlat serialize_val deserialize_val
deserialize_val-serialize_val nil_val h = refl
deserialize_val-serialize_val (int_val n) h = refl
deserialize_val-serialize_val (float_val f) h = refl
deserialize_val-serialize_val (string_val s) h = ap string_val (take-all 127 s h)
deserialize_val-serialize_val (atom_val s) h = ap atom_val (take-all 127 s h)
deserialize_val-serialize_val (pid_val p) h = absurd h
deserialize_val-serialize_val (tuple_val vs) h = absurd h
deserialize_val-serialize_val (list_val vs) h = absurd h
deserialize_val-serialize_val (fun_val f) h = absurd h
deserialize_val-serialize_val (map_val es) h = absurd h
