-- ===== src/Eval/Messages.antt =====
-- What a message of the evaluator in src/swarmrt_lang.c carries (`sw_msg_val_t`, `serialize_val`,
-- `deserialize_val`).
pub mod Laws
use swarmrt.Base.{ℕ, [], if◌then◌else◌, ◌==◌, take, Bytes}
use swarmrt.Values.{
  Value, nil_val, int_val, float_val, string_val, atom_val, pid_val, tuple_val, list_val, fun_val,
  map_val, count_values,
}

-- `sw_val_type_t`, by its number.
unfoldable pub type_of : Value → ℕ
type_of nil_val = 0
type_of (int_val n) = 1
type_of (float_val f) = 2
type_of (string_val s) = 3
type_of (atom_val s) = 4
type_of (pid_val p) = 5
type_of (tuple_val vs) = 6
type_of (list_val vs) = 7
type_of (fun_val f) = 8
type_of (map_val es) = 9

-- `sw_msg_val_t`, without the padding behind the text.
pub record Wire : Type 0 where
  pub type : ℕ
  pub ival : ℕ
  pub fval : ℕ
  pub count : ℕ
  pub sval : Bytes

-- The `calloc` of `serialize_val`, with a type.
abbrev pub blank : ℕ → Wire
blank t = record { type = t; ival = 0; fval = 0; count = 0; sval = [] }

-- `serialize_val`
unfoldable pub serialize_val : Value → Wire
unfolding type_of count_values
serialize_val (int_val n) = record (blank (type_of (int_val n))) { ival = n }
serialize_val (float_val f) = record (blank (type_of (float_val f))) { fval = f }
serialize_val (string_val s) = record (blank (type_of (string_val s))) { sval = take 127 s }
serialize_val (atom_val s) = record (blank (type_of (atom_val s))) { sval = take 127 s }
serialize_val (tuple_val vs) = record (blank (type_of (tuple_val vs))) { count = count_values vs }
serialize_val (list_val vs) = record (blank (type_of (list_val vs))) { count = count_values vs }
serialize_val v = blank (type_of v)

-- `deserialize_val`
unfoldable pub deserialize_val : Wire → Value
deserialize_val m =
    if m.type == 1
    then int_val m.ival
    else if m.type == 2
    then float_val m.fval
    else if m.type == 3
    then string_val m.sval
    else if m.type == 4
    then atom_val m.sval
    else nil_val
