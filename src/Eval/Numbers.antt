-- ===== src/Eval/Numbers.antt =====
-- The 64-bit integers of the evaluator in src/swarmrt_lang.c, by their bits. Where the overflow of
-- `int64_t` is not defined, it wraps here.
use swarmrt.Base.{ℕ, ◌+◌, ◌-◌, ◌*◌, ◌/◌, ◌%◌, ◌^◌, Bool, if◌then◌else◌, ltb, leb}

abbrev pub two_64 : ℕ
two_64 = 2 ^ 64

abbrev pub is_negative : ℕ → Bool
is_negative a = leb (2 ^ 63) a

unfoldable pub add_int : ℕ → ℕ → ℕ
add_int a b = (a + b) % two_64

unfoldable pub neg_int : ℕ → ℕ
neg_int a = (two_64 - a) % two_64

unfoldable pub sub_int : ℕ → ℕ → ℕ
sub_int a b = (a + (two_64 - b)) % two_64

unfoldable pub mul_int : ℕ → ℕ → ℕ
mul_int a b = (a * b) % two_64

unfoldable pub abs_int : ℕ → ℕ
unfolding neg_int
abs_int a = if is_negative a then neg_int a else a

-- The division towards zero, where the divisor is not 0.
unfoldable pub div_int : ℕ → ℕ → ℕ
unfolding neg_int abs_int
div_int a b =
    let q = abs_int a / abs_int b in
    if is_negative a
    then (if is_negative b then q % two_64 else neg_int q)
    else if is_negative b
    then neg_int q
    else q

-- a < b
unfoldable pub less_int : ℕ → ℕ → Bool
less_int a b = ltb ((a + 2 ^ 63) % two_64) ((b + 2 ^ 63) % two_64)
