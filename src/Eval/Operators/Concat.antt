-- ===== src/Eval/Operators/Concat.antt =====
-- The operator `++` of the evaluator in src/swarmrt_lang.c and its buffer.
use swarmrt.Base.{
  ℕ, zero, suc, ◌+◌, ◌-◌, ◌≤◌, ◌≡◌, ◌↔◌, refl, ap, ◌∙◌, [], ◌∷◌, ◌++◌, none, some, if◌then◌else◌,
  ltb, arith, length, take, length-append, Bytes,
}
use swarmrt.Values.{int_val, string_val}
use swarmrt.Eval.Operators.{Host, buffer_size, left_text, with_right, as_string, concat}

take-append : (n : ℕ) (s t : Bytes) → take n s ++ take (n - length (take n s)) t ≡ take n (s ++ t)
take-append zero s t = refl
take-append (suc n) [] t = let all : suc n - 0 ≡ suc n = omega arith in ap (λ k. take k t) all
take-append (suc n) (c ∷ s) t =
    let less : suc n - suc (length (take n s)) ≡ n - length (take n s) = omega arith in
    ap (λ u. c ∷ (take n s ++ take u t)) less ∙ ap (λ u. c ∷ u) (take-append n s t)

fits :
    (s : Bytes)
    → (as_string (if ltb (length s) buffer_size then some s else none) ≡ none)
      ↔ (buffer_size ≤ length s)
unfolding as_string
fits s = ground arith

-- A text followed by a text is cut behind 4095 bytes. A text followed by an integer is written behind
-- the end of its buffer just when the text, cut behind 4095 bytes, and the digits of the integer have
-- 4096 bytes or more together.
pub concat_lem :
    (h : Host) (s t : Bytes) (n : ℕ)
    → (concat h (string_val s) (string_val t) ≡ some (string_val (take 4095 (s ++ t))))
      × ((concat h (string_val s) (int_val n) ≡ none)
          ↔ (buffer_size ≤ length (take 4095 s) + length (h.show_int n)))
unfolding concat left_text with_right as_string
concat_lem h s t n =
    let room : buffer_size - length (take 4095 s) - 1 ≡ 4095 - length (take 4095 s) = omega arith in
    let whole = length-append (take 4095 s) (h.show_int n) in
    (
      ap (λ k. some (string_val (take 4095 s ++ take k t))) room
          ∙ ap (λ u. some (string_val u)) (take-append 4095 s t),
      rw⁻¹ whole (fits (take 4095 s ++ h.show_int n)),
    )
