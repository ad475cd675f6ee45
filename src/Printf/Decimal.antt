-- ===== src/Printf/Decimal.antt =====
-- The printed numbers, read back and as JSON.
use local_ai_perf_analysis.Prelude.{
  ℕ, zero, suc, ℤ, pos, negsuc, List, [], ◌∷◌, ◌≡◌, refl, arith, ◌+◌, ◌-◌, ◌*◌, ◌/◌, ◌%◌, ◌<◌,
  Bytes, ltb, All, inl, inr, Bool-cases, ltb→lt, ap, ◌∙◌,
}
use local_ai_perf_analysis.Json.{Frame, value, nought, int, minus, step, run}
use local_ai_perf_analysis.Json.Runs.{IsNumber, IsPlain}
use local_ai_perf_analysis.Printf.{digits, show_dec, show_hex, show_int, digit}

-- The number that decimal digits spell behind `n`.
abbrev pub dec_value : ℕ → Bytes → ℕ
dec_value n [] = n
dec_value n (c ∷ l) = dec_value (n * 10 + (c - b'0')) l

digit_value_first : (n : ℕ) → n < 10 → 0 * 10 + (digit n - b'0') ≡ n
unfolding digit
digit_value_first n h = ground arith

digit_value_next : (n : ℕ) → n / 10 * 10 + (digit (n % 10) - b'0') ≡ n
unfolding digit
digit_value_next n = ground arith

dec_value-digits :
    (fuel n : ℕ) (out : Bytes) → n < fuel → dec_value 0 (digits 10 fuel n out) ≡ dec_value n out
unfolding digits
dec_value-digits zero n out h = elim h [ ]
dec_value-digits (suc fuel) n out h = elim (Bool-cases (ltb n 10)) [
  | inl small ↦
      let e = digit_value_first n (ltb→lt n 10 small) in rw small (ap (λ v. dec_value v out) e)
  | inr big ↦
      let e = digit_value_next n in
      rw big (
        dec_value-digits fuel (n / 10) (digit (n % 10) ∷ out) (ground arith)
        ∙ ap (λ v. dec_value v out) e)
]

-- What %u and %llu print reads back as the number.
pub dec_value-show_dec : (n : ℕ) → dec_value 0 (show_dec n) ≡ n
unfolding show_dec
dec_value-show_dec n = dec_value-digits (suc n) n [] (omega arith)

step_first : (s : List Frame) (n : ℕ) → 0 < n → n < 10 → step (s, value) (digit n) ≡ (s, int)
unfolding digit
step_first s n h k = ground arith

step_next : (s : List Frame) (n : ℕ) → step (s, int) (digit (n % 10)) ≡ (s, int)
unfolding digit
step_next s n = ground arith

run-digits :
    (s : List Frame) (fuel n : ℕ) (out : Bytes)
    → n < fuel
    → 0 < n
    → run (s, value) (digits 10 fuel n out) ≡ run (s, int) out
unfolding digits
run-digits s zero n out h p = elim h [ ]
run-digits s (suc fuel) n out h p = elim (Bool-cases (ltb n 10)) [
  | inl small ↦ rw small (ap (λ q. run q out) (step_first s n p (ltb→lt n 10 small)))
  | inr big ↦ rw big (
      run-digits s fuel (n / 10) (digit (n % 10) ∷ out) (ground arith) (ground arith)
      ∙ ap (λ q. run q out) (step_next s n))
]

pub run-show_dec_pos : (s : List Frame) (n : ℕ) → run (s, value) (show_dec (suc n)) ≡ (s, int)
unfolding show_dec
run-show_dec_pos s n = run-digits s (suc (suc n)) (suc n) [] (omega arith) (omega arith)

-- What %u, %llu and %d print is a JSON number: no leading zero, at least one digit.
pub show_dec-IsNumber : (n : ℕ) → IsNumber (show_dec n)
show_dec-IsNumber zero s = unfold show_dec in (nought, refl, refl)
show_dec-IsNumber (suc n) s = (int, run-show_dec_pos s n, refl)

step_minus : (s : List Frame) (n : ℕ) → 0 < n → n < 10 → step (s, minus) (digit n) ≡ (s, int)
unfolding digit
step_minus s n h k = ground arith

run-digits_minus :
    (s : List Frame) (fuel n : ℕ) (out : Bytes)
    → n < fuel
    → 0 < n
    → run (s, minus) (digits 10 fuel n out) ≡ run (s, int) out
unfolding digits
run-digits_minus s zero n out h p = elim h [ ]
run-digits_minus s (suc fuel) n out h p = elim (Bool-cases (ltb n 10)) [
  | inl small ↦ rw small (ap (λ q. run q out) (step_minus s n p (ltb→lt n 10 small)))
  | inr big ↦ rw big (
      run-digits_minus s fuel (n / 10) (digit (n % 10) ∷ out) (ground arith) (ground arith)
      ∙ ap (λ q. run q out) (step_next s n))
]

pub show_int-IsNumber : (n : ℤ) → IsNumber (show_int n)
unfolding show_int
show_int-IsNumber (pos n) s = show_dec-IsNumber n s
show_int-IsNumber (negsuc n) s = (
  int,
  unfold show_dec in run-digits_minus s (suc (suc n)) (suc n) [] (omega arith) (omega arith),
  refl,
)

-- What a string may hold as it stands.
digit-IsPlain : (d : ℕ) → d < 16 → IsPlain (digit d)
unfolding digit
digit-IsPlain d h = ground arith

digits-IsPlain : (fuel n : ℕ) (out : Bytes) → All IsPlain out → All IsPlain (digits 16 fuel n out)
unfolding digits
digits-IsPlain zero n out h = h
digits-IsPlain (suc fuel) n out h = elim (Bool-cases (ltb n 16)) [
  | inl small ↦ rw small (digit-IsPlain n (ltb→lt n 16 small), h)
  | inr big ↦ rw big (
      digits-IsPlain fuel (n / 16) (digit (n % 16) ∷ out) (digit-IsPlain (n % 16) (omega arith), h))
]

pub show_hex-IsPlain : (n : ℕ) → All IsPlain (show_hex n)
unfolding show_hex
show_hex-IsPlain n = digits-IsPlain (suc n) n [] tt

digits_dec-IsPlain :
    (fuel n : ℕ) (out : Bytes) → All IsPlain out → All IsPlain (digits 10 fuel n out)
unfolding digits
digits_dec-IsPlain zero n out h = h
digits_dec-IsPlain (suc fuel) n out h = elim (Bool-cases (ltb n 10)) [
  | inl small ↦ let below = ltb→lt n 10 small in rw small (digit-IsPlain n (omega arith), h)
  | inr big ↦ rw big (
      digits_dec-IsPlain fuel (n / 10) (digit (n % 10) ∷ out)
        (digit-IsPlain (n % 10) (omega arith), h))
]

pub show_dec-IsPlain : (n : ℕ) → All IsPlain (show_dec n)
unfolding show_dec
show_dec-IsPlain n = digits_dec-IsPlain (suc n) n [] tt
