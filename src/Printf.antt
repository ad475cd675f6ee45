-- ===== src/Printf.antt =====
-- printf of the C library, as far as the tools use it: %u, %d, %llu, %llx and %04x. Floating-point
-- conversions are a parameter (`FloatPrint`).
pub mod Decimal
pub mod Plain
use local_ai_perf_analysis.Prelude.{
  ℕ, zero, suc, ℤ, pos, negsuc, [], ◌∷◌, ◌+◌, ◌-◌, ◌/◌, ◌%◌, Bytes, ltb, if◌then◌else◌, All, ◌++◌,
  length,
}
use local_ai_perf_analysis.Json.Runs.{IsNumber, IsPlain}

unfoldable pub digit : ℕ → ℕ
digit d = if ltb d 10 then b'0' + d else b'a' + (d - 10)

-- The digits of n in the base, in front of `out`, at most `fuel` of them.
unfoldable pub digits : ℕ → ℕ → ℕ → Bytes → Bytes
digits base zero n out = out
digits base (suc fuel) n out =
    let more = digits base fuel (n / base) (digit (n % base) ∷ out) in
    if ltb n base then digit n ∷ out else more

-- %u and %llu. A number has at most as many digits as its value and one more, so the fuel is enough.
unfoldable pub show_dec : ℕ → Bytes
unfolding digits digit
show_dec n = digits 10 (suc n) n []

-- %llx.
unfoldable pub show_hex : ℕ → Bytes
unfolding digits digit
show_hex n = digits 16 (suc n) n []

-- %d.
unfoldable pub show_int : ℤ → Bytes
unfolding show_dec
show_int (pos n) = show_dec n
show_int (negsuc n) = b'-' ∷ show_dec (suc n)

-- %04x of a number below 65536.
abbrev pub hex4 : ℕ → Bytes
hex4 c = digit (c / 4096 % 16) ∷ digit (c / 256 % 16) ∷ digit (c / 16 % 16) ∷ digit (c % 16) ∷ []

unfoldable pub repeat : ℕ → ℕ → Bytes
repeat zero c = []
repeat (suc n) c = c ∷ repeat n c

-- A conversion with the flag `-` and a width, and one with the flag `0`.
unfoldable pub pad_right : ℕ → Bytes → Bytes
unfolding repeat
pad_right width x = x ++ repeat (width - length x) b' '

unfoldable pub zero_padded : ℕ → ℕ → Bytes
unfolding repeat
zero_padded width n = repeat (width - length (show_dec n)) b'0' ++ show_dec n

-- What the conversions of a `double` print: n / 1000.0 by %.3f, and n / unit by %.2f. The first
-- is a JSON number (digits, a point, digits), the second has no byte that a string escapes.
pub record FloatPrint : Type 0 where
  pub fixed3 : ℕ → Bytes
  pub fixed2 : ℕ → ℕ → Bytes
  pub fixed3-IsNumber : (n : ℕ) → IsNumber (fixed3 n)
  pub fixed2-IsPlain : (n unit : ℕ) → All IsPlain (fixed2 n unit)
