-- ===== src/Printf/Plain.antt =====
-- Texts without a quote, a backslash or a control character, which can stand in a JSON string and on one
-- line, and the lines that are made of them.
use local_ai_perf_analysis.Prelude.{
  ℕ, zero, suc, ◌-◌, ℤ, pos, negsuc, Bool, true, false, [], ◌++◌, ◌≡◌, refl, ap, ◌∙◌, sym,
  append_assoc, Bytes, codes, if◌then◌else◌, All, All-append, arith, length,
}
use local_ai_perf_analysis.Json.Runs.{IsPlain}
use local_ai_perf_analysis.Printf.{show_dec, show_hex, show_int, repeat, pad_right, zero_padded}
use local_ai_perf_analysis.Printf.Decimal.{show_dec-IsPlain, show_hex-IsPlain}

-- Such a text, as a record, so that a conditional text is read off its type.
pub record PlainText (l : Bytes) : Type 0 where
  pub plain : All IsPlain l

pub if-PlainText :
    (b : Bool) (x y : Bytes) → PlainText x → PlainText y → PlainText (if b then x else y)
if-PlainText true x y h k = h
if-PlainText false x y h k = k

pub append-PlainText : {x y : Bytes} → PlainText x → PlainText y → PlainText (x ++ y)
append-PlainText {x} {y} h k = record { plain = All-append IsPlain x y h.plain k.plain }

pub show_dec-PlainText : (n : ℕ) → PlainText (show_dec n)
show_dec-PlainText n = record { plain = show_dec-IsPlain n }

pub show_hex-PlainText : (n : ℕ) → PlainText (show_hex n)
show_hex-PlainText n = record { plain = show_hex-IsPlain n }

pub show_int-PlainText : (n : ℤ) → PlainText (show_int n)
unfolding show_int
show_int-PlainText (pos n) = show_dec-PlainText n
show_int-PlainText (negsuc n) = record { plain = (omega arith, show_dec-IsPlain (suc n)) }

repeat-IsPlain : (n c : ℕ) → IsPlain c → All IsPlain (repeat n c)
unfolding repeat
repeat-IsPlain zero c h = tt
repeat-IsPlain (suc n) c h = (h, repeat-IsPlain n c h)

pub pad_right-PlainText : (width : ℕ) (x : Bytes) → PlainText x → PlainText (pad_right width x)
unfolding pad_right
pad_right-PlainText width x h =
    append-PlainText h (record { plain = repeat-IsPlain (width - length x) b' ' (omega arith) })

pub zero_padded-PlainText : (width n : ℕ) → PlainText (zero_padded width n)
unfolding zero_padded
zero_padded-PlainText width n =
    append-PlainText
      (record { plain = repeat-IsPlain (width - length (show_dec n)) b'0' (omega arith) })
      (show_dec-PlainText n)

-- A plain text and a newline behind it.
pub record IsLine (l : Bytes) : Type 0 where
  pub body : Bytes
  pub ends : l ≡ body ++ codes "\n"
  pub plain : All IsPlain body

pub newline-IsLine : IsLine (codes "\n")
newline-IsLine = record { body = []; ends = refl; plain = tt }

pub append-IsLine : {x y : Bytes} → PlainText x → IsLine y → IsLine (x ++ y)
append-IsLine {x} {y} h k = record {
  body = x ++ k.body;
  ends = ap (λ z. x ++ z) k.ends ∙ sym (append_assoc x k.body (codes "\n"));
  plain = All-append IsPlain x k.body h.plain k.plain;
}
