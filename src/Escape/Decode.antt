-- ===== src/Escape/Decode.antt =====
-- A reader of the characters of a JSON string, written from RFC 8259: what json_escape is proved
-- against. A code unit below 256 stands for the byte of that value.
use local_ai_perf_analysis.Prelude.{
  ℕ, zero, suc, [], ◌∷◌, ◌++◌, ◌+◌, ◌-◌, ◌*◌, ◌||◌, Option, none, some, Bytes, ltb, leb, ◌==◌,
  if◌then◌else◌, ◌≡◌, refl,
}
use local_ai_perf_analysis.Json.{is_digit, is_hex}

-- What has been read, and whether the reader is inside an escape.
pub data Reading : Type 0 where
  plain slash : Bytes → Reading
  hex : ℕ → ℕ → Bytes → Reading
  refused : Reading

abbrev pub hex_value : ℕ → ℕ
hex_value c = if is_digit c then c - 48 else if leb 97 c then c - 87 else c - 55

-- The character after a backslash, for the short escapes.
abbrev pub short_escape : ℕ → Option ℕ
short_escape c =
    if c == b'"' || (c == b'\\' || c == b'/')
    then some c
    else if c == b'b'
    then some 8
    else if c == b'f'
    then some 12
    else if c == b'n'
    then some 10
    else if c == b'r'
    then some 13
    else if c == b't'
    then some 9
    else none

unfoldable pub read_step : Reading → ℕ → Reading
read_step (plain out) c =
    if c == b'\\'
    then slash out
    else if c == b'"' || ltb c 32
    then refused
    else plain (out ++ c ∷ [])
read_step (slash out) c =
    if c == b'u'
    then hex 3 0 out
    else elim (short_escape c) [ some d ↦ plain (out ++ d ∷ []) | none ↦ refused ]
read_step (hex zero v out) c =
    if is_hex c then plain (out ++ (v * 16 + hex_value c) ∷ []) else refused
read_step (hex (suc n) v out) c = if is_hex c then hex n (v * 16 + hex_value c) out else refused
read_step refused c = refused

unfoldable pub read : Reading → Bytes → Reading
read r [] = r
read r (c ∷ l) = read (read_step r c) l

pub read-append : (r : Reading) (x y : Bytes) → read r (x ++ y) ≡ read (read r x) y
unfolding read
read-append r [] y = refl
read-append r (c ∷ x) y = read-append (read_step r c) x y
