-- ===== src/Json.antt =====
-- A recogniser of JSON texts, byte by byte, against which the writer of the trace is proved: the
-- grammar of RFC 8259 without exponents in numbers, so that all it accepts is JSON. Bytes from 128 on
-- are accepted in strings as they stand.
pub mod Runs
use local_ai_perf_analysis.Prelude.{
  ℕ, zero, suc, Bool, true, false, List, [], ◌∷◌, ◌||◌, ◌&&◌, Bytes, codes, ltb, leb, ◌==◌,
  if◌then◌else◌,
}

-- What is open around the current place.
pub data Frame : Type 0 where
  object array : Frame

-- What may come next. A string knows whether it is a key; `slash` and `hex` are escapes in one, and
-- `word` holds the letters that are left of a literal name.
pub data Place : Type 0 where
  value first_value first_key next_key colon after bad : Place
  text slash : Bool → Place
  hex : Bool → ℕ → Place
  minus nought int dot frac : Place
  word : Bytes → Place

abbrev pub Config : Type 0
Config = List Frame × Place

abbrev pub is_space : ℕ → Bool
is_space c = c == 32 || (c == 10 || (c == 13 || c == 9))

abbrev pub is_digit : ℕ → Bool
is_digit c = leb 48 c && leb c 57

abbrev pub is_hex : ℕ → Bool
is_hex c = is_digit c || (leb 97 c && leb c 102 || leb 65 c && leb c 70)

-- A string that closes is followed by a colon if it was a key.
abbrev pub closed : Bool → Place
closed true = colon
closed false = after

abbrev pub close : Frame → List Frame → Config
close object (object ∷ s) = (s, after)
close array (array ∷ s) = (s, after)
close _ s = (s, bad)

abbrev pub comma : List Frame → Config
comma [] = ([], bad)
comma (object ∷ s) = (object ∷ s, next_key)
comma (array ∷ s) = (array ∷ s, value)

abbrev pub step_after : List Frame → ℕ → Config
step_after s c =
    if is_space c
    then (s, after)
    else if c == b','
    then comma s
    else if c == b'}'
    then close object s
    else if c == b']'
    then close array s
    else (s, bad)

abbrev pub step_value : List Frame → Place → ℕ → Config
step_value s here c =
    if is_space c
    then (s, here)
    else if c == b'"'
    then (s, text false)
    else if c == b'{'
    then (object ∷ s, first_key)
    else if c == b'['
    then (array ∷ s, first_value)
    else if c == b'-'
    then (s, minus)
    else if c == b'0'
    then (s, nought)
    else if is_digit c
    then (s, int)
    else if c == b't'
    then (s, word (codes "rue"))
    else if c == b'f'
    then (s, word (codes "alse"))
    else if c == b'n'
    then (s, word (codes "ull"))
    else (s, bad)

abbrev pub step_text : List Frame → Bool → ℕ → Config
step_text s k c =
    if c == b'"'
    then (s, closed k)
    else if c == b'\\'
    then (s, slash k)
    else if ltb c 32
    then (s, bad)
    else (s, text k)

abbrev pub is_escape : ℕ → Bool
is_escape c =
    c == b'"'
    || (c == b'\\'
        || (c == b'/' || (c == b'b' || (c == b'f' || (c == b'n' || (c == b'r' || c == b't'))))))

abbrev pub step : Config → ℕ → Config
step (s, value) c = step_value s value c
step (s, first_value) c = if c == b']' then close array s else step_value s first_value c
step (s, first_key) c =
    if is_space c
    then (s, first_key)
    else if c == b'"'
    then (s, text true)
    else if c == b'}'
    then close object s
    else (s, bad)
step (s, next_key) c =
    if is_space c then (s, next_key) else if c == b'"' then (s, text true) else (s, bad)
step (s, colon) c = if is_space c then (s, colon) else if c == b':' then (s, value) else (s, bad)
step (s, after) c = step_after s c
step (s, bad) c = (s, bad)
step (s, text k) c = step_text s k c
step (s, slash k) c =
    if is_escape c then (s, text k) else if c == b'u' then (s, hex k 3) else (s, bad)
step (s, hex k zero) c = if is_hex c then (s, text k) else (s, bad)
step (s, hex k (suc n)) c = if is_hex c then (s, hex k n) else (s, bad)
step (s, minus) c = if c == b'0' then (s, nought) else if is_digit c then (s, int) else (s, bad)
step (s, nought) c = if c == b'.' then (s, dot) else step_after s c
step (s, int) c = if is_digit c then (s, int) else if c == b'.' then (s, dot) else step_after s c
step (s, dot) c = if is_digit c then (s, frac) else (s, bad)
step (s, frac) c = if is_digit c then (s, frac) else step_after s c
step (s, word []) c = (s, bad)
step (s, word (d ∷ [])) c = if c == d then (s, after) else (s, bad)
step (s, word (d ∷ e ∷ l)) c = if c == d then (s, word (e ∷ l)) else (s, bad)

abbrev pub run : Config → Bytes → Config
run p [] = p
run p (c ∷ l) = run (step p c) l

-- Whether a value has ended at the place.
abbrev pub ends : Place → Bool
ends after = true
ends nought = true
ends int = true
ends frac = true
ends _ = false

abbrev pub accepted : Config → Bool
accepted ([], p) = ends p
accepted (_ ∷ _, p) = false

-- Whether the text is one JSON value.
abbrev pub is_json : Bytes → Bool
is_json l = accepted (run ([], value) l)
