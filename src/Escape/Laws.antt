-- ===== src/Escape/Laws.antt =====
-- src/user/unified_trace.c: json_escape against its buffer, against the grammar of JSON strings, and
-- against a reader of them.
use mathlib.Core.Option
use local_ai_perf_analysis.Prelude.{
  false, ◌-◌, ltb, ℕ, zero, suc, Bool, true, List, [], ◌∷◌, ◌++◌, ◌+◌, ◌*◌, ◌≤◌, ◌<◌, ◌/◌, ◌%◌, ◌≡◌,
  refl, ap, ◌∙◌, arith, some, Bytes, leb, ◌||◌, if◌then◌else◌, length, length-append, take,
  take_all, append_assoc, append-nil, Bool-cases, inl, inr,
}
use local_ai_perf_analysis.Printf.{digit, hex4}
use local_ai_perf_analysis.Json.{Frame, Place, text, run, is_hex}
use local_ai_perf_analysis.Json.Runs.{run-append}
use local_ai_perf_analysis.Escape.{is_quoted, chunk, written, need, escape_from, json_escape}
use local_ai_perf_analysis.Escape.Decode.{plain, hex, read, read_step, hex_value, read-append}

-- A round is made exactly if this test fails.
abbrev stops : ℕ → ℕ → ℕ → Bool
stops dst_len di c = leb dst_len (di + 2) || leb dst_len (di + need c)

length-chunk : (c : ℕ) → length (chunk c) + 1 ≤ need c
unfolding chunk need
length-chunk c = ground arith

length_of_control : (c : ℕ) → is_quoted c ≡ false → ltb c 0x20 ≡ true → length (chunk c) ≡ 6
unfolding chunk
length_of_control c other control = rw (other, control) refl

-- The guards leave room for the whole text, so none of it is cut.
written_whole : (room c : ℕ) → need c < room → written room c ≡ chunk c
unfolding written need
written_whole room c h = elim (Bool-cases (is_quoted c)) [
  | inl quoted ↦ rw quoted refl
  | inr other ↦ elim (Bool-cases (ltb c 0x20)) [
    | inl control ↦
        let room_for : 7 < room = rw (other, control) at h in
        rw (other, control)
          (take_all (room - 1) (chunk c) (omega (arith, length_of_control c other control)))
    | inr printable ↦ rw (other, printable) refl
  ]
]

-- A round that is made writes the whole text of its byte.
escape_from_round :
    (dst_len c : ℕ) (src : Bytes) (di : ℕ)
    → stops dst_len di c ≡ false
    → escape_from dst_len (c ∷ src) di ≡ chunk c ++ escape_from dst_len src (di + length (chunk c))
unfolding escape_from
escape_from_round dst_len c src di go =
    let room : need c < dst_len - di = ground arith in
    rw (go, written_whole (dst_len - di) c room) refl

-- Behind `di` written bytes, with two to spare, the loop leaves two to spare.
length-escape_from :
    (dst_len : ℕ) (src : Bytes) (di : ℕ)
    → di + 2 ≤ dst_len
    → di + length (escape_from dst_len src di) + 2 ≤ dst_len
unfolding escape_from
length-escape_from dst_len [] di h = omega arith
length-escape_from dst_len (c ∷ src) di h = elim (Bool-cases (stops dst_len di c)) [
  | inl stop ↦ rw stop (omega arith)
  | inr go ↦
      let room : di + need c < dst_len = ground arith in
      let inside : di + length (chunk c) + 2 ≤ dst_len = omega (arith, length-chunk c) in
      rw (escape_from_round dst_len c src di go) (
        omega (
          arith,
          length-append (chunk c) (escape_from dst_len src (di + length (chunk c))),
          length-escape_from dst_len src (di + length (chunk c)) inside,
        ))
]

hex_digit : (d : ℕ) → d < 16 → (is_hex (digit d) ≡ true) × (hex_value (digit d) ≡ d)
unfolding digit
hex_digit d h = (ground arith, ground arith)

read_hex :
    (n v : ℕ) (out : Bytes) (d : ℕ)
    → d < 16
    → read_step (hex (suc n) v out) (digit d) ≡ hex n (v * 16 + d) out
unfolding read_step
read_hex n v out d h = ground (arith, hex_digit d h)

read_last :
    (v : ℕ) (out : Bytes) (d : ℕ)
    → d < 16
    → read_step (hex zero v out) (digit d) ≡ plain (out ++ (v * 16 + d) ∷ [])
unfolding read_step
read_last v out d h = ground (arith, hex_digit d h)

read-hex4 : (c : ℕ) (out : Bytes) → c < 65536 → read (hex 3 0 out) (hex4 c) ≡ plain (out ++ c ∷ [])
unfolding read
read-hex4 c out h =
    rw
      (
        read_hex 2 0 out (c / 4096 % 16) (omega arith),
        read_hex 1 _ out (c / 256 % 16) (omega arith),
        read_hex 0 _ out (c / 16 % 16) (omega arith),
        read_last _ out (c % 16) (omega arith),
      )
      (ap (λ v. plain (out ++ v ∷ [])) (omega arith))

read-chunk : (c : ℕ) (out : Bytes) → read (plain out) (chunk c) ≡ plain (out ++ c ∷ [])
unfolding chunk read read_step
read-chunk c out = ground (arith, read-hex4 c out)

run-hex4 : (s : List Frame) (k : Bool) (c : ℕ) → run (s, Place.hex k 3) (hex4 c) ≡ (s, text k)
run-hex4 s k c = ground (
  arith,
  hex_digit (c / 4096 % 16) (omega arith),
  hex_digit (c / 256 % 16) (omega arith),
  hex_digit (c / 16 % 16) (omega arith),
  hex_digit (c % 16) (omega arith),
)

run-chunk : (s : List Frame) (k : Bool) (c : ℕ) → run (s, text k) (chunk c) ≡ (s, text k)
unfolding chunk
run-chunk s k c = ground (arith, run-hex4 s k c)

-- How many bytes of the source the loop takes.
taken : ℕ → Bytes → ℕ → ℕ
taken dst_len [] di = 0
taken dst_len (c ∷ src) di =
    let rest = taken dst_len src (di + length (chunk c)) in
    if stops dst_len di c then 0 else suc rest

read-escape_from :
    (dst_len : ℕ) (src : Bytes) (di : ℕ) (out : Bytes)
    → read (plain out) (escape_from dst_len src di) ≡ plain (out ++ take (taken dst_len src di) src)
unfolding escape_from taken read
read-escape_from dst_len [] di out = rw append-nil refl
read-escape_from dst_len (c ∷ src) di out = elim (Bool-cases (stops dst_len di c)) [
  | inl stop ↦ rw (stop, append-nil) refl
  | inr go ↦
      let rest = read-escape_from dst_len src (di + length (chunk c)) (out ++ c ∷ []) in
      rw (escape_from_round dst_len c src di go, go, read-append, read-chunk, rest, append_assoc)
        refl
]

length_of_chunk : (c : ℕ) → (length (chunk c) ≤ 6) × (need c ≤ 7) × (2 ≤ need c)
unfolding chunk need
length_of_chunk c = (ground arith, ground arith, ground arith)

taken_all :
    (dst_len : ℕ) (src : Bytes) (di : ℕ)
    → di + 6 * length src + 1 < dst_len
    → taken dst_len src di ≡ length src
unfolding taken
taken_all dst_len [] di h = refl
taken_all dst_len (c ∷ src) di h =
    let (small, within, two) = length_of_chunk c in
    let rest = taken_all dst_len src (di + length (chunk c)) (omega arith) in ground arith

run-escape_from :
    (s : List Frame) (k : Bool) (dst_len : ℕ) (src : Bytes) (di : ℕ)
    → run (s, text k) (escape_from dst_len src di) ≡ (s, text k)
unfolding escape_from
run-escape_from s k dst_len [] di = refl
run-escape_from s k dst_len (c ∷ src) di = elim (Bool-cases (stops dst_len di c)) [
  | inl stop ↦ rw stop refl
  | inr go ↦
      rw (escape_from_round dst_len c src di go, run-append, run-chunk)
        (run-escape_from s k dst_len src _)
]

abbrev pub escaped : ℕ → Bytes → Bytes
escaped dst_len src = Option.get_or (json_escape dst_len src) []

json_escape-some :
    (dst_len : ℕ) (src : Bytes)
    → 0 < dst_len
    → json_escape dst_len src ≡ some (escape_from dst_len src 0)
unfolding json_escape
json_escape-some dst_len src h = ground arith

-- Into a buffer of at least two bytes, json_escape writes a text that leaves two of them free, one of them for
-- the NUL.
pub length-json_escape :
    (dst_len : ℕ) (src : Bytes) → 2 ≤ dst_len → length (escaped dst_len src) + 2 ≤ dst_len
length-json_escape dst_len src h =
    rw (json_escape-some dst_len src (omega arith))
      (omega (arith, length-escape_from dst_len src 0 h))

-- For any size of the buffer, a JSON string reader gets back the first bytes of the source, some number of
-- them, from what json_escape writes: an escape is never cut.
pub read-json_escape_prefix :
    (dst_len : ℕ) (src : Bytes)
    → (k : ℕ) × (read (plain []) (escaped dst_len src) ≡ plain (take k src))
read-json_escape_prefix zero src = (0, unfold json_escape read in refl)
read-json_escape_prefix (suc n) src =
    rw (json_escape-some (suc n) src (omega arith))
      (taken (suc n) src 0, read-escape_from (suc n) src 0 [])

-- With room for six bytes to each byte of the source and two more, a JSON string reader gets back the whole
-- source from what json_escape writes.
pub read-json_escape :
    (dst_len : ℕ) (src : Bytes)
    → 6 * length src + 2 ≤ dst_len
    → read (plain []) (escaped dst_len src) ≡ plain src
read-json_escape dst_len src h = rw (json_escape-some dst_len src (omega arith)) (
    read-escape_from dst_len src 0 []
    ∙ ap plain (
        ap (λ n. take n src) (taken_all dst_len src 0 (omega arith))
        ∙ take_all (length src) src (omega arith)))

-- Inside a JSON string, a text that json_escape wrote leaves the reader of JSON inside that string.
pub run-json_escape :
    (s : List Frame) (k : Bool) (dst_len : ℕ) (src : Bytes)
    → run (s, text k) (escaped dst_len src) ≡ (s, text k)
run-json_escape s k zero src = unfold json_escape in refl
run-json_escape s k (suc n) src =
    rw (json_escape-some (suc n) src (omega arith)) (run-escape_from s k (suc n) src 0)
