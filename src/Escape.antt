-- ===== src/Escape.antt =====
-- src/user/unified_trace.c: json_escape. The source text is its bytes before the NUL; the result is
-- the text written before the NUL that the function adds, or `none` where it writes nothing.
pub mod Decode
pub mod Laws
use local_ai_perf_analysis.Prelude.{
  ℕ, Bool, not, take, ◌&&◌, ◌-◌, [], ◌∷◌, ◌++◌, ◌+◌, ◌||◌, Option, none, some, Bytes, ltb, leb,
  ◌==◌, if◌then◌else◌, length,
}
use local_ai_perf_analysis.Printf.{hex4, digit}

abbrev pub is_quoted : ℕ → Bool
is_quoted c = c == b'"' || c == b'\\'

-- The text for a byte.
unfoldable pub chunk : ℕ → Bytes
chunk c =
    if is_quoted c then b'\\' ∷ c ∷ [] else if ltb c 0x20 then b'\\' ∷ b'u' ∷ hex4 c else c ∷ []

-- What a round writes of it, with `room` bytes of the buffer left: snprintf cuts its text to leave one for the NUL.
unfoldable pub written : ℕ → ℕ → Bytes
written room c = if not (is_quoted c) && ltb c 0x20 then take (room - 1) (chunk c) else chunk c

-- The space that the round asks for behind what is written: the loop goes on only below the length.
unfoldable pub need : ℕ → ℕ
need c = if is_quoted c then 3 else if ltb c 0x20 then 7 else 2

-- The loop, with `di` bytes written; each round first tests `di + 2 < dst_len`. `di` grows by the length of the
-- whole text, also if it is cut.
unfoldable pub escape_from : ℕ → Bytes → ℕ → Bytes
unfolding written
escape_from dst_len [] di = []
escape_from dst_len (c ∷ src) di =
    let rest = escape_from dst_len src (di + length (chunk c)) in
    if leb dst_len (di + 2) || leb dst_len (di + need c)
    then []
    else written (dst_len - di) c ++ rest

unfoldable pub json_escape : ℕ → Bytes → Option Bytes
unfolding escape_from written chunk need digit
json_escape dst_len src = if dst_len == 0 then none else some (escape_from dst_len src 0)
