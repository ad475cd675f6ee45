-- ===== src/Tests/Escape.antt =====
-- json_escape of src/user/unified_trace.c and the printed numbers on concrete bytes.
use local_ai_perf_analysis.Prelude.{
  ℕ, false, [], ◌∷◌, ◌≡◌, ◌≤◌, ◌+◌, refl, arith, some, Bytes, codes, length, take,
}
use local_ai_perf_analysis.Json.{object, text, run}
use local_ai_perf_analysis.Printf.{show_dec}
use local_ai_perf_analysis.Escape.{json_escape, escape_from, chunk, need}
use local_ai_perf_analysis.Escape.Decode.{plain, read}
use local_ai_perf_analysis.Escape.Laws.{
  escaped, length-json_escape, read-json_escape, read-json_escape_prefix, run-json_escape,
}

-- A quote, a backslash and a line feed between letters.
abbrev awkward : Bytes
awkward = b'a' ∷ b'"' ∷ b'\\' ∷ 10 ∷ b'z' ∷ []

read-json_escape_example : read (plain []) (escaped 32 awkward) ≡ plain awkward
read-json_escape_example = read-json_escape 32 awkward (omega arith)

read-json_escape_prefix_example :
    (k : ℕ) × (read (plain []) (escaped 8 awkward) ≡ plain (take k awkward))
read-json_escape_prefix_example = read-json_escape_prefix 8 awkward

length-json_escape_example : length (escaped 8 awkward) + 2 ≤ 8
length-json_escape_example = length-json_escape 8 awkward (omega arith)

run-json_escape_example :
    run (object ∷ [], text false) (escaped 8 awkward) ≡ (object ∷ [], text false)
run-json_escape_example = run-json_escape (object ∷ []) false 8 awkward

escaped_whole : json_escape 32 awkward ≡ some (codes "a\\\"\\\\\\u000az")
unfolding json_escape escape_from chunk need
escaped_whole = refl

-- Eight bytes hold six of the text, not seven.
cut_short : json_escape 8 (codes "abcdefgh") ≡ some (codes "abcdef")
unfolding json_escape escape_from chunk need
cut_short = refl

printed : show_dec 1207 ≡ codes "1207"
unfolding show_dec
printed = refl
