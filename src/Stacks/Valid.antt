-- ===== src/Stacks/Valid.antt =====
-- src/user/unified_trace.c: what emit_stack_json writes, as JSON.
use local_ai_perf_analysis.Prelude.{
  ℕ, if◌then◌else◌, ℤ, Bool, true, false, List, [], ◌∷◌, ◌++◌, ◌≡◌, refl, Bytes, codes, null,
  length, take, Bool-cases, Option-cases, inl, inr, ◌==◌, ◌&&◌, ◌*◌,
}
use local_ai_perf_analysis.Json.{Config, Frame, object, array, value, first_value, after, text, run}
use local_ai_perf_analysis.Json.Runs.{
  run_then, run_plain, run_number_then, Stops, is_stop, start, opening,
}
use local_ai_perf_analysis.Printf.{show_dec, show_hex}
use local_ai_perf_analysis.Printf.Decimal.{show_dec-IsNumber, show_hex-IsPlain}
use local_ai_perf_analysis.Escape.Laws.{run-json_escape}
use local_ai_perf_analysis.Stacks.{
  Tool, BswFrame, emit_addrs, emit_field, emit_frame, emit_frames, emit_addr_stack, emit_stack_json,
  escape_field, esc_len,
}

run-emit_addrs :
    (s : List Frame) (first : Bool) (addrs : List ℕ)
    → run (array ∷ s, start first) (emit_addrs first addrs)
      ≡ (array ∷ s, start (first && null addrs))
unfolding emit_addrs
run-emit_addrs s true [] = refl
run-emit_addrs s false [] = refl
run-emit_addrs s true (a ∷ addrs) =
    run_then (object ∷ array ∷ s, text false) (show_hex a) _
      (run_plain _ false (show_hex a) (show_hex-IsPlain a)) (run-emit_addrs s false addrs)
run-emit_addrs s false (a ∷ addrs) =
    run_then (object ∷ array ∷ s, text false) (show_hex a) _
      (run_plain _ false (show_hex a) (show_hex-IsPlain a)) (run-emit_addrs s false addrs)

run-opening :
    (s : List Frame) (b : Bool)
    → run (array ∷ s, opening b) (codes "{\"sym\":\"") ≡ (object ∷ array ∷ s, text false)
run-opening s true = refl
run-opening s false = refl

-- A member that is left out when its text is empty.
run-emit_field :
    (s : List Frame) (label l : Bytes)
    → run (object ∷ s, after) label ≡ (object ∷ s, text false)
    → run (object ∷ s, text false) l ≡ (object ∷ s, text false)
    → run (object ∷ s, after) (emit_field label l) ≡ (object ∷ s, after)
unfolding emit_field
run-emit_field s label l h k = elim (Bool-cases (null l)) [
  | inl gone ↦ rw gone refl
  | inr here ↦ rw here (run_then _ label _ h (run_then _ l _ k refl))
]

Stops-emit_field :
    (c : ℕ) (label l rest : Bytes)
    → is_stop c ≡ true
    → Stops rest
    → Stops (emit_field (c ∷ label) l ++ rest)
unfolding emit_field
Stops-emit_field c label l rest h k = elim (Bool-cases (null l)) [
  | inl gone ↦ rw gone k
  | inr here ↦ rw here (c, _, refl, h)
]

abbrev line_part : ℕ → Bytes
line_part n = if n == 0 then [] else codes ",\"line\":" ++ show_dec n

abbrev inlined_part : ℕ → Bytes
inlined_part n = if n == 0 then [] else codes ",\"inlined\":1"

run-line_part :
    (s : List Frame) (n : ℕ) (rest : Bytes) {r : Config}
    → Stops rest
    → run (object ∷ s, after) rest ≡ r
    → run (object ∷ s, after) (line_part n ++ rest) ≡ r
run-line_part s n rest h k = elim (Bool-cases (n == 0)) [
  | inl gone ↦ rw gone k
  | inr here ↦ rw here (run_number_then (object ∷ s) (show_dec n) rest (show_dec-IsNumber n) h k)
]

run-inlined_part :
    (s : List Frame) (n : ℕ)
    → run (object ∷ array ∷ s, after) (inlined_part n ++ codes "}") ≡ (array ∷ s, after)
run-inlined_part s n = elim (Bool-cases (n == 0)) [
  | inl gone ↦ rw gone refl
  | inr here ↦ rw here refl
]

Stops-inlined_part : (n : ℕ) → Stops (inlined_part n ++ codes "}")
Stops-inlined_part n = elim (Bool-cases (n == 0)) [
  | inl gone ↦ rw gone (b'}', _, refl, refl)
  | inr here ↦ rw here (b',', _, refl, refl)
]

run-emit_frame :
    (s : List Frame) (b : Bool) (fr : BswFrame)
    → run (array ∷ s, opening b) (emit_frame fr) ≡ (array ∷ s, after)
unfolding emit_frame
run-emit_frame s b fr =
    run_then (array ∷ s, opening b) (codes "{\"sym\":\"")
      (sym_text ++ (codes "\"" ++ (file_part ++ rest))) (run-opening s b)
      (run_then inside sym_text (codes "\"" ++ (file_part ++ rest))
        (run-json_escape (object ∷ array ∷ s) false esc_len _)
        (run_then _ file_part rest
          (run-emit_field (array ∷ s) (codes ",\"file\":\"") (escape_field fr.file) refl
            (run-json_escape (object ∷ array ∷ s) false esc_len fr.file))
          (run-line_part (array ∷ s) fr.line (lib_part ++ last)
            (Stops-emit_field b',' (codes "\"lib\":\"") (escape_field fr.lib) last refl
              (Stops-inlined_part fr.inlined))
            (run_then _ lib_part last
              (run-emit_field (array ∷ s) (codes ",\"lib\":\"") (escape_field fr.lib) refl
                (run-json_escape (object ∷ array ∷ s) false esc_len fr.lib))
              (run-inlined_part s fr.inlined)))))
  where
    inside : Config
    inside = (object ∷ array ∷ s, text false)

    sym_text : Bytes
    sym_text = escape_field (if null fr.sym then codes "??" else fr.sym)

    file_part : Bytes
    file_part = emit_field (codes ",\"file\":\"") (escape_field fr.file)

    lib_part : Bytes
    lib_part = emit_field (codes ",\"lib\":\"") (escape_field fr.lib)

    last : Bytes
    last = inlined_part fr.inlined ++ codes "}"

    rest : Bytes
    rest = line_part fr.line ++ (lib_part ++ last)

run-emit_frames :
    (s : List Frame) (first : Bool) (frames : List BswFrame)
    → run (array ∷ s, start first) (emit_frames first frames)
      ≡ (array ∷ s, start (first && null frames))
unfolding emit_frames
run-emit_frames s true [] = refl
run-emit_frames s false [] = refl
run-emit_frames s true (fr ∷ frames) =
    run_then (array ∷ s, first_value) (emit_frame fr) (emit_frames false frames)
      (run-emit_frame s true fr) (run-emit_frames s false frames)
run-emit_frames s false (fr ∷ frames) =
    run_then (array ∷ s, value) (emit_frame fr) (emit_frames false frames)
      (run-emit_frame s false fr) (run-emit_frames s false frames)

run-close :
    (s : List Frame) (x : Bytes) (b : Bool)
    → run (array ∷ s, first_value) x ≡ (array ∷ s, start b)
    → run (s, value) (codes "[" ++ (x ++ codes "]")) ≡ (s, after)
run-close s x true h = run_then (array ∷ s, first_value) x (codes "]") h refl
run-close s x false h = run_then (array ∷ s, first_value) x (codes "]") h refl

run-emit_addr_stack :
    (s : List Frame) (t : Tool) (pid : ℕ) (addrs : List ℕ)
    → run (s, value) (emit_addr_stack t pid addrs) ≡ (s, after)
unfolding emit_addr_stack
run-emit_addr_stack s t pid [] = refl
run-emit_addr_stack s t pid (a ∷ addrs) =
    let shown = take t.max_stack_frames_in_json (a ∷ addrs) in
    let raw = run-close s (emit_addrs true shown) _ (run-emit_addrs s true shown) in
    elim (Bool-cases t.symbolize_enabled) [
      | inr off ↦ rw off raw
      | inl on ↦ elim (Option-cases t.symbolizer) [
        | inl e ↦ rw (on, e) raw
        | inr (resolve, e) ↦ elim (Bool-cases t.calloc_works) [
          | inr failed ↦ rw (on, e, failed) refl
          | inl works ↦
              rw (on, e, works)
                (run-close s (emit_frames true (resolve pid shown (length shown * 4))) _
                  (run-emit_frames s true (resolve pid shown (length shown * 4))))
        ]
      ]
    ]

-- Wherever a JSON value may stand, emit_stack_json writes exactly one, whatever the stack map and the
-- symbolizer return and whatever fails.
pub run-emit_stack_json :
    (s : List Frame) (t : Tool) (stack_id : ℤ) (pid : ℕ)
    → run (s, value) (emit_stack_json t stack_id pid) ≡ (s, after)
unfolding emit_stack_json
run-emit_stack_json s t stack_id pid = run-emit_addr_stack s t pid _
