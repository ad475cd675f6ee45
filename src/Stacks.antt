-- ===== src/Stacks.antt =====
-- src/user/unified_trace.c: read_stack_addrs and emit_stack_json. The BPF stack map and the symbolizer
-- (src/symbolize, over the blazesym library) are parameters in the record `Tool`.
pub mod Read
pub mod Valid
use mathlib.Core.Option
use local_ai_perf_analysis.Prelude.{
  ℕ, zero, suc, ℤ, Bool, true, false, List, [], ◌∷◌, ◌++◌, ◌*◌, Option, none, some, Bytes, codes,
  ◌==◌, ◌||◌, not, if◌then◌else◌, length, take, null, nonneg,
}
use local_ai_perf_analysis.Events.{perf_max_stack_depth}
use local_ai_perf_analysis.Printf.{show_dec, show_hex}
use local_ai_perf_analysis.Escape.{json_escape}

-- struct bsw_frame
pub record BswFrame : Type 0 where
  pub addr : ℕ
  pub line : ℕ
  pub inlined : ℕ
  pub sym : Bytes
  pub file : Bytes
  pub lib : Bytes

-- BSW_STR_MAX * 2, the size of each buffer for escaped text.
abbrev pub esc_len : ℕ
esc_len = 1024

-- The globals of the tool and what lies outside: the entries of the stack map by id (`none` for a
-- failed lookup), the symbolizer (`none` for NULL) and whether calloc succeeds.
pub record Tool : Type 0 where
  pub stack_map_fd : ℤ
  pub stack_map : ℤ → Option (List ℕ)
  pub symbolize_enabled : Bool
  pub symbolizer : Option (ℕ → List ℕ → ℕ → List BswFrame)
  pub max_stack_frames_in_json : ℕ
  pub calloc_works : Bool

-- The loop: up to the first zero, at most `room` addresses.
unfoldable pub copy_addrs : ℕ → List ℕ → List ℕ
copy_addrs zero stack = []
copy_addrs (suc room) [] = []
copy_addrs (suc room) (a ∷ stack) =
    let rest = copy_addrs room stack in if a == 0 then [] else a ∷ rest

unfoldable pub read_stack_addrs : Tool → ℤ → ℕ → List ℕ
unfolding copy_addrs
read_stack_addrs t stack_id out_cap =
    if not (nonneg stack_id) || not (nonneg t.stack_map_fd)
    then []
    else elim (t.stack_map stack_id) [
      | none ↦ []
      | some stack ↦ copy_addrs out_cap (take perf_max_stack_depth stack)
    ]

-- `i ? "," : ""`
abbrev pub separator : Bool → Bytes
separator true = []
separator false = codes ","

unfoldable pub emit_addrs : Bool → List ℕ → Bytes
emit_addrs first [] = []
emit_addrs first (a ∷ addrs) =
    separator first
    ++ (codes "{\"addr\":\"0x" ++ (show_hex a ++ (codes "\"}" ++ emit_addrs false addrs)))

abbrev pub escape_field : Bytes → Bytes
escape_field l = Option.get_or (json_escape esc_len l) []

unfoldable pub emit_field : Bytes → Bytes → Bytes
emit_field label l = if null l then [] else label ++ (l ++ codes "\"")

unfoldable pub emit_frame : BswFrame → Bytes
unfolding emit_field
emit_frame fr =
    codes "{\"sym\":\""
    ++ (escape_field (if null fr.sym then codes "??" else fr.sym)
        ++ (codes "\""
            ++ (emit_field (codes ",\"file\":\"") (escape_field fr.file)
                ++ ((if fr.line == 0 then [] else codes ",\"line\":" ++ show_dec fr.line)
                    ++ (emit_field (codes ",\"lib\":\"") (escape_field fr.lib)
                        ++ ((if fr.inlined == 0 then [] else codes ",\"inlined\":1")
                            ++ codes "}"))))))

unfoldable pub emit_frames : Bool → List BswFrame → Bytes
emit_frames first [] = []
emit_frames first (fr ∷ frames) = separator first ++ (emit_frame fr ++ emit_frames false frames)

-- What is written once the addresses are read.
unfoldable pub emit_addr_stack : Tool → ℕ → List ℕ → Bytes
unfolding emit_addrs emit_frames emit_frame
emit_addr_stack t pid [] = codes "[]"
emit_addr_stack t pid (a ∷ addrs) =
    let shown = take t.max_stack_frames_in_json (a ∷ addrs) in
    let raw = codes "[" ++ (emit_addrs true shown ++ codes "]") in
    if t.symbolize_enabled
    then elim t.symbolizer [
      | none ↦ raw
      | some resolve ↦
          if t.calloc_works
          then codes "[" ++ (emit_frames true (resolve pid shown (length shown * 4)) ++ codes "]")
          else codes "[]"
    ]
    else raw

unfoldable pub emit_stack_json : Tool → ℤ → ℕ → Bytes
unfolding emit_addr_stack read_stack_addrs
emit_stack_json t stack_id pid =
    emit_addr_stack t pid (read_stack_addrs t stack_id perf_max_stack_depth)
