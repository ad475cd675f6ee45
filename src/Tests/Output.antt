-- ===== src/Tests/Output.antt =====
-- The trace file of src/user/unified_trace.c for three events.
use local_ai_perf_analysis.Prelude.{
  ℕ, zero, suc, true, List, [], ◌∷◌, ◌++◌, ◌≡◌, ◌∙◌, refl, ap, arith, some, Bytes, ◌/◌, ◌%◌, codes,
  All, All-append, pos,
}
use local_ai_perf_analysis.Json.{Frame, Place, array, value, after, run, frac}
use local_ai_perf_analysis.Json.Runs.{run-append, IsNumber, IsPlain}
use local_ai_perf_analysis.Printf.{FloatPrint, show_dec, digit}
use local_ai_perf_analysis.Printf.Decimal.{run-show_dec_pos, show_dec-IsPlain}
use local_ai_perf_analysis.Stacks.{Tool, emit_stack_json}
use local_ai_perf_analysis.Stacks.Valid.{run-emit_stack_json}

-- The conversions of printf, cut instead of rounded.
abbrev fraction : ℕ → Bytes
fraction n = b'.' ∷ digit (n / 100 % 10) ∷ digit (n / 10 % 10) ∷ digit (n % 10) ∷ []

fixed3 : ℕ → Bytes
fixed3 n = show_dec (n / 1000) ++ fraction n

fixed2 : ℕ → ℕ → Bytes
fixed2 n unit = show_dec (n / unit) ++ codes ".00"

run-fraction_zero : (s : List Frame) (n : ℕ) → run (s, value) (show_dec 0 ++ fraction n) ≡ (s, frac)
unfolding show_dec
run-fraction_zero s n = ground arith

run-fraction_pos : (s : List Frame) (n : ℕ) → run (s, Place.int) (fraction n) ≡ (s, frac)
unfolding digit
run-fraction_pos s n = ground arith

fixed3-IsNumber : (n : ℕ) → IsNumber (fixed3 n)
unfolding fixed3
fixed3-IsNumber n s = (frac, go (n / 1000), refl)
  where
    go : (q : ℕ) → run (s, value) (show_dec q ++ fraction n) ≡ (s, frac)
    go zero = run-fraction_zero s n
    go (suc q) =
        run-append (s, value) (show_dec (suc q)) (fraction n)
        ∙ ap (λ p. run p (fraction n)) (run-show_dec_pos s q)
        ∙ run-fraction_pos s n

fixed2-IsPlain : (n unit : ℕ) → All IsPlain (fixed2 n unit)
unfolding fixed2
fixed2-IsPlain n unit =
    All-append IsPlain (show_dec (n / unit)) (codes ".00") (show_dec-IsPlain _) (ground arith)

pub cut_print : FloatPrint
cut_print = record {
  fixed3 = fixed3;
  fixed2 = fixed2;
  fixed3-IsNumber = fixed3-IsNumber;
  fixed2-IsPlain = fixed2-IsPlain;
}

-- One stack in the map, and a symbolizer that names each address "f\"".
abbrev pub tool : Tool
tool = record {
  stack_map_fd = pos 4;
  stack_map = λ id. some (0x40 ∷ 0x50 ∷ 0 ∷ 0x60 ∷ []);
  symbolize_enabled = true;
  symbolizer = some (λ pid addrs cap.
      record {
        addr = 0x40;
        line = 12;
        inlined = 1;
        sym = codes "f\"";
        file = codes "f.cc";
        lib = [];
      }
      ∷ []);
  max_stack_frames_in_json = 32;
  calloc_works = true;
}

run-emit_stack_json_example :
    run (array ∷ [], value) (emit_stack_json tool (pos 12) 8) ≡ (array ∷ [], after)
run-emit_stack_json_example = run-emit_stack_json (array ∷ []) tool (pos 12) 8

pub agent-IsPlain : All IsPlain (codes "agent")
agent-IsPlain = ground arith
