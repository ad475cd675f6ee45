-- ===== src/Tests/Console.antt =====
-- The parts of the line of src/user/trace_cuda.c.
use local_ai_perf_analysis.Prelude.{◌≡◌, refl, codes}
use local_ai_perf_analysis.Printf.{pad_right, zero_padded, repeat, show_dec}
use local_ai_perf_analysis.Console.{time_text}

-- Three seconds and seven microseconds.
seven_micros : time_text 3000007999 ≡ (codes "3", codes "000007")
unfolding time_text zero_padded repeat show_dec
seven_micros = refl

padded : pad_right 7 (codes "42") ≡ codes "42     "
unfolding pad_right repeat
padded = refl
