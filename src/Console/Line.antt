-- ===== src/Console/Line.antt =====
-- src/user/trace_cuda.c: what the line that handle_event prints tells of the event.

use local_ai_perf_analysis.Prelude.{
  ℕ, zero, suc, ◌+◌, ◌-◌, ◌*◌, ◌/◌, ◌%◌, ◌≡◌, refl, ◌∙◌, arith, Bytes, ◌++◌, length,
}
use local_ai_perf_analysis.Printf.{repeat, zero_padded, FloatPrint, show_dec}
use local_ai_perf_analysis.Printf.Decimal.{dec_value, dec_value-show_dec}
use local_ai_perf_analysis.Stacks.{Tool}
use local_ai_perf_analysis.Entry.{size_text}
use local_ai_perf_analysis.CudaOps
use local_ai_perf_analysis.Console.{cuda_op_name, time_text, print_size_human}

-- The two tools have the same names for the operations.
pub cuda_op_name_lem : (op : ℕ) → cuda_op_name op ≡ CudaOps.cuda_op_name op
unfolding cuda_op_name CudaOps.cuda_op_name
cuda_op_name_lem op = refl

-- The two tools print the size of an operation in the same words.
pub print_size_human-size_text :
    (P : FloatPrint) (t : Tool) (millis : ℕ → Bytes) (size : ℕ)
    → print_size_human P millis size ≡ size_text P t size
unfolding print_size_human size_text
print_size_human-size_text P t millis size = ground arith

dec_value-zeros : (n : ℕ) (x : Bytes) → dec_value 0 (repeat n b'0' ++ x) ≡ dec_value 0 x
unfolding repeat
dec_value-zeros zero x = refl
dec_value-zeros (suc n) x = dec_value-zeros n x

dec_value-zero_padded : (width n : ℕ) → dec_value 0 (zero_padded width n) ≡ n
unfolding zero_padded
dec_value-zero_padded width n =
    dec_value-zeros (width - length (show_dec n)) (show_dec n) ∙ dec_value-show_dec n

-- The seconds and the microseconds of the line read back as the time stamp, to the microsecond.
pub dec_value-time_text :
    (timestamp : ℕ)
    → dec_value 0 (time_text timestamp).0 * 1000000 + dec_value 0 (time_text timestamp).1
      ≡ timestamp / 1000
unfolding time_text
dec_value-time_text timestamp =
    rw
      (
        dec_value-show_dec (timestamp / 1000000000),
        dec_value-zero_padded 6 (timestamp % 1000000000 / 1000),
      )
      (omega arith)
