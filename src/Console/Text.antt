-- ===== src/Console/Text.antt =====
-- src/user/trace_cuda.c, handle_event: an event is printed as one line.
use local_ai_perf_analysis.Prelude.{
  subst, sym, ℕ, ◌*◌, ◌/◌, ◌%◌, ◌==◌, [], ◌++◌, Bytes, codes, if◌then◌else◌, All, arith, nonneg,
  signed32,
}
use local_ai_perf_analysis.Events.{
  CudaEvent, op_code, malloc, free, memcpy, launch_kernel, sync, memcpy_async, stream_sync,
  stream_create, stream_destroy, event_record, event_sync, event_query, launch_kernel_ex,
  graph_launch,
}
use local_ai_perf_analysis.Json.Runs.{IsPlain}
use local_ai_perf_analysis.Printf.{FloatPrint, show_int}
use local_ai_perf_analysis.Printf.Plain.{
  PlainText, if-PlainText, append-PlainText, show_dec-PlainText, show_hex-PlainText,
  show_int-PlainText, pad_right-PlainText, zero_padded-PlainText, IsLine, newline-IsLine,
  append-IsLine,
}
use local_ai_perf_analysis.CudaOps.Labels.{cuda_op_name-PlainText}
use local_ai_perf_analysis.Console.Line.{cuda_op_name_lem}
use local_ai_perf_analysis.Console.{
  cuda_op_name, hex_field, time_text, print_size_human, details, handle_event,
}

console_name-PlainText : (op : ℕ) → PlainText (cuda_op_name op)
console_name-PlainText op = subst PlainText (sym (cuda_op_name_lem op)) (cuda_op_name-PlainText op)

field-PlainText : (label : Bytes) (n : ℕ) → PlainText label → PlainText (hex_field label n)
field-PlainText label n h =
    append-PlainText h (append-PlainText {x = codes "=0x"} (omega arith) (show_hex-PlainText n))

seconds-PlainText : (t : ℕ) → PlainText (time_text t).0
unfolding time_text
seconds-PlainText t = show_dec-PlainText (t / 1000000000)

micros-PlainText : (t : ℕ) → PlainText (time_text t).1
unfolding time_text
micros-PlainText t = zero_padded-PlainText 6 (t % 1000000000 / 1000)

module _ (P : FloatPrint) (millis : ℕ → Bytes) where
  open P use {fixed2, fixed2-IsPlain}

  print_size_human-PlainText : (size : ℕ) → PlainText (print_size_human P millis size)
  unfolding print_size_human
  print_size_human-PlainText size =
      if-PlainText _ _ _
        (append-PlainText (show_dec-PlainText size) (record { plain = omega arith }))
        (if-PlainText _ _ _ (unit 1024 (record { plain = omega arith })) (
          if-PlainText _ _ _ (unit (1024 * 1024) (record { plain = omega arith }))
            (unit (1024 * 1024 * 1024) (record { plain = omega arith }))))
    where
      unit : {l : Bytes} (u : ℕ) → PlainText l → PlainText (fixed2 size u ++ l)
      unit u h = append-PlainText (record { plain = fixed2-IsPlain size u }) h

  size-PlainText : (size : ℕ) → PlainText (codes "size=" ++ print_size_human P millis size)
  size-PlainText size =
      append-PlainText {x = codes "size="} (omega arith) (print_size_human-PlainText size)

  details-PlainText : (e : CudaEvent) → PlainText (details P millis e)
  unfolding details
  details-PlainText e = if-PlainText (e.op_type == op_code malloc) _ _ (size-PlainText e.size) (
      if-PlainText (e.op_type == op_code free) _ _
        (field-PlainText (codes "ptr") e.ptr (omega arith))
        (if-PlainText (e.op_type == op_code memcpy) _ _ (size-PlainText e.size) (
          if-PlainText (e.op_type == op_code memcpy_async) _ _
            (append-PlainText {x = codes "size="} (omega arith) (
              append-PlainText (print_size_human-PlainText e.size)
                (field-PlainText (codes " stream") e.stream_id (omega arith))))
            (if-PlainText (e.op_type == op_code launch_kernel) _ _
              (field-PlainText (codes "kernel_launch func") e.ptr (omega arith))
              (if-PlainText (e.op_type == op_code launch_kernel_ex) (codes "kernel_launch_ex") _
                (omega arith)
                (if-PlainText (e.op_type == op_code graph_launch) _ _
                  (field-PlainText (codes "graph_launch stream") e.stream_id (omega arith))
                  (if-PlainText (e.op_type == op_code sync) (codes "device_sync") _ (omega arith)
                    (others e))))))))
    where
      others :
          (e : CudaEvent)
          → PlainText (
              if e.op_type == op_code stream_sync
              then hex_field (codes "stream_sync stream") e.stream_id
              else if e.op_type == op_code stream_create
              then codes "stream_create"
              else if e.op_type == op_code stream_destroy
              then hex_field (codes "stream_destroy stream") e.stream_id
              else if e.op_type == op_code event_record
              then hex_field (codes "event_record event") e.ptr
                ++ hex_field (codes " stream") e.stream_id
              else if e.op_type == op_code event_sync
              then hex_field (codes "event_sync event") e.ptr
              else if e.op_type == op_code event_query
              then hex_field (codes "event_query event") e.ptr
              else [])
      others e =
          if-PlainText _ _ _
            (field-PlainText (codes "stream_sync stream") e.stream_id (omega arith))
            (if-PlainText _ (codes "stream_create") _ (omega arith) (
              if-PlainText _ _ _
                (field-PlainText (codes "stream_destroy stream") e.stream_id (omega arith))
                (if-PlainText _ _ _
                  (append-PlainText
                    (field-PlainText (codes "event_record event") e.ptr (omega arith))
                    (field-PlainText (codes " stream") e.stream_id (omega arith)))
                  (if-PlainText _ _ _
                    (field-PlainText (codes "event_sync event") e.ptr (omega arith))
                    (if-PlainText _ _ []
                      (field-PlainText (codes "event_query event") e.ptr (omega arith))
                      (record { plain = tt }))))))

  -- If the command name holds no quote, no backslash and no control character, and neither does what %.3f
  -- prints, then trace_cuda prints one line for an event, whatever its operation is.
  pub handle_event-IsLine :
      (e : CudaEvent)
      → All IsPlain e.comm
      → ((n : ℕ) → All IsPlain (millis n))
      → IsLine (handle_event P millis e)
  unfolding handle_event
  handle_event-IsLine e clean float = append-IsLine (seconds-PlainText e.timestamp) (
      append-IsLine {x = codes "."} (omega arith) (
        append-IsLine (micros-PlainText e.timestamp) (
          append-IsLine {x = codes " "} (omega arith) (
            append-IsLine (pad_right-PlainText 7 _ (show_int-PlainText (signed32 e.pid))) (
              append-IsLine {x = codes " "} (omega arith) (
                append-IsLine (pad_right-PlainText 7 _ (show_int-PlainText (signed32 e.tid))) (
                  append-IsLine {x = codes " "} (omega arith) (
                    append-IsLine (pad_right-PlainText 16 e.comm (record { plain = clean })) (
                      append-IsLine {x = codes " "} (omega arith) (
                        append-IsLine (pad_right-PlainText 22 _ (console_name-PlainText e.op_type))
                          (append-IsLine {x = codes " "} (omega arith) (
                            append-IsLine (details-PlainText e) (
                              append-IsLine {x = codes " duration="} (omega arith) (
                                append-IsLine {x = millis e.duration_ns}
                                  (record { plain = float e.duration_ns })
                                  (append-IsLine {x = codes " ms ret="} (omega arith) (
                                    append-IsLine (show_int-PlainText e.ret_val)
                                      (append-IsLine stack newline-IsLine)))))))))))))))))
    where
      stack :
          PlainText (if nonneg e.stack_id then codes " stack_id=" ++ show_int e.stack_id else [])
      stack =
          if-PlainText _ _ []
            (append-PlainText {x = codes " stack_id="} (omega arith)
              (show_int-PlainText e.stack_id))
            (record { plain = tt })
