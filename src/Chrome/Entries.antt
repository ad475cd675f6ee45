-- ===== src/Chrome/Entries.antt =====
-- src/user/unified_trace.c: the entries that output_chrome_tracing_json writes, as JSON objects.
use local_ai_perf_analysis.Prelude.{
  ℕ, ℤ, Bool, true, false, List, [], ◌∷◌, ◌++◌, ◌*◌, ◌≡◌, refl, arith, Bytes, codes, ◌==◌, ◌!=◌,
  ◌&&◌, ◌||◌, if◌then◌else◌, nonneg, All, All-append, bit_and,
}
use local_ai_perf_analysis.Events.{
  CpuSchedEvent, CudaEvent, op_code, malloc, memcpy, memcpy_async, free, cuda_ev_flag_async,
}
use local_ai_perf_analysis.Printf.{FloatPrint, show_dec, show_hex, show_int}
use local_ai_perf_analysis.Printf.Decimal.{
  show_dec-IsNumber, show_int-IsNumber, show_hex-IsPlain, show_dec-IsPlain,
}
use local_ai_perf_analysis.Json.{Config, Frame, object, array, value, after, text, run}
use local_ai_perf_analysis.Json.Runs.{run_then, run_plain, run_number, IsPlain, opening}
use local_ai_perf_analysis.Stacks.{Tool}
use local_ai_perf_analysis.Stacks.Valid.{run-emit_stack_json}
use local_ai_perf_analysis.CudaOps.{cuda_op_name, cuda_op_category}
use local_ai_perf_analysis.Entry.{
  stack_part, on_entry, off_entry, wakeup_entry, size_text, size_part, gpu_entry, gpu_virtual_tid,
}
use local_ai_perf_analysis.Chrome.{thread_names}
use local_ai_perf_analysis.Printf.Plain.{PlainText, if-PlainText}
use local_ai_perf_analysis.CudaOps.Labels.{cuda_op_name-PlainText, cuda_op_category-PlainText}

-- The text of an entry that may open at either place.
abbrev pub IsEntry : Bytes → Type 0
IsEntry x = (s : List Frame) (b : Bool) → run (array ∷ s, opening b) x ≡ (array ∷ s, after)

run-thread_names :
    (s : List Frame) (e : CpuSchedEvent)
    → All IsPlain e.comm
    → run (array ∷ s, value) (thread_names e) ≡ (array ∷ s, after)
unfolding thread_names
run-thread_names s e clean =
    let o = object ∷ array ∷ s in
    run_number o (show_dec e.pid) b',' _ (show_dec-IsNumber e.pid) refl (
      run_number o (show_dec e.tid) b',' _ (show_dec-IsNumber e.tid) refl (
        run_then (object ∷ o, text false) e.comm _ (run_plain (object ∷ o) false e.comm clean)
          (run_number o (show_dec e.pid) b',' _ (show_dec-IsNumber e.pid) refl
            (run_number o (show_dec _) b',' _ (show_dec-IsNumber _) refl refl))))

pub thread_names-IsEntry : (e : CpuSchedEvent) → All IsPlain e.comm → IsEntry (thread_names e)
unfolding thread_names
thread_names-IsEntry e clean s true = run-thread_names s e clean
thread_names-IsEntry e clean s false = run-thread_names s e clean

-- A member of an object that is written on a condition: the place behind it is the one before it.
if-run :
    (s : List Frame) (b : Bool) (x : Bytes)
    → run (object ∷ s, after) x ≡ (object ∷ s, after)
    → run (object ∷ s, after) (if b then [] else x) ≡ (object ∷ s, after)
if-run s true x h = refl
if-run s false x h = h

if-run_then :
    (s : List Frame) (b : Bool) (x : Bytes)
    → run (object ∷ s, after) x ≡ (object ∷ s, after)
    → run (object ∷ s, after) (if b then x else []) ≡ (object ∷ s, after)
if-run_then s true x h = h
if-run_then s false x h = refl

module _ (P : FloatPrint) (t : Tool) where
  open P use {fixed3, fixed2, fixed3-IsNumber, fixed2-IsPlain}

  run-stack_part :
      (s : List Frame) (stack_id : ℤ) (pid : ℕ)
      → run (object ∷ s, after) (stack_part P t stack_id pid) ≡ (object ∷ s, after)
  unfolding stack_part
  run-stack_part s stack_id pid =
      if-run_then s (nonneg stack_id) _ (run-emit_stack_json (object ∷ s) t stack_id pid)

  run-on_entry :
      (s : List Frame) (ts : ℕ) (e : CpuSchedEvent)
      → All IsPlain e.comm
      → run (array ∷ s, value) (on_entry P t ts e) ≡ (array ∷ s, after)
  unfolding on_entry
  run-on_entry s ts e clean =
      let o = object ∷ array ∷ s in
      run_number o (fixed3 ts) b',' _ (fixed3-IsNumber ts) refl (
        run_number o (show_dec e.pid) b',' _ (show_dec-IsNumber e.pid) refl (
          run_number o (show_dec e.tid) b',' _ (show_dec-IsNumber e.tid) refl (
            run_number (object ∷ o) (show_dec e.cpu) b',' _ (show_dec-IsNumber e.cpu) refl (
              run_then (object ∷ o, text false) e.comm _ (run_plain (object ∷ o) false e.comm clean)
                (run_then (object ∷ o, after) (stack_part P t e.stack_id e.pid) (codes "}}")
                  (run-stack_part o e.stack_id e.pid) refl)))))

  run-off_entry :
      (s : List Frame) (ts dur : ℕ) (e : CpuSchedEvent)
      → run (array ∷ s, value) (off_entry P t ts dur e) ≡ (array ∷ s, after)
  unfolding off_entry
  run-off_entry s ts dur e =
      let o = object ∷ array ∷ s in
      run_number o (fixed3 ts) b',' _ (fixed3-IsNumber ts) refl (
        run_number o (show_dec e.pid) b',' _ (show_dec-IsNumber e.pid) refl (
          run_number o (show_dec e.tid) b',' _ (show_dec-IsNumber e.tid) refl (
            run_number (object ∷ o) (fixed3 dur) b',' _ (fixed3-IsNumber dur) refl (
              run_number (object ∷ o) (show_dec e.prev_state) b'}' _
                (show_dec-IsNumber e.prev_state) refl refl))))

  run-wakeup_entry :
      (s : List Frame) (ts : ℕ) (e : CpuSchedEvent)
      → run (array ∷ s, value) (wakeup_entry P t ts e) ≡ (array ∷ s, after)
  unfolding wakeup_entry
  run-wakeup_entry s ts e =
      let o = object ∷ array ∷ s in
      run_number o (fixed3 ts) b',' _ (fixed3-IsNumber ts) refl (
        run_number o (show_dec e.pid) b',' _ (show_dec-IsNumber e.pid) refl
          (run_number o (show_dec e.tid) b',' _ (show_dec-IsNumber e.tid) refl refl))

  size_text-PlainText : (size : ℕ) → PlainText (size_text P t size)
  unfolding size_text
  size_text-PlainText size =
      if-PlainText _ _ _ (unit (1024 * 1024 * 1024) (codes " GB") (omega arith)) (
        if-PlainText _ _ _ (unit (1024 * 1024) (codes " MB") (omega arith))
          (if-PlainText _ _ _ (unit 1024 (codes " KB") (omega arith)) bytes))
    where
      unit : (u : ℕ) (l : Bytes) → All IsPlain l → PlainText (fixed2 size u ++ l)
      unit u l h = record { plain = All-append IsPlain (fixed2 size u) l (fixed2-IsPlain size u) h }

      bytes : PlainText (show_dec size ++ codes " B")
      bytes = record {
        plain =
            All-append IsPlain (show_dec size) (codes " B") (show_dec-IsPlain size) (omega arith);
      }

  run-size_part :
      (s : List Frame) (g : CudaEvent)
      → run (object ∷ s, after) (size_part P t g) ≡ (object ∷ s, after)
  unfolding size_part
  run-size_part s g =
      if-run_then s
        (g.op_type == op_code malloc
          || (g.op_type == op_code memcpy || g.op_type == op_code memcpy_async))
        (codes ", \"size_bytes\": "
          ++ (show_dec g.size ++ (codes ", \"size\": \"" ++ (size_text P t g.size ++ codes "\""))))
        (run_number (object ∷ s) (show_dec g.size) b',' _ (show_dec-IsNumber g.size) refl (
          run_then (object ∷ s, text false) (size_text P t g.size) (codes "\"")
            (run_plain (object ∷ s) false (size_text P t g.size) (size_text-PlainText g.size).plain)
            refl))

  -- A hexadecimal number in a string, behind its label.
  run-hex_part :
      (s : List Frame) (n : ℕ)
      → run (object ∷ s, text false) (show_hex n ++ codes "\"") ≡ (object ∷ s, after)
  run-hex_part s n =
      run_then (object ∷ s, text false) (show_hex n) (codes "\"")
        (run_plain (object ∷ s) false (show_hex n) (show_hex-IsPlain n)) refl

  run-gpu_entry :
      (s : List Frame) (ts : ℕ) (g : CudaEvent)
      → All IsPlain g.comm
      → run (array ∷ s, value) (gpu_entry P t ts g) ≡ (array ∷ s, after)
  unfolding gpu_entry
  run-gpu_entry s ts g clean =
      let o = object ∷ array ∷ s in
      let inner = object ∷ o in
      run_then (o, text false) (cuda_op_name g.op_type) _
        (run_plain o false (cuda_op_name g.op_type) (cuda_op_name-PlainText g.op_type).plain)
        (run_then (o, text false) (cuda_op_category g.op_type) _
          (run_plain o false (cuda_op_category g.op_type)
            (cuda_op_category-PlainText g.op_type).plain)
          (run_number o (fixed3 ts) b',' _ (fixed3-IsNumber ts) refl (
            run_number o (fixed3 g.duration_ns) b',' _ (fixed3-IsNumber g.duration_ns) refl (
              run_number o (show_dec g.pid) b',' _ (show_dec-IsNumber g.pid) refl (
                run_number o (show_dec (gpu_virtual_tid g)) b',' _
                  (show_dec-IsNumber (gpu_virtual_tid g)) refl
                  (run_number inner (show_int g.ret_val) b',' _ (show_int-IsNumber g.ret_val) refl (
                    run_then (inner, text false) g.comm _ (run_plain inner false g.comm clean)
                      members)))))))
    where
      stream_text : Bytes
      stream_text = codes ", \"stream_id\": \"0x" ++ (show_hex g.stream_id ++ codes "\"")

      ptr_text : Bytes
      ptr_text = codes ", \"ptr\": \"0x" ++ (show_hex g.ptr ++ codes "\"")

      stack : Bytes
      stack = stack_part P t g.stack_id g.pid ++ codes "}}"

      pointed : Bytes
      pointed = (if g.op_type == op_code free && g.ptr != 0 then ptr_text else []) ++ stack

      sized : Bytes
      sized = size_part P t g ++ pointed

      marked : Bytes
      marked =
          (if bit_and g.flags cuda_ev_flag_async == 0 then [] else codes ", \"async\": true")
          ++ sized

      members :
          run
            (object ∷ object ∷ array ∷ s, after)
            ((if g.stream_id == 0 then [] else stream_text) ++ marked)
          ≡ (array ∷ s, after)
      members =
          let o = object ∷ array ∷ s in
          let here : Config = (object ∷ o, after) in
          run_then here (if g.stream_id == 0 then [] else stream_text) marked
            (if-run o (g.stream_id == 0) stream_text (run-hex_part o g.stream_id))
            (run_then here
              (if bit_and g.flags cuda_ev_flag_async == 0 then [] else codes ", \"async\": true")
              sized
              (if-run o (bit_and g.flags cuda_ev_flag_async == 0) (codes ", \"async\": true") refl)
              (run_then here (size_part P t g) pointed (run-size_part o g) (
                run_then here (if g.op_type == op_code free && g.ptr != 0 then ptr_text else [])
                  stack
                  (if-run_then o (g.op_type == op_code free && g.ptr != 0) ptr_text
                    (run-hex_part o g.ptr))
                  (run_then here (stack_part P t g.stack_id g.pid) (codes "}}")
                    (run-stack_part o g.stack_id g.pid) refl))))

  pub on_entry-IsEntry :
      (ts : ℕ) (e : CpuSchedEvent) → All IsPlain e.comm → IsEntry (on_entry P t ts e)
  unfolding on_entry
  on_entry-IsEntry ts e clean s true = run-on_entry s ts e clean
  on_entry-IsEntry ts e clean s false = run-on_entry s ts e clean

  pub off_entry-IsEntry : (ts dur : ℕ) (e : CpuSchedEvent) → IsEntry (off_entry P t ts dur e)
  unfolding off_entry
  off_entry-IsEntry ts dur e s true = run-off_entry s ts dur e
  off_entry-IsEntry ts dur e s false = run-off_entry s ts dur e

  pub wakeup_entry-IsEntry : (ts : ℕ) (e : CpuSchedEvent) → IsEntry (wakeup_entry P t ts e)
  unfolding wakeup_entry
  wakeup_entry-IsEntry ts e s true = run-wakeup_entry s ts e
  wakeup_entry-IsEntry ts e s false = run-wakeup_entry s ts e

  pub gpu_entry-IsEntry :
      (ts : ℕ) (g : CudaEvent) → All IsPlain g.comm → IsEntry (gpu_entry P t ts g)
  unfolding gpu_entry
  gpu_entry-IsEntry ts g clean s true = run-gpu_entry s ts g clean
  gpu_entry-IsEntry ts g clean s false = run-gpu_entry s ts g clean
