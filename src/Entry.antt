-- ===== src/Entry.antt =====
-- src/user/unified_trace.c, output_chrome_tracing_json: the text of one entry of each kind, and the row of a CUDA event.
use local_ai_perf_analysis.Prelude.{
  ℕ, ℤ, [], ◌++◌, ◌+◌, ◌*◌, ◌/◌, ◌%◌, ◌^◌, Bytes, codes, ◌==◌, ◌!=◌, ◌&&◌, ◌||◌, leb, if◌then◌else◌,
  nonneg, u32_mod, bit_and, bit_xor,
}
use local_ai_perf_analysis.Events.{
  CpuSchedEvent, CudaEvent, op_code, malloc, free, memcpy, memcpy_async, cuda_ev_flag_async,
}
use local_ai_perf_analysis.Printf.{FloatPrint, show_dec, show_hex, show_int}
use local_ai_perf_analysis.Stacks.{Tool, emit_stack_json}
use local_ai_perf_analysis.CudaOps.{cuda_op_name, cuda_op_category}

-- The low byte of the two halves of the stream's handle, mixed; 0 is kept for the default stream.
unfoldable pub stream_offset : ℕ → ℕ
stream_offset s =
    if s == 0
    then 0
    else let mixed = bit_xor s (s / 2 ^ 32) % 2 ^ 8 in if mixed == 0 then 1 else mixed

unfoldable pub gpu_virtual_tid : CudaEvent → ℕ
unfolding stream_offset
gpu_virtual_tid g = (g.tid + 1000000 + stream_offset g.stream_id) % u32_mod

module _ (P : FloatPrint) (t : Tool) where
  open P use {fixed3, fixed2}

  unfoldable pub stack_part : ℤ → ℕ → Bytes
  stack_part stack_id pid =
      if nonneg stack_id then codes ", \"stack\": " ++ emit_stack_json t stack_id pid else []

  unfoldable pub on_entry : ℕ → CpuSchedEvent → Bytes
  unfolding stack_part
  on_entry ts e =
      codes "    {\"name\": \"On-CPU\", \"cat\": \"cpu\", \"ph\": \"B\", \"ts\": "
      ++ (fixed3 ts
          ++ (codes ", \"pid\": "
              ++ (show_dec e.pid
                  ++ (codes ", \"tid\": "
                      ++ (show_dec e.tid
                          ++ (codes ", \"args\": {\"cpu\": "
                              ++ (show_dec e.cpu
                                  ++ (codes ", \"comm\": \""
                                      ++ (e.comm
                                          ++ (codes "\""
                                              ++ (stack_part e.stack_id e.pid
                                                  ++ codes "}}")))))))))))

  unfoldable pub off_entry : ℕ → ℕ → CpuSchedEvent → Bytes
  off_entry ts dur e =
      codes "    {\"name\": \"On-CPU\", \"cat\": \"cpu\", \"ph\": \"E\", \"ts\": "
      ++ (fixed3 ts
          ++ (codes ", \"pid\": "
              ++ (show_dec e.pid
                  ++ (codes ", \"tid\": "
                      ++ (show_dec e.tid
                          ++ (codes ", \"args\": {\"duration_us\": "
                              ++ (fixed3 dur
                                  ++ (codes ", \"state\": "
                                      ++ (show_dec e.prev_state ++ codes "}}")))))))))

  unfoldable pub wakeup_entry : ℕ → CpuSchedEvent → Bytes
  wakeup_entry ts e =
      codes "    {\"name\": \"Wakeup\", \"cat\": \"cpu\", \"ph\": \"i\", \"ts\": "
      ++ (fixed3 ts
          ++ (codes ", \"pid\": "
              ++ (show_dec e.pid
                  ++ (codes ", \"tid\": " ++ (show_dec e.tid ++ codes ", \"s\": \"t\"}")))))

  -- The readable size: GB, MB, KB or bytes.
  unfoldable pub size_text : ℕ → Bytes
  size_text size =
      if leb (1024 * 1024 * 1024) size
      then fixed2 size (1024 * 1024 * 1024) ++ codes " GB"
      else if leb (1024 * 1024) size
      then fixed2 size (1024 * 1024) ++ codes " MB"
      else if leb 1024 size
      then fixed2 size 1024 ++ codes " KB"
      else show_dec size ++ codes " B"

  unfoldable pub size_part : CudaEvent → Bytes
  unfolding size_text
  size_part g =
      if g.op_type == op_code malloc
        || (g.op_type == op_code memcpy || g.op_type == op_code memcpy_async)
      then codes ", \"size_bytes\": "
        ++ (show_dec g.size ++ (codes ", \"size\": \"" ++ (size_text g.size ++ codes "\"")))
      else []

  unfoldable pub gpu_entry : ℕ → CudaEvent → Bytes
  unfolding size_part stack_part gpu_virtual_tid cuda_op_name cuda_op_category
  gpu_entry ts g =
      codes "    {\"name\": \""
      ++ (cuda_op_name g.op_type
          ++ (codes "\", \"cat\": \""
              ++ (cuda_op_category g.op_type
                  ++ (codes "\", \"ph\": \"X\", \"ts\": "
                      ++ (fixed3 ts
                          ++ (codes ", \"dur\": "
                              ++ (fixed3 g.duration_ns
                                  ++ (codes ", \"pid\": "
                                      ++ (show_dec g.pid
                                          ++ (codes ", \"tid\": "
                                              ++ (show_dec (gpu_virtual_tid g)
                                                  ++ (codes ", \"args\": {\"ret\": "
                                                      ++ (show_int g.ret_val
                                                          ++ (codes ", \"comm\": \""
                                                            ++ (g.comm
                                                            ++ (codes "\""
                                                            ++ ((if g.stream_id == 0
                                                            then []
                                                            else codes ", \"stream_id\": \"0x"
                                                            ++ (show_hex g.stream_id ++ codes "\""))
                                                            ++ ((if bit_and g.flags
                                                            cuda_ev_flag_async
                                                            == 0
                                                            then []
                                                            else codes ", \"async\": true")
                                                            ++ (size_part g
                                                            ++ ((if g.op_type == op_code free
                                                            && g.ptr != 0
                                                            then codes ", \"ptr\": \"0x"
                                                            ++ (show_hex g.ptr ++ codes "\"")
                                                            else [])
                                                            ++ (stack_part g.stack_id g.pid
                                                            ++ codes "}}")))))))))))))))))))))
