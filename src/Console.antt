-- ===== src/Console.antt =====
-- src/user/trace_cuda.c: cuda_op_name, print_size_human and handle_event, which prints one line for each CUDA event,
-- and the search for the CUDA library. `millis n` is what %.3f prints of n / 1000000.0.
pub mod Line
pub mod Text
pub mod Main
pub mod Delivery
pub mod Calls
use local_ai_perf_analysis.Prelude.{
  ℕ, ◌*◌, ◌/◌, ◌%◌, Bool, List, [], ◌∷◌, ◌++◌, Option, Bytes, codes, ◌==◌, ltb, if◌then◌else◌,
  nonneg, signed32,
}
use local_ai_perf_analysis.Events.{
  CudaEvent, op_code, malloc, free, memcpy, launch_kernel, sync, memcpy_async, stream_sync,
  stream_create, stream_destroy, event_record, event_sync, event_query, launch_kernel_ex,
  graph_launch,
}
use local_ai_perf_analysis.Printf.{FloatPrint, pad_right, zero_padded, show_dec, show_hex, show_int}
use local_ai_perf_analysis.Options.{first_present}

-- The switch of cuda_op_name.
unfoldable pub cuda_op_name : ℕ → Bytes
cuda_op_name op =
    if op == op_code malloc
    then codes "cudaMalloc"
    else if op == op_code free
    then codes "cudaFree"
    else if op == op_code memcpy
    then codes "cudaMemcpy"
    else if op == op_code launch_kernel
    then codes "cudaLaunchKernel"
    else if op == op_code sync
    then codes "cudaDeviceSynchronize"
    else if op == op_code memcpy_async
    then codes "cudaMemcpyAsync"
    else if op == op_code stream_sync
    then codes "cudaStreamSynchronize"
    else if op == op_code stream_create
    then codes "cudaStreamCreate"
    else if op == op_code stream_destroy
    then codes "cudaStreamDestroy"
    else if op == op_code event_record
    then codes "cudaEventRecord"
    else if op == op_code event_sync
    then codes "cudaEventSynchronize"
    else if op == op_code event_query
    then codes "cudaEventQuery"
    else if op == op_code launch_kernel_ex
    then codes "cudaLaunchKernelExC"
    else if op == op_code graph_launch
    then codes "cudaGraphLaunch"
    else codes "Unknown"

-- " name=0x%llx" without the blank.
abbrev pub hex_field : Bytes → ℕ → Bytes
hex_field label n = label ++ (codes "=0x" ++ show_hex n)

-- The two numbers of the time stamp: seconds, and microseconds with six digits.
unfoldable pub time_text : ℕ → Bytes × Bytes
unfolding zero_padded
time_text timestamp =
    (show_dec (timestamp / 1000000000), zero_padded 6 (timestamp % 1000000000 / 1000))

module _ (P : FloatPrint) (millis : ℕ → Bytes) where
  open P use {fixed2}

  unfoldable pub print_size_human : ℕ → Bytes
  print_size_human size =
      if ltb size 1024
      then show_dec size ++ codes " B"
      else if ltb size (1024 * 1024)
      then fixed2 size 1024 ++ codes " KB"
      else if ltb size (1024 * 1024 * 1024)
      then fixed2 size (1024 * 1024) ++ codes " MB"
      else fixed2 size (1024 * 1024 * 1024) ++ codes " GB"

  -- The switch over the operation.
  unfoldable pub details : CudaEvent → Bytes
  unfolding print_size_human
  details e =
      if e.op_type == op_code malloc
      then codes "size=" ++ print_size_human e.size
      else if e.op_type == op_code free
      then hex_field (codes "ptr") e.ptr
      else if e.op_type == op_code memcpy
      then codes "size=" ++ print_size_human e.size
      else if e.op_type == op_code memcpy_async
      then codes "size=" ++ (print_size_human e.size ++ hex_field (codes " stream") e.stream_id)
      else if e.op_type == op_code launch_kernel
      then hex_field (codes "kernel_launch func") e.ptr
      else if e.op_type == op_code launch_kernel_ex
      then codes "kernel_launch_ex"
      else if e.op_type == op_code graph_launch
      then hex_field (codes "graph_launch stream") e.stream_id
      else if e.op_type == op_code sync
      then codes "device_sync"
      else if e.op_type == op_code stream_sync
      then hex_field (codes "stream_sync stream") e.stream_id
      else if e.op_type == op_code stream_create
      then codes "stream_create"
      else if e.op_type == op_code stream_destroy
      then hex_field (codes "stream_destroy stream") e.stream_id
      else if e.op_type == op_code event_record
      then hex_field (codes "event_record event") e.ptr ++ hex_field (codes " stream") e.stream_id
      else if e.op_type == op_code event_sync
      then hex_field (codes "event_sync event") e.ptr
      else if e.op_type == op_code event_query
      then hex_field (codes "event_query event") e.ptr
      else []

  -- The line.
  unfoldable pub handle_event : CudaEvent → Bytes
  unfolding details time_text pad_right
  handle_event e =
      (time_text e.timestamp).0
      ++ (codes "."
          ++ ((time_text e.timestamp).1
              ++ (codes " "
                  ++ (pad_right 7 (show_int (signed32 e.pid))
                      ++ (codes " "
                          ++ (pad_right 7 (show_int (signed32 e.tid))
                              ++ (codes " "
                                  ++ (pad_right 16 e.comm
                                      ++ (codes " "
                                          ++ (pad_right 22 (cuda_op_name e.op_type)
                                              ++ (codes " "
                                                  ++ (details e
                                                      ++ (codes " duration="
                                                          ++ (millis e.duration_ns
                                                            ++ (codes " ms ret="
                                                            ++ (show_int e.ret_val
                                                            ++ ((if nonneg e.stack_id
                                                            then codes " stack_id="
                                                            ++ show_int e.stack_id
                                                            else [])
                                                            ++ codes "\n")))))))))))))))))

abbrev pub library_paths : List Bytes
library_paths =
    codes "/usr/local/cuda/lib64/libcudart.so"
    ∷ codes "/usr/lib/x86_64-linux-gnu/libcudart.so"
    ∷ codes "/usr/lib64/libcudart.so"
    ∷ codes "/usr/lib/libcudart.so"
    ∷ []

unfoldable pub find_cuda_library : (Bytes → Bool) → Option Bytes
unfolding first_present
find_cuda_library access = first_present access library_paths
