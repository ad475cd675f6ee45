-- ===== src/CudaOps.antt =====
-- src/user/unified_trace.c: cuda_op_name and cuda_op_category.
pub mod Labels
use local_ai_perf_analysis.Prelude.{ℕ, Bytes, codes, ◌==◌, ◌||◌, if◌then◌else◌}
use local_ai_perf_analysis.Events.{
  op_code, malloc, free, memcpy, launch_kernel, sync, memcpy_async, stream_sync, stream_create,
  stream_destroy, event_record, event_sync, event_query, launch_kernel_ex, graph_launch,
}

-- The switch of cuda_op_name.
unfoldable pub cuda_op_name : ℕ → Bytes
cuda_op_name op =
    if op == op_code malloc
    then codes "cudaMalloc"
    else if op == op_code free
    then codes "cudaFree"
    else if op == op_code memcpy
    then codes "cudaMemcpy"
    else if op == op_code launch_kernel
    then codes "cudaLaunchKernel"
    else if op == op_code sync
    then codes "cudaDeviceSynchronize"
    else if op == op_code memcpy_async
    then codes "cudaMemcpyAsync"
    else if op == op_code stream_sync
    then codes "cudaStreamSynchronize"
    else if op == op_code stream_create
    then codes "cudaStreamCreate"
    else if op == op_code stream_destroy
    then codes "cudaStreamDestroy"
    else if op == op_code event_record
    then codes "cudaEventRecord"
    else if op == op_code event_sync
    then codes "cudaEventSynchronize"
    else if op == op_code event_query
    then codes "cudaEventQuery"
    else if op == op_code launch_kernel_ex
    then codes "cudaLaunchKernelExC"
    else if op == op_code graph_launch
    then codes "cudaGraphLaunch"
    else codes "Unknown"

unfoldable pub cuda_op_category : ℕ → Bytes
cuda_op_category op =
    if op == op_code sync || (op == op_code stream_sync || op == op_code event_sync)
    then codes "gpu_sync"
    else if op == op_code memcpy || op == op_code memcpy_async
    then codes "gpu_xfer"
    else if op == op_code launch_kernel
        || (op == op_code launch_kernel_ex || op == op_code graph_launch)
    then codes "gpu_compute"
    else if op == op_code malloc || op == op_code free
    then codes "gpu_mem"
    else codes "gpu"
