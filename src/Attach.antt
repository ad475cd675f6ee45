-- ===== src/Attach.antt =====
-- src/user/unified_trace.c, main: the table of the CUDA uprobes and the loop that attaches them. What
-- libbpf answers is a parameter: whether the object has the program, and whether attaching it succeeds.
-- The result lists the links that were made.
pub mod Table
use local_ai_perf_analysis.Prelude.{
  ℕ, suc, Bool, true, false, List, [], ◌∷◌, Bytes, codes, ◌==◌, ◌&&◌, ◌||◌, leb,
}

-- An entry of the table: the function of the library and the BPF program.
pub data CudaFunc : Type 0 where
  cuda_func : Bytes → Bytes → CudaFunc

abbrev pub func_name : CudaFunc → Bytes
func_name (cuda_func f p) = f

abbrev pub probe_name : CudaFunc → Bytes
probe_name (cuda_func f p) = p

unfoldable pub cuda_funcs : List CudaFunc
cuda_funcs =
    cuda_func (codes "cudaMalloc") (codes "trace_cuda_malloc_entry")
    ∷ cuda_func (codes "cudaMalloc") (codes "trace_cuda_malloc_return")
    ∷ cuda_func (codes "cudaFree") (codes "trace_cuda_free_entry")
    ∷ cuda_func (codes "cudaFree") (codes "trace_cuda_free_return")
    ∷ cuda_func (codes "cudaMemcpy") (codes "trace_cuda_memcpy_entry")
    ∷ cuda_func (codes "cudaMemcpy") (codes "trace_cuda_memcpy_return")
    ∷ cuda_func (codes "cudaLaunchKernel") (codes "trace_cuda_launch_entry")
    ∷ cuda_func (codes "cudaLaunchKernel") (codes "trace_cuda_launch_return")
    ∷ cuda_func (codes "cudaDeviceSynchronize") (codes "trace_cuda_sync_entry")
    ∷ cuda_func (codes "cudaDeviceSynchronize") (codes "trace_cuda_sync_return")
    ∷ cuda_func (codes "cudaMemcpyAsync") (codes "trace_cuda_memcpy_async_entry")
    ∷ cuda_func (codes "cudaMemcpyAsync") (codes "trace_cuda_memcpy_async_return")
    ∷ cuda_func (codes "cudaStreamSynchronize") (codes "trace_cuda_stream_sync_entry")
    ∷ cuda_func (codes "cudaStreamSynchronize") (codes "trace_cuda_stream_sync_return")
    ∷ cuda_func (codes "cudaStreamCreate") (codes "trace_cuda_stream_create_entry")
    ∷ cuda_func (codes "cudaStreamCreate") (codes "trace_cuda_stream_create_return")
    ∷ cuda_func (codes "cudaStreamDestroy") (codes "trace_cuda_stream_destroy_entry")
    ∷ cuda_func (codes "cudaStreamDestroy") (codes "trace_cuda_stream_destroy_return")
    ∷ cuda_func (codes "cudaEventRecord") (codes "trace_cuda_event_record_entry")
    ∷ cuda_func (codes "cudaEventRecord") (codes "trace_cuda_event_record_return")
    ∷ cuda_func (codes "cudaEventSynchronize") (codes "trace_cuda_event_sync_entry")
    ∷ cuda_func (codes "cudaEventSynchronize") (codes "trace_cuda_event_sync_return")
    ∷ cuda_func (codes "cudaEventQuery") (codes "trace_cuda_event_query_entry")
    ∷ cuda_func (codes "cudaEventQuery") (codes "trace_cuda_event_query_return")
    ∷ cuda_func (codes "cudaLaunchKernelExC") (codes "trace_cuda_launch_ex_entry")
    ∷ cuda_func (codes "cudaLaunchKernelExC") (codes "trace_cuda_launch_ex_return")
    ∷ cuda_func (codes "cudaGraphLaunch") (codes "trace_cuda_graph_launch_entry")
    ∷ cuda_func (codes "cudaGraphLaunch") (codes "trace_cuda_graph_launch_return")
    ∷ []

-- strstr(text, part) != NULL
abbrev pub starts_with : Bytes → Bytes → Bool
starts_with [] text = true
starts_with (c ∷ part) [] = false
starts_with (c ∷ part) (d ∷ text) = c == d && starts_with part text

abbrev pub contains : Bytes → Bytes → Bool
contains part [] = starts_with part []
contains part (c ∷ text) = starts_with part (c ∷ text) || contains part text

abbrev pub is_retprobe : CudaFunc → Bool
is_retprobe f = contains (codes "return") (probe_name f)

-- The length of gpu_links.
abbrev pub gpu_links_cap : ℕ
gpu_links_cap = 32

module _ (finds : Bytes → Bool) (attaches : CudaFunc → Bool → Bool) where
  -- The loop, with `gpu_link_count` links made.
  unfoldable pub attach_from : ℕ → List CudaFunc → List (CudaFunc × Bool)
  attach_from gpu_link_count [] = []
  attach_from gpu_link_count (f ∷ l) = elim (leb gpu_links_cap gpu_link_count) [
    | true ↦ []
    | false ↦ elim (finds (probe_name f)) [
      | false ↦ attach_from gpu_link_count l
      | true ↦ elim (attaches f (is_retprobe f)) [
        | false ↦ attach_from gpu_link_count l
        | true ↦ (f, is_retprobe f) ∷ attach_from (suc gpu_link_count) l
      ]
    ]
  ]

  unfoldable pub attach_probes : List (CudaFunc × Bool)
  unfolding attach_from
  attach_probes = attach_from 0 cuda_funcs
