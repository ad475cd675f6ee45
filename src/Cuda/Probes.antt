-- ===== src/Cuda/Probes.antt =====
-- src/bpf/trace_cuda.bpf.c: the uprobe and uretprobe programs, one entry and one return probe for
-- each traced CUDA call, and the sequences in which they fire.
use local_ai_perf_analysis.Prelude.{ℕ, List, [], ◌∷◌}
use local_ai_perf_analysis.Events.{
  CudaCallInfo, CudaOpType, op_code, cuda_ev_flag_async, malloc, free, memcpy, launch_kernel, sync,
  memcpy_async, stream_sync, stream_create, stream_destroy, event_record, event_sync, event_query,
  launch_kernel_ex, graph_launch,
}
use local_ai_perf_analysis.BpfMap.{BpfMap}
use local_ai_perf_analysis.Cuda.{CudaTracerCfg, Firing, Kernel, record_entry, submit_event}

module _ (B : BpfMap CudaCallInfo) where
  unfoldable pub trace_cuda_malloc_entry : CudaTracerCfg → Firing → Kernel B → ℕ × Kernel B
  trace_cuda_malloc_entry cfg fr = record_entry B cfg fr (op_code malloc) 0 fr.parm2 0 0

  unfoldable pub trace_cuda_malloc_return : Firing → Kernel B → ℕ × Kernel B
  trace_cuda_malloc_return fr = submit_event B fr (op_code malloc)

  unfoldable pub trace_cuda_free_entry : CudaTracerCfg → Firing → Kernel B → ℕ × Kernel B
  trace_cuda_free_entry cfg fr = record_entry B cfg fr (op_code free) 0 0 fr.parm1 0

  unfoldable pub trace_cuda_free_return : Firing → Kernel B → ℕ × Kernel B
  trace_cuda_free_return fr = submit_event B fr (op_code free)

  unfoldable pub trace_cuda_memcpy_entry : CudaTracerCfg → Firing → Kernel B → ℕ × Kernel B
  trace_cuda_memcpy_entry cfg fr = record_entry B cfg fr (op_code memcpy) 0 fr.parm3 0 0

  unfoldable pub trace_cuda_memcpy_return : Firing → Kernel B → ℕ × Kernel B
  trace_cuda_memcpy_return fr = submit_event B fr (op_code memcpy)

  unfoldable pub trace_cuda_launch_entry : CudaTracerCfg → Firing → Kernel B → ℕ × Kernel B
  trace_cuda_launch_entry cfg fr = record_entry B cfg fr (op_code launch_kernel) 0 0 fr.parm1 0

  unfoldable pub trace_cuda_launch_return : Firing → Kernel B → ℕ × Kernel B
  trace_cuda_launch_return fr = submit_event B fr (op_code launch_kernel)

  unfoldable pub trace_cuda_sync_entry : CudaTracerCfg → Firing → Kernel B → ℕ × Kernel B
  trace_cuda_sync_entry cfg fr = record_entry B cfg fr (op_code sync) 0 0 0 0

  unfoldable pub trace_cuda_sync_return : Firing → Kernel B → ℕ × Kernel B
  trace_cuda_sync_return fr = submit_event B fr (op_code sync)

  unfoldable pub trace_cuda_memcpy_async_entry : CudaTracerCfg → Firing → Kernel B → ℕ × Kernel B
  trace_cuda_memcpy_async_entry cfg fr =
      record_entry B cfg fr (op_code memcpy_async) cuda_ev_flag_async fr.parm3 0 fr.parm5

  unfoldable pub trace_cuda_memcpy_async_return : Firing → Kernel B → ℕ × Kernel B
  trace_cuda_memcpy_async_return fr = submit_event B fr (op_code memcpy_async)

  unfoldable pub trace_cuda_stream_sync_entry : CudaTracerCfg → Firing → Kernel B → ℕ × Kernel B
  trace_cuda_stream_sync_entry cfg fr = record_entry B cfg fr (op_code stream_sync) 0 0 0 fr.parm1

  unfoldable pub trace_cuda_stream_sync_return : Firing → Kernel B → ℕ × Kernel B
  trace_cuda_stream_sync_return fr = submit_event B fr (op_code stream_sync)

  unfoldable pub trace_cuda_stream_create_entry : CudaTracerCfg → Firing → Kernel B → ℕ × Kernel B
  trace_cuda_stream_create_entry cfg fr =
      record_entry B cfg fr (op_code stream_create) 0 0 fr.parm1 0

  unfoldable pub trace_cuda_stream_create_return : Firing → Kernel B → ℕ × Kernel B
  trace_cuda_stream_create_return fr = submit_event B fr (op_code stream_create)

  unfoldable pub trace_cuda_stream_destroy_entry : CudaTracerCfg → Firing → Kernel B → ℕ × Kernel B
  trace_cuda_stream_destroy_entry cfg fr =
      record_entry B cfg fr (op_code stream_destroy) 0 0 0 fr.parm1

  unfoldable pub trace_cuda_stream_destroy_return : Firing → Kernel B → ℕ × Kernel B
  trace_cuda_stream_destroy_return fr = submit_event B fr (op_code stream_destroy)

  unfoldable pub trace_cuda_event_record_entry : CudaTracerCfg → Firing → Kernel B → ℕ × Kernel B
  trace_cuda_event_record_entry cfg fr =
      record_entry B cfg fr (op_code event_record) cuda_ev_flag_async 0 fr.parm1 fr.parm2

  unfoldable pub trace_cuda_event_record_return : Firing → Kernel B → ℕ × Kernel B
  trace_cuda_event_record_return fr = submit_event B fr (op_code event_record)

  unfoldable pub trace_cuda_event_sync_entry : CudaTracerCfg → Firing → Kernel B → ℕ × Kernel B
  trace_cuda_event_sync_entry cfg fr = record_entry B cfg fr (op_code event_sync) 0 0 fr.parm1 0

  unfoldable pub trace_cuda_event_sync_return : Firing → Kernel B → ℕ × Kernel B
  trace_cuda_event_sync_return fr = submit_event B fr (op_code event_sync)

  unfoldable pub trace_cuda_event_query_entry : CudaTracerCfg → Firing → Kernel B → ℕ × Kernel B
  trace_cuda_event_query_entry cfg fr = record_entry B cfg fr (op_code event_query) 0 0 fr.parm1 0

  unfoldable pub trace_cuda_event_query_return : Firing → Kernel B → ℕ × Kernel B
  trace_cuda_event_query_return fr = submit_event B fr (op_code event_query)

  unfoldable pub trace_cuda_launch_ex_entry : CudaTracerCfg → Firing → Kernel B → ℕ × Kernel B
  trace_cuda_launch_ex_entry cfg fr =
      record_entry B cfg fr (op_code launch_kernel_ex) cuda_ev_flag_async 0 fr.parm2 0

  unfoldable pub trace_cuda_launch_ex_return : Firing → Kernel B → ℕ × Kernel B
  trace_cuda_launch_ex_return fr = submit_event B fr (op_code launch_kernel_ex)

  unfoldable pub trace_cuda_graph_launch_entry : CudaTracerCfg → Firing → Kernel B → ℕ × Kernel B
  trace_cuda_graph_launch_entry cfg fr =
      record_entry B cfg fr (op_code graph_launch) cuda_ev_flag_async 0 fr.parm1 fr.parm2

  unfoldable pub trace_cuda_graph_launch_return : Firing → Kernel B → ℕ × Kernel B
  trace_cuda_graph_launch_return fr = submit_event B fr (op_code graph_launch)

  -- The probe on the entry of a call, and the one on its return.
  unfoldable pub entry_probe : CudaOpType → CudaTracerCfg → Firing → Kernel B → ℕ × Kernel B
  unfolding trace_cuda_malloc_entry trace_cuda_free_entry trace_cuda_memcpy_entry
      trace_cuda_launch_entry trace_cuda_sync_entry trace_cuda_memcpy_async_entry
      trace_cuda_stream_sync_entry trace_cuda_stream_create_entry trace_cuda_stream_destroy_entry
      trace_cuda_event_record_entry trace_cuda_event_sync_entry trace_cuda_event_query_entry
      trace_cuda_launch_ex_entry trace_cuda_graph_launch_entry
  entry_probe malloc = trace_cuda_malloc_entry
  entry_probe free = trace_cuda_free_entry
  entry_probe memcpy = trace_cuda_memcpy_entry
  entry_probe launch_kernel = trace_cuda_launch_entry
  entry_probe sync = trace_cuda_sync_entry
  entry_probe memcpy_async = trace_cuda_memcpy_async_entry
  entry_probe stream_sync = trace_cuda_stream_sync_entry
  entry_probe stream_create = trace_cuda_stream_create_entry
  entry_probe stream_destroy = trace_cuda_stream_destroy_entry
  entry_probe event_record = trace_cuda_event_record_entry
  entry_probe event_sync = trace_cuda_event_sync_entry
  entry_probe event_query = trace_cuda_event_query_entry
  entry_probe launch_kernel_ex = trace_cuda_launch_ex_entry
  entry_probe graph_launch = trace_cuda_graph_launch_entry

  unfoldable pub return_probe : CudaOpType → Firing → Kernel B → ℕ × Kernel B
  unfolding trace_cuda_malloc_return trace_cuda_free_return trace_cuda_memcpy_return
      trace_cuda_launch_return trace_cuda_sync_return trace_cuda_memcpy_async_return
      trace_cuda_stream_sync_return trace_cuda_stream_create_return trace_cuda_stream_destroy_return
      trace_cuda_event_record_return trace_cuda_event_sync_return trace_cuda_event_query_return
      trace_cuda_launch_ex_return trace_cuda_graph_launch_return
  return_probe malloc = trace_cuda_malloc_return
  return_probe free = trace_cuda_free_return
  return_probe memcpy = trace_cuda_memcpy_return
  return_probe launch_kernel = trace_cuda_launch_return
  return_probe sync = trace_cuda_sync_return
  return_probe memcpy_async = trace_cuda_memcpy_async_return
  return_probe stream_sync = trace_cuda_stream_sync_return
  return_probe stream_create = trace_cuda_stream_create_return
  return_probe stream_destroy = trace_cuda_stream_destroy_return
  return_probe event_record = trace_cuda_event_record_return
  return_probe event_sync = trace_cuda_event_sync_return
  return_probe event_query = trace_cuda_event_query_return
  return_probe launch_kernel_ex = trace_cuda_launch_ex_return
  return_probe graph_launch = trace_cuda_graph_launch_return

-- A probe that fires: on the entry or the return of a call.
pub data Fire : Type 0 where
  enter : CudaOpType → Firing → Fire
  leave : CudaOpType → Firing → Fire

abbrev pub firing : Fire → Firing
firing (enter t fr) = fr
firing (leave t fr) = fr

module _ (B : BpfMap CudaCallInfo) (cfg : CudaTracerCfg) where
  -- The state after one firing; the value that a probe returns is ignored by the kernel.
  unfoldable pub fire : Fire → Kernel B → Kernel B
  fire (enter t fr) k = (entry_probe B t cfg fr k).1
  fire (leave t fr) k = (return_probe B t fr k).1

  unfoldable pub run : List Fire → Kernel B → Kernel B
  run [] k = k
  run (f ∷ fs) k = run fs (fire f k)
