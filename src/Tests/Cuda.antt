-- ===== src/Tests/Cuda.antt =====
-- The CUDA probes of src/bpf/trace_cuda.bpf.c on one process with two threads.
use local_ai_perf_analysis.Prelude.{
  ℕ, ℤ, pos, negsuc, true, List, [], ◌∷◌, ◌++◌, ◌≡◌, ◌+◌, ◌*◌, ◌^◌, refl, inl, arith, codes, All,
}
use local_ai_perf_analysis.Events.{CudaCallInfo, memcpy_async, stream_sync}
use local_ai_perf_analysis.BpfMap.{BpfMap}
use local_ai_perf_analysis.BpfMap.Bounded.{bounded, find, remove, has, fits, put}
use local_ai_perf_analysis.Cuda.{
  default_cfg, Firing, Kernel, maybe_capture_stack, sample_period, record_entry, submit_event,
  event_of,
}
use local_ai_perf_analysis.Cuda.Probes.{Fire, enter, leave, fire, run, entry_probe, return_probe}
use local_ai_perf_analysis.Cuda.Pairing.{run-call, nested_call_lost, call_event}
use local_ai_perf_analysis.Cuda.Invariant.{IsSound, run-IsSound}
use local_ai_perf_analysis.Cuda.Sampling.{
  captured-capture_all, async_never_sampled, capture_all, captured, alternate, seconds, ceil_div,
  Samples,
}

abbrev pub calls_map : BpfMap CudaCallInfo
calls_map = bounded CudaCallInfo 10240

abbrev pub empty_kernel : Kernel calls_map
empty_kernel = record { cuda_calls = []; stack_sample_counter = λ cpu. 0; cuda_events = [] }

-- Thread `tid` of process 7, at a time, with a stack to capture.
abbrev pub at_time : ℕ → ℕ → Firing
at_time tid ktime = record {
  pid_tgid = 7 * 2 ^ 32 + tid;
  processor = 0;
  ktime = ktime;
  stackid = pos 12;
  current_comm = codes "agent";
  parm1 = 0;
  parm2 = 0;
  parm3 = 4096;
  parm5 = 0x57;
  rc = 0;
  slot = true;
  room = true;
}

abbrev pub copy_start : Firing
copy_start = at_time 8 1000

abbrev pub copy_end : Firing
copy_end = at_time 8 1500

abbrev pub elsewhere : List Fire
elsewhere = enter stream_sync (at_time 9 1100) ∷ leave stream_sync (at_time 9 1400) ∷ []

run-call_example :
    (fire calls_map default_cfg (leave memcpy_async copy_end) (
      run calls_map default_cfg
        (enter memcpy_async copy_start ∷ elsewhere)
        empty_kernel)).cuda_events
    ≡ (run calls_map default_cfg
        (enter memcpy_async copy_start ∷ elsewhere)
        empty_kernel).cuda_events
      ++ call_event default_cfg memcpy_async copy_start copy_end (λ cpu. 0) ∷ []
unfolding has fits
run-call_example =
    (run-call calls_map default_cfg memcpy_async copy_start copy_end elsewhere empty_kernel
      (inl refl) refl (omega arith) refl refl (omega arith) (omega arith)).0

-- A synchronisation inside a copy on thread 8.
nested_call_lost_example :
    fire calls_map default_cfg (leave memcpy_async (at_time 8 2000)) (
      run calls_map default_cfg (leave stream_sync (at_time 8 1900) ∷ []) (
        run calls_map default_cfg
          (enter stream_sync (at_time 8 1600) ∷ [])
          (run calls_map default_cfg (enter memcpy_async copy_start ∷ []) empty_kernel)))
    ≡ run calls_map default_cfg (leave stream_sync (at_time 8 1900) ∷ []) (
        run calls_map default_cfg
          (enter stream_sync (at_time 8 1600) ∷ [])
          (run calls_map default_cfg (enter memcpy_async copy_start ∷ []) empty_kernel))
unfolding has fits
nested_call_lost_example =
    (nested_call_lost calls_map default_cfg memcpy_async stream_sync copy_start (at_time 8 1600)
      (at_time 8 1900) (at_time 8 2000) [] [] [] empty_kernel (inl refl) refl (refl, refl, refl) tt
      tt tt (refl, omega arith, omega arith)).1

empty-IsSound : IsSound calls_map default_cfg empty_kernel
unfolding find
empty-IsSound = record { calls = λ key info h. cc; events = tt }

run-IsSound_example :
    IsSound calls_map default_cfg
      (run calls_map default_cfg (enter memcpy_async copy_start ∷ elsewhere) empty_kernel)
run-IsSound_example =
    run-IsSound calls_map default_cfg (enter memcpy_async copy_start ∷ elsewhere) empty_kernel
      empty-IsSound

-- Ten asynchronous copies with the default period of 8: the stacks of the first and the ninth.
abbrev ten_copies : List (Firing × ℕ)
ten_copies =
    (copy_start, 1)
    ∷ (copy_start, 1)
    ∷ (copy_start, 1)
    ∷ (copy_start, 1)
    ∷ (copy_start, 1)
    ∷ (copy_start, 1)
    ∷ (copy_start, 1)
    ∷ (copy_start, 1)
    ∷ (copy_start, 1)
    ∷ (copy_start, 1)
    ∷ []

captured-capture_all_example :
    captured (capture_all default_cfg ten_copies (λ cpu. 0))
      + ceil_div 0 (sample_period default_cfg 1)
    ≡ ceil_div (0 + 10) (sample_period default_cfg 1)
captured-capture_all_example =
    captured-capture_all default_cfg 0 1 ten_copies (λ cpu. 0) (omega arith)
      (shown, (shown, (shown, (shown, (shown, (shown, (shown, (shown, (shown, (shown, tt))))))))))
      (omega arith)
  where
    shown : Samples 0 1 (copy_start, 1)
    shown = (refl, refl, refl, refl)

async_never_sampled_example :
    All
      (λ (a : ℤ). a ≡ negsuc 0)
      (seconds (
        capture_all default_cfg
          (alternate ((copy_start, copy_start) ∷ (copy_start, copy_end) ∷ []))
          (λ cpu. 0)))
async_never_sampled_example =
    async_never_sampled default_cfg 0 4 ((copy_start, copy_start) ∷ (copy_start, copy_end) ∷ [])
      (λ cpu. 0) (omega arith) refl (omega arith) refl
      ((refl, refl, refl, refl), ((refl, refl, refl, refl), tt))

-- The whole path of one copy, by evaluation: the first asynchronous call of a CPU is sampled.
copy_event :
    (run calls_map default_cfg
      (enter memcpy_async copy_start ∷ leave memcpy_async copy_end ∷ [])
      empty_kernel).cuda_events
    ≡ record {
      timestamp = 1000;
      duration_ns = 500;
      pid = 7;
      tid = 8;
      op_type = 6;
      size = 4096;
      ptr = 0;
      ret_val = pos 0;
      comm = codes "agent";
      stream_id = 0x57;
      stack_id = pos 12;
      flags = 3;
    }
      ∷ []
unfolding run fire entry_probe return_probe record_entry submit_event event_of maybe_capture_stack
    sample_period find put has fits remove
copy_event = refl
