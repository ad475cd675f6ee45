-- ===== src/Cuda/Threads.antt =====
-- What each probe of src/bpf/trace_cuda.bpf.c records, as a table over the CUDA calls, and what the
-- firing of a probe on one thread does to the calls of others.
use native.Mathlib.Decide.{ℕ_discrete}
use local_ai_perf_analysis.Prelude.{
  ℕ, Bool, true, false, ◌+◌, true, false, List, [], ◌∷◌, ◌++◌, ◌≡◌, ◌≢◌, ◌⊎◌, refl, inl, inr, ◌∙◌,
  none, some, arith, if◌then◌else◌, bit_or, nonneg, Option-cases, Bool-cases, All, ==_ne,
}
use local_ai_perf_analysis.Events.{
  CudaCallInfo, CudaOpType, op_code, cuda_ev_flag_stack_sampled, malloc, free, memcpy,
  launch_kernel, memcpy_async, stream_sync, stream_create, stream_destroy, event_record, event_sync,
  event_query, launch_kernel_ex, graph_launch,
}
use local_ai_perf_analysis.BpfMap.{BpfMap}
use local_ai_perf_analysis.Cuda.{
  CudaTracerCfg, Firing, Kernel, record_entry, submit_event, event_of, maybe_capture_stack, pid_of,
}
use local_ai_perf_analysis.Cuda.Probes.{
  entry_probe, return_probe, Fire, enter, leave, firing, fire, run,
}

-- The calls that return before their work is done carry flag 1, all others 0.
abbrev pub flags_of : CudaOpType → ℕ
flags_of memcpy_async = 1
flags_of event_record = 1
flags_of launch_kernel_ex = 1
flags_of graph_launch = 1
flags_of _ = 0

-- The argument that holds a byte count, by the CUDA signatures; 0 if there is none.
abbrev pub size_of : CudaOpType → Firing → ℕ
size_of malloc fr = fr.parm2
size_of memcpy fr = fr.parm3
size_of memcpy_async fr = fr.parm3
size_of _ fr = 0

-- The argument that holds a device pointer, an event, a graph or a kernel.
abbrev pub ptr_of : CudaOpType → Firing → ℕ
ptr_of free fr = fr.parm1
ptr_of launch_kernel fr = fr.parm1
ptr_of stream_create fr = fr.parm1
ptr_of event_record fr = fr.parm1
ptr_of event_sync fr = fr.parm1
ptr_of event_query fr = fr.parm1
ptr_of launch_kernel_ex fr = fr.parm2
ptr_of graph_launch fr = fr.parm1
ptr_of _ fr = 0

-- The argument that holds a stream.
abbrev pub stream_of : CudaOpType → Firing → ℕ
stream_of memcpy_async fr = fr.parm5
stream_of stream_sync fr = fr.parm1
stream_of stream_destroy fr = fr.parm1
stream_of event_record fr = fr.parm2
stream_of graph_launch fr = fr.parm2
stream_of _ fr = 0

-- Whether the thread passes the filter.
abbrev pub IsTraced : CudaTracerCfg → ℕ → Type 0
IsTraced cfg pid_tgid = (cfg.target_pid ≡ 0) ⊎ (pid_of pid_tgid ≡ cfg.target_pid)

abbrev pub Foreign : ℕ → Fire → Type 0
Foreign key f = (firing f).pid_tgid ≢ key

-- What an entry probe stores for its call, given the counters.
unfoldable pub call_info : CudaTracerCfg → CudaOpType → Firing → (ℕ → ℕ) → CudaCallInfo
call_info cfg t fr n =
    let sid = (maybe_capture_stack cfg fr (flags_of t) n).0 in
    record {
      timestamp = fr.ktime;
      op_type = op_code t;
      pid = pid_of fr.pid_tgid;
      size = size_of t fr;
      ptr = ptr_of t fr;
      stream_id = stream_of t fr;
      stack_id = sid;
      flags = if nonneg sid then bit_or (flags_of t) cuda_ev_flag_stack_sampled else flags_of t;
    }

pub call_info-flags :
    (t : CudaOpType) (b : Bool)
    → (if b then bit_or (flags_of t) 2 else flags_of t) ≡ flags_of t + (if b then 2 else 0)
call_info-flags malloc true = refl
call_info-flags malloc false = refl
call_info-flags _ true = refl
call_info-flags _ false = refl

module _ (B : BpfMap CudaCallInfo) where
  open B use {lookup, update, delete, accepts, lookup-update, lookup-delete}

  pub entry_probe_lem :
      (t : CudaOpType) (cfg : CudaTracerCfg) (fr : Firing) (k : Kernel B)
      → entry_probe B t cfg fr k
        ≡ record_entry B cfg fr
            (op_code t)
            (flags_of t)
            (size_of t fr)
            (ptr_of t fr)
            (stream_of t fr)
            k
  unfolding entry_probe
  entry_probe_lem malloc cfg fr k = refl
  entry_probe_lem _ cfg fr k = refl

  pub return_probe_lem :
      (t : CudaOpType) (fr : Firing) (k : Kernel B)
      → return_probe B t fr k ≡ submit_event B fr (op_code t) k
  unfolding return_probe
  return_probe_lem malloc fr k = refl
  return_probe_lem _ fr k = refl

  -- A filtered thread changes nothing; a traced one stores its call and counts.
  pub enter_traced :
      (cfg : CudaTracerCfg) (t : CudaOpType) (fr : Firing) (k : Kernel B)
      → IsTraced cfg fr.pid_tgid
      → fire B cfg (enter t fr) k ≡ record k {
        cuda_calls = update k.cuda_calls fr.pid_tgid (call_info cfg t fr k.stack_sample_counter);
        stack_sample_counter = (maybe_capture_stack cfg fr (flags_of t) k.stack_sample_counter).1;
      }
  unfolding fire record_entry call_info
  enter_traced cfg t fr k h = rw (entry_probe_lem t cfg fr k, fire) (ground arith)

  pub enter_filtered :
      (cfg : CudaTracerCfg) (t : CudaOpType) (fr : Firing) (k : Kernel B)
      → cfg.target_pid ≢ 0
      → pid_of fr.pid_tgid ≢ cfg.target_pid
      → fire B cfg (enter t fr) k ≡ k
  unfolding fire record_entry
  enter_filtered cfg t fr k h g = rw (entry_probe_lem t cfg fr k, fire) (ground arith)

  -- A return probe of a call that is not recorded changes nothing.
  pub leave_unknown :
      (cfg : CudaTracerCfg) (t : CudaOpType) (fr : Firing) (k : Kernel B)
      → lookup k.cuda_calls fr.pid_tgid ≡ none
      → fire B cfg (leave t fr) k ≡ k
  unfolding fire submit_event
  leave_unknown cfg t fr k h = rw (return_probe_lem t fr k, fire, submit_event, h) refl

  -- One of the call that is recorded submits its event and forgets it.
  pub leave_known :
      (cfg : CudaTracerCfg) (t : CudaOpType) (fr : Firing) (k : Kernel B) (info : CudaCallInfo)
      → lookup k.cuda_calls fr.pid_tgid ≡ some info
      → info.op_type ≡ op_code t
      → fr.room ≡ true
      → fire B cfg (leave t fr) k ≡ record k {
        cuda_calls = delete k.cuda_calls fr.pid_tgid;
        cuda_events = k.cuda_events ++ event_of fr (op_code t) info ∷ [];
      }
  unfolding fire submit_event
  leave_known cfg t fr k info h e room = rw (return_probe_lem t fr k, fire) (ground arith)

  -- One of another call, or one that finds the ring buffer full, only forgets the record.
  pub leave_dropped :
      (cfg : CudaTracerCfg) (t : CudaOpType) (fr : Firing) (k : Kernel B) (info : CudaCallInfo)
      → lookup k.cuda_calls fr.pid_tgid ≡ some info
      → (info.op_type ≢ op_code t) ⊎ (fr.room ≡ false)
      → fire B cfg (leave t fr) k ≡ record k { cuda_calls = delete k.cuda_calls fr.pid_tgid }
  unfolding fire submit_event
  leave_dropped cfg t fr k info h e = rw (return_probe_lem t fr k, fire) (ground arith)

  pub filter-cases :
      (cfg : CudaTracerCfg) (key : ℕ)
      → IsTraced cfg key ⊎ ((cfg.target_pid ≢ 0) × (pid_of key ≢ cfg.target_pid))
  filter-cases cfg key = grind arith

  -- What a return probe may do: nothing, submit and forget, or forget.
  pub leave-cases :
      (cfg : CudaTracerCfg) (t : CudaOpType) (fr : Firing) (k : Kernel B)
      → (fire B cfg (leave t fr) k ≡ k)
        ⊎ ((info : CudaCallInfo) × (lookup k.cuda_calls fr.pid_tgid ≡ some info)
            × (info.op_type ≡ op_code t)
            × (fire B cfg (leave t fr) k ≡ record k {
              cuda_calls = delete k.cuda_calls fr.pid_tgid;
              cuda_events = k.cuda_events ++ event_of fr (op_code t) info ∷ [];
            }))
        ⊎ (fire B cfg (leave t fr) k ≡ record k { cuda_calls = delete k.cuda_calls fr.pid_tgid })
  leave-cases cfg t fr k = elim (Option-cases (lookup k.cuda_calls fr.pid_tgid)) [
    | inl e ↦ inl (leave_unknown cfg t fr k e)
    | inr (info, e) ↦ elim (ℕ_discrete info.op_type (op_code t)) [
      | no g ↦ inr (inr (leave_dropped cfg t fr k info e (inl g)))
      | yes g ↦ elim (Bool-cases fr.room) [
        | inl room ↦ inr (inl (info, e, g, leave_known cfg t fr k info e g room))
        | inr full ↦ inr (inr (leave_dropped cfg t fr k info e (inr full)))
      ]
    ]
  ]

  -- No firing on another thread touches the record of a thread.
  pub lookup-fire-Foreign :
      (cfg : CudaTracerCfg) (key : ℕ) (f : Fire) (k : Kernel B)
      → Foreign key f
      → lookup (fire B cfg f k).cuda_calls key ≡ lookup k.cuda_calls key
  lookup-fire-Foreign cfg key (enter t fr) k h = elim (filter-cases cfg fr.pid_tgid) [
    | inr (a, b) ↦ rw (enter_filtered cfg t fr k a b) refl
    | inl traced ↦ rw (enter_traced cfg t fr k traced, lookup-update, ==_ne _ _ h) refl
  ]
  lookup-fire-Foreign cfg key (leave t fr) k h = elim (leave-cases cfg t fr k) [
    | inl e ↦ rw e refl
    | inr (inl (info, _, _, e)) ↦ rw (e, lookup-delete, ==_ne _ _ h) refl
    | inr (inr e) ↦ rw (e, lookup-delete, ==_ne _ _ h) refl
  ]

  pub lookup-run-Foreign :
      (cfg : CudaTracerCfg) (key : ℕ) (fs : List Fire) (k : Kernel B)
      → All (Foreign key) fs
      → lookup (run B cfg fs k).cuda_calls key ≡ lookup k.cuda_calls key
  unfolding run
  lookup-run-Foreign cfg key [] k h = refl
  lookup-run-Foreign cfg key (f ∷ fs) k (hf, hs) =
      lookup-run-Foreign cfg key fs (fire B cfg f k) hs ∙ lookup-fire-Foreign cfg key f k hf
