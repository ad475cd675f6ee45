-- ===== src/Cuda/Invariant.antt =====
-- src/bpf/trace_cuda.bpf.c: what holds of every in-flight call and of every submitted event,
-- whatever probes fire, in whatever order, on whatever threads.
use local_ai_perf_analysis.Prelude.{
  ℕ, List, [], ◌∷◌, ◌≡◌, inl, inr, refl, sym, ◌∙◌, some, arith, ◌==◌, ◌+◌, ◌&&◌, if◌then◌else◌,
  nonneg, All, All-append, Bool-cases,
}
use local_ai_perf_analysis.Events.{CudaCallInfo, CudaEvent, CudaOpType, op_code}
use local_ai_perf_analysis.BpfMap.{BpfMap}
use local_ai_perf_analysis.Cuda.{
  CudaTracerCfg, Firing, Kernel, maybe_capture_stack, event_of, pid_of, tid_of,
}
use local_ai_perf_analysis.Cuda.Probes.{Fire, enter, leave, fire, run}
use local_ai_perf_analysis.Cuda.Threads.{
  IsTraced, flags_of, call_info, call_info-flags, enter_traced, enter_filtered, filter-cases,
  leave-cases,
}

-- The record of a call of thread `key`: its thread passes the filter, the process id is the
-- thread's, and for one of the traced operations the flags say whether it is asynchronous (1) and
-- whether a stack was captured (2), the latter exactly when the stack id is not negative.
pub record IsGenuineCall (cfg : CudaTracerCfg) (key : ℕ) (info : CudaCallInfo) : Type 0 where
  pub traced : IsTraced cfg key
  pub pid_ok : info.pid ≡ pid_of key
  pub op : CudaOpType
  pub op_ok : info.op_type ≡ op_code op
  pub flags_ok : info.flags ≡ flags_of op + (if nonneg info.stack_id then 2 else 0)

-- The same of an event, for the thread that submitted it.
pub record IsGenuineEvent (cfg : CudaTracerCfg) (ev : CudaEvent) : Type 0 where
  pub key : ℕ
  pub traced : IsTraced cfg key
  pub pid_ok : ev.pid ≡ pid_of key
  pub tid_ok : ev.tid ≡ tid_of key
  pub op : CudaOpType
  pub op_ok : ev.op_type ≡ op_code op
  pub flags_ok : ev.flags ≡ flags_of op + (if nonneg ev.stack_id then 2 else 0)

call_info-IsGenuineCall :
    (cfg : CudaTracerCfg) (t : CudaOpType) (fr : Firing) (n : ℕ → ℕ)
    → IsTraced cfg fr.pid_tgid
    → IsGenuineCall cfg fr.pid_tgid (call_info cfg t fr n)
unfolding call_info
call_info-IsGenuineCall cfg t fr n traced = record {
  traced = traced;
  pid_ok = refl;
  op = t;
  op_ok = refl;
  flags_ok = call_info-flags t (nonneg (maybe_capture_stack cfg fr (flags_of t) n).0);
}

event_of-IsGenuineEvent :
    (cfg : CudaTracerCfg) (fr : Firing) (op_type : ℕ) (info : CudaCallInfo)
    → IsGenuineCall cfg fr.pid_tgid info
    → info.op_type ≡ op_type
    → IsGenuineEvent cfg (event_of fr op_type info)
unfolding event_of
event_of-IsGenuineEvent cfg fr op_type info g e = record {
  key = fr.pid_tgid;
  traced = g.traced;
  pid_ok = g.pid_ok;
  tid_ok = refl;
  op = g.op;
  op_ok = sym e ∙ g.op_ok;
  flags_ok = g.flags_ok;
}

module _ (B : BpfMap CudaCallInfo) (cfg : CudaTracerCfg) where
  open B use {lookup, update, delete, accepts, lookup-update, lookup-delete}

  pub record IsSound (k : Kernel B) : Type 0 where
    pub calls :
        (key : ℕ) (info : CudaCallInfo)
        → lookup k.cuda_calls key ≡ some info
        → IsGenuineCall cfg key info
    pub events : All (IsGenuineEvent cfg) k.cuda_events

  delete-calls :
      (k : Kernel B) (j : ℕ)
      → IsSound k
      → (key : ℕ) (info : CudaCallInfo) → lookup (delete k.cuda_calls j) key ≡ some info
      → IsGenuineCall cfg key info
  delete-calls k j s key info h = elim (Bool-cases (j == key)) [
    | inl hit ↦ absurd (ground (arith, lookup-delete k.cuda_calls j key))
    | inr miss ↦ s.calls key info (ground (arith, lookup-delete k.cuda_calls j key))
  ]

  update-calls :
      (k : Kernel B) (j : ℕ) (new : CudaCallInfo)
      → IsSound k
      → IsGenuineCall cfg j new
      → (key : ℕ) (info : CudaCallInfo) → lookup (update k.cuda_calls j new) key ≡ some info
      → IsGenuineCall cfg key info
  update-calls k j new s g key info h = elim (Bool-cases ((j == key) && accepts k.cuda_calls j)) [
    | inl hit ↦
        let same : new ≡ info = ground (arith, lookup-update k.cuda_calls j new key) in
        let here : j ≡ key = ground arith in rw (← same, ← here) g
    | inr miss ↦ s.calls key info (ground (arith, lookup-update k.cuda_calls j new key))
  ]

  fire-IsSound : (f : Fire) (k : Kernel B) → IsSound k → IsSound (fire B cfg f k)
  fire-IsSound (enter t fr) k s = elim (filter-cases B cfg fr.pid_tgid) [
    | inr (a, b) ↦ rw (enter_filtered B cfg t fr k a b) s
    | inl traced ↦ rw (enter_traced B cfg t fr k traced) (record {
      calls =
          update-calls k fr.pid_tgid _ s
            (call_info-IsGenuineCall cfg t fr k.stack_sample_counter traced);
      events = s.events;
    })
  ]
  fire-IsSound (leave t fr) k s = elim (leave-cases B cfg t fr k) [
    | inl e ↦ rw e s
    | inr (inl (info, found, same, e)) ↦ rw e (record {
      calls = delete-calls k fr.pid_tgid s;
      events =
          All-append (IsGenuineEvent cfg) k.cuda_events _ s.events
            (event_of-IsGenuineEvent cfg fr (op_code t) info (s.calls _ info found) same, tt);
    })
    | inr (inr e) ↦ rw e (record { calls = delete-calls k fr.pid_tgid s; events = s.events })
  ]

  -- Whatever probes fire, in whatever order and on whatever threads, every in-flight record and every
  -- submitted event stays genuine: a traced thread, its process and thread id, a known operation, and flags
  -- that agree with the operation and the stack id.
  pub run-IsSound : (fs : List Fire) (k : Kernel B) → IsSound k → IsSound (run B cfg fs k)
  unfolding run
  run-IsSound [] k s = s
  run-IsSound (f ∷ fs) k s = run-IsSound fs (fire B cfg f k) (fire-IsSound f k s)
