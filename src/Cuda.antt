-- ===== src/Cuda.antt =====
-- src/bpf/trace_cuda.bpf.c: the configuration, the state that the probes share, and the helpers
-- maybe_capture_stack, record_entry and submit_event. The 28 probes are in Cuda/Probes.antt.
-- What the kernel answers during one firing of a probe is a record `Firing`. The in-flight map is
-- a parameter; the per-CPU counters are a function of the CPU; the ring buffer is the list of the
-- submitted events, oldest first.
pub mod Probes
pub mod Threads
pub mod Pairing
pub mod Submitted
pub mod Invariant
pub mod Sampling
use local_ai_perf_analysis.Prelude.{
  ℕ, ℤ, negsuc, Bool, true, false, List, [], ◌∷◌, ◌++◌, none, some, ◌+◌, ◌/◌, ◌%◌, ◌^◌, ◌&&◌,
  bit_and, bit_or, Bytes, ◌==◌, ◌!=◌, if◌then◌else◌, nonneg, signed32, sub64, u64_mod,
}
use local_ai_perf_analysis.Events.{
  CudaEvent, CudaCallInfo, cuda_ev_flag_async, cuda_ev_flag_stack_sampled,
}
use local_ai_perf_analysis.BpfMap.{BpfMap}

-- struct cuda_tracer_cfg, without its padding.
pub record CudaTracerCfg : Type 0 where
  pub target_pid : ℕ
  pub sample_period_sync : ℕ
  pub sample_period_async : ℕ
  pub capture_stacks : ℕ

-- The initial value of `cfg`.
abbrev pub default_cfg : CudaTracerCfg
default_cfg = record {
  target_pid = 0;
  sample_period_sync = 1;
  sample_period_async = 8;
  capture_stacks = 1;
}

-- One firing of a probe: the running thread, its CPU, the clock, the registers, and the answers of
-- the helpers that may fail (`slot`: the counter's lookup; `room`: the ring buffer's reservation).
pub record Firing : Type 0 where
  pub pid_tgid : ℕ
  pub processor : ℕ
  pub ktime : ℕ
  pub stackid : ℤ
  pub current_comm : Bytes
  pub parm1 : ℕ
  pub parm2 : ℕ
  pub parm3 : ℕ
  pub parm5 : ℕ
  pub rc : ℕ
  pub slot : Bool
  pub room : Bool

-- `pid_tgid >> 32` in a __u32, and `pid_tgid & 0xFFFFFFFF`.
abbrev pub pid_of : ℕ → ℕ
pid_of pid_tgid = pid_tgid / 2 ^ 32 % 2 ^ 32

abbrev pub tid_of : ℕ → ℕ
tid_of pid_tgid = pid_tgid % 2 ^ 32

abbrev pub Counters : Type 0
Counters = ℕ → ℕ

-- (*cnt)++ on the counter of one CPU, a __u64.
abbrev pub bump : Counters → ℕ → Counters
bump n cpu i = if i == cpu then (n cpu + 1) % u64_mod else n i

-- The period of the class of the operation; a period of 0 is taken as 1.
unfoldable pub sample_period : CudaTracerCfg → ℕ → ℕ
sample_period cfg flags =
    let period =
      if bit_and flags cuda_ev_flag_async != 0
      then cfg.sample_period_async
      else cfg.sample_period_sync in
    if period == 0 then 1 else period

-- The stack id, and the counters after the call.
unfoldable pub maybe_capture_stack : CudaTracerCfg → Firing → ℕ → Counters → ℤ × Counters
maybe_capture_stack cfg fr flags n =
    if cfg.capture_stacks == 0 then (negsuc 0, n) else elim fr.slot [
      | false ↦ (negsuc 0, n)
      | true ↦
          if n fr.processor % sample_period cfg flags != 0
          then (negsuc 0, bump n fr.processor)
          else (fr.stackid, bump n fr.processor)
    ]

-- The event that a return probe fills in from the call's record.
unfoldable pub event_of : Firing → ℕ → CudaCallInfo → CudaEvent
event_of fr op_type info = record {
  timestamp = info.timestamp;
  duration_ns = sub64 fr.ktime info.timestamp;
  pid = info.pid;
  tid = tid_of fr.pid_tgid;
  op_type = op_type;
  size = info.size;
  ptr = info.ptr;
  ret_val = signed32 fr.rc;
  comm = fr.current_comm;
  stream_id = info.stream_id;
  stack_id = info.stack_id;
  flags = info.flags;
}

module _ (B : BpfMap CudaCallInfo) where
  open B use {Map, lookup, update, delete}

  pub record Kernel : Type 0 where
    pub cuda_calls : Map
    pub stack_sample_counter : Counters
    pub cuda_events : List CudaEvent

  unfoldable pub record_entry : CudaTracerCfg → Firing → ℕ → ℕ → ℕ → ℕ → ℕ → Kernel → ℕ × Kernel
  record_entry cfg fr op_type flags size ptr stream_id k =
      let pid = pid_of fr.pid_tgid in
      if cfg.target_pid != 0 && pid != cfg.target_pid
      then (1, k)
      else let captured = maybe_capture_stack cfg fr flags k.stack_sample_counter in
        let info : CudaCallInfo = record {
          timestamp = fr.ktime;
          op_type = op_type;
          pid = pid;
          size = size;
          ptr = ptr;
          stream_id = stream_id;
          stack_id = captured.0;
          flags = if nonneg captured.0 then bit_or flags cuda_ev_flag_stack_sampled else flags;
        } in
        (
          0,
          record k {
            cuda_calls = update k.cuda_calls fr.pid_tgid info;
            stack_sample_counter = captured.1;
          },
        )

  unfoldable pub submit_event : Firing → ℕ → Kernel → ℕ × Kernel
  submit_event fr op_type k =
      let cleared = delete k.cuda_calls fr.pid_tgid in
      elim (lookup k.cuda_calls fr.pid_tgid) [
        | none ↦ (0, k)
        | some info ↦
            if info.op_type != op_type
            then (0, record k { cuda_calls = cleared })
            else if fr.room
            then (
              0,
              record k {
                cuda_calls = cleared;
                cuda_events = k.cuda_events ++ event_of fr op_type info ∷ [];
              },
            )
            else (0, record k { cuda_calls = cleared })
      ]
