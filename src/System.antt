-- ===== src/System.antt =====
-- The BPF programs of src/bpf/trace_cuda.bpf.c and src/bpf/trace_cpu_sched.bpf.c at work while the loop of
-- src/user/unified_trace.c polls their ring buffers: what happens in the kernel before each poll, and what the polls
-- take out.
pub mod Frame
pub mod Streams
pub mod Tracer
pub mod Filter
pub mod Calls
use local_ai_perf_analysis.Prelude.{ℕ, zero, suc, ℤ, Bool, List, [], ◌∷◌, take, drop}
use local_ai_perf_analysis.Events.{CudaCallInfo}
use local_ai_perf_analysis.BpfMap.{BpfMap}
use local_ai_perf_analysis.Cuda.{CudaTracerCfg, Kernel}
use local_ai_perf_analysis.Cuda.Probes.{Fire, fire}
use local_ai_perf_analysis.Sched.{SchedStep, CpuEvents, sched_step}
use local_ai_perf_analysis.UnifiedTrace.{PollRound}

-- A probe or a tracepoint that fires.
pub data KernelStep : Type 0 where
  probe : Fire → KernelStep
  sched : SchedStep → KernelStep

-- One round of the polling loop: what happens before each of the two polls, how many of the pending events each
-- takes, oldest first, and what it returns.
pub record Happening : Type 0 where
  pub exiting : Bool
  pub before_cpu : List KernelStep
  pub cpu_taken : ℕ
  pub cpu_polled : ℤ
  pub before_gpu : List KernelStep
  pub gpu_taken : ℕ
  pub gpu_polled : ℤ

module _ (B : BpfMap CudaCallInfo) where
  -- The events in the two ring buffers, and the state of the CUDA probes.
  pub record World : Type 0 where
    pub cpu_events : CpuEvents
    pub kernel : Kernel B

  abbrev pub poll_cpu : ℕ → World → World
  poll_cpu n w = record w { cpu_events = drop n w.cpu_events }

  abbrev pub poll_gpu : ℕ → World → World
  poll_gpu n w = record w { kernel = record w.kernel { cuda_events = drop n w.kernel.cuda_events } }

  module _ (target : ℕ) (cfg : CudaTracerCfg) where
    unfoldable pub happen : KernelStep → World → World
    happen (probe f) w = record w { kernel = fire B cfg f w.kernel }
    happen (sched s) w = record w { cpu_events = sched_step target s w.cpu_events }

    unfoldable pub happen_all : List KernelStep → World → World
    unfolding happen
    happen_all [] w = w
    happen_all (s ∷ l) w = happen_all l (happen s w)

    -- The state behind a round in which both polls are made.
    unfoldable pub after_round : Happening → World → World
    unfolding happen_all
    after_round h w =
        poll_gpu h.gpu_taken
          (happen_all h.before_gpu (poll_cpu h.cpu_taken (happen_all h.before_cpu w)))

    -- What the loop sees of a round.
    unfoldable pub poll_round : Happening → World → PollRound
    unfolding happen_all
    poll_round h w =
        let first = happen_all h.before_cpu w in
        let second = happen_all h.before_gpu (poll_cpu h.cpu_taken first) in
        record {
          exiting = h.exiting;
          cpu_batch = take h.cpu_taken first.cpu_events;
          cpu_polled = h.cpu_polled;
          gpu_batch = take h.gpu_taken second.kernel.cuda_events;
          gpu_polled = h.gpu_polled;
        }

    module _ (h : ℕ → Happening) (start : World) where
      unfoldable pub world_at : ℕ → World
      unfolding after_round
      world_at zero = start
      world_at (suc i) = after_round (h i) (world_at i)

      unfoldable pub rounds_of : ℕ → PollRound
      unfolding poll_round world_at
      rounds_of i = poll_round (h i) (world_at i)
