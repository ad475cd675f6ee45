-- ===== src/System/Tracer.antt =====
-- src/user/unified_trace.c, main, on the BPF programs at work: which of the events that they submit reach the
-- file.
use local_ai_perf_analysis.Prelude.{
  arith, All-front, ℕ, ℤ, ◌+◌, ◌<◌, true, List, [], ◌∷◌, ◌++◌, none, some, ◌≡◌, refl, sym, ap, ◌∙◌,
  take, Bytes, length, subst, All,
}
use local_ai_perf_analysis.Events.{CudaCallInfo}
use local_ai_perf_analysis.BpfMap.{BpfMap}
use local_ai_perf_analysis.Cuda.{CudaTracerCfg, Kernel, Counters}
use local_ai_perf_analysis.Cuda.Probes.{Fire, run}
use local_ai_perf_analysis.Cuda.Invariant.{IsGenuineEvent, IsSound, run-IsSound}
use local_ai_perf_analysis.Sched.{SchedStep, sched_run}
use local_ai_perf_analysis.Collector.{UnifiedEvent, compare_events, max_events}
use local_ai_perf_analysis.Collector.Qsort.{Qsort}
use local_ai_perf_analysis.Printf.{FloatPrint}
use local_ai_perf_analysis.Chrome.{output_chrome_tracing_json}
use local_ai_perf_analysis.Options.{Options, default_options, parse_args, choose_library}
use local_ai_perf_analysis.Process.{Process}
use local_ai_perf_analysis.UnifiedTrace.{PollRound, UnifiedCalls, tool_of, main}
use local_ai_perf_analysis.UnifiedTrace.Polling.{EndsPolling}
use local_ai_perf_analysis.UnifiedTrace.Config.{cpu_target, cfg_of}
use local_ai_perf_analysis.UnifiedTrace.Setup.{ready}
use local_ai_perf_analysis.UnifiedTrace.Delivery.{GoesOn, delivered, main-delivered}
use local_ai_perf_analysis.System.{
  KernelStep, probe, sched, Happening, World, happen, happen_all, world_at, rounds_of,
}
use local_ai_perf_analysis.System.Frame.{behind}
use local_ai_perf_analysis.System.Streams.{cpus, gpus, steps_until, last_world, world-streams}

-- The probes among the steps, and the scheduler's.
abbrev pub fires : List KernelStep → List Fire
fires [] = []
fires (probe f ∷ l) = f ∷ fires l
fires (sched s ∷ l) = fires l

abbrev pub scheds : List KernelStep → List SchedStep
scheds [] = []
scheds (probe f ∷ l) = scheds l
scheds (sched s ∷ l) = s ∷ scheds l

module _ (B : BpfMap CudaCallInfo) (target : ℕ) (cfg : CudaTracerCfg) where
  pub kernel-happen_all :
      (l : List KernelStep) (w : World B)
      → (happen_all B target cfg l w).kernel ≡ run B cfg (fires l) w.kernel
  unfolding happen_all run
  kernel-happen_all [] w = refl
  kernel-happen_all (probe f ∷ l) w = kernel-happen_all l (happen B target cfg (probe f) w)
  kernel-happen_all (sched s ∷ l) w = kernel-happen_all l (happen B target cfg (sched s) w)

  pub cpu_events-happen_all :
      (l : List KernelStep) (w : World B)
      → (happen_all B target cfg l w).cpu_events ≡ sched_run target (scheds l) w.cpu_events
  unfolding happen_all sched_run
  cpu_events-happen_all [] w = refl
  cpu_events-happen_all (probe f ∷ l) w = cpu_events-happen_all l (happen B target cfg (probe f) w)
  cpu_events-happen_all (sched s ∷ l) w = cpu_events-happen_all l (happen B target cfg (sched s) w)

-- What the tracepoints and the probes have submitted is, in order, what main has put into the list and what is
-- still in the ring buffers.
pub record Accounts (B : BpfMap CudaCallInfo) (target : ℕ) (cfg : CudaTracerCfg) (start : Kernel B)
    (steps : List KernelStep) (l : List UnifiedEvent) (left : World B) : Type 0 where
  pub cpu_all : cpus l ++ left.cpu_events ≡ sched_run target (scheds steps) []
  pub gpu_all : gpus l ++ left.kernel.cuda_events ≡ (run B cfg (fires steps) start).cuda_events

module _ (B : BpfMap CudaCallInfo) where
  open B use {Map, lookup}

  -- The probes' state before the first round, with nothing submitted.
  abbrev pub idle : Map → Counters → Kernel B
  idle calls n = record { cuda_calls = calls; stack_sample_counter = n; cuda_events = [] }

  abbrev pub idle_world : Map → Counters → World B
  idle_world calls n = record { cpu_events = []; kernel = idle calls n }

  idle-IsSound :
      (cfg : CudaTracerCfg) (calls : Map) (n : Counters)
      → ((key : ℕ) → lookup calls key ≡ none)
      → IsSound B cfg (idle calls n)
  idle-IsSound cfg calls n empty = record {
    calls = λ key info h. absurd (cc (h, empty key));
    events = tt;
  }

  module _ (target : ℕ) (cfg : CudaTracerCfg) (h : ℕ → Happening) (calls : Map) (n : Counters) where
    abbrev pub arrived : ℕ → List UnifiedEvent
    arrived k = delivered (rounds_of B target cfg h (idle_world calls n)) k 0

    -- The state when the loop has ended in round k.
    abbrev pub left_at : ℕ → World B
    left_at k = last_world B target cfg (h k) (world_at B target cfg h (idle_world calls n) k)

    pub arrived-Accounts :
        (k : ℕ) → Accounts B target cfg (idle calls n) (steps_until h k 0) (arrived k) (left_at k)
    unfolding world_at
    arrived-Accounts k =
        let steps = steps_until h k 0 in
        let start = idle_world calls n in
        let same : 0 + k ≡ k = omega arith in
        let e =
          world-streams B target cfg h start k 0
          ∙ ap (λ j. behind B (cpus (arrived k)) (gpus (arrived k)) (left_at j)) same in
        record {
          cpu_all = sym (ap (λ w. w.cpu_events) e) ∙ cpu_events-happen_all B target cfg steps start;
          gpu_all =
              sym (ap (λ w. w.kernel.cuda_events) e)
              ∙ ap (λ k. k.cuda_events) (kernel-happen_all B target cfg steps start);
        }

    -- The events of the probes are genuine.
    pub arrived-genuine :
        (k : ℕ)
        → ((key : ℕ) → lookup calls key ≡ none)
        → All (IsGenuineEvent cfg) (gpus (arrived k))
    arrived-genuine k empty =
        let acc = arrived-Accounts k in
        let sound =
          run-IsSound B cfg (fires (steps_until h k 0)) (idle calls n)
            (idle-IsSound cfg calls n empty) in
        All-front (IsGenuineEvent cfg) (gpus (arrived k)) (left_at k).kernel.cuda_events
          (subst (All (IsGenuineEvent cfg)) (sym acc.gpu_all) sound.events)

module _ (B : BpfMap CudaCallInfo) (h : ℕ → Happening) (calls : B.Map) (n : Counters) (o : Options)
    (a : UnifiedCalls) where
  -- The rounds of the loop under main's configuration of the BPF programs, and what they deliver up to round k.
  abbrev pub rounds_in : ℕ → PollRound
  rounds_in = rounds_of B (cpu_target o a) (cfg_of o a) h (idle_world B calls n)

  abbrev pub arrived_in : ℕ → List UnifiedEvent
  arrived_in = arrived B (cpu_target o a) (cfg_of o a) h calls n

  -- What is left in the ring buffers when the loop has ended in round k.
  abbrev pub left_in : ℕ → World B
  left_in = left_at B (cpu_target o a) (cfg_of o a) h calls n

module _ (atoi : Bytes → ℤ) (q : Qsort UnifiedEvent) (P : FloatPrint)
    (B : BpfMap CudaCallInfo) where
  open B use {Map, lookup}

  -- If the arguments of unified_trace are understood and a library is found, every call succeeds without which
  -- nothing is traced, no call is in flight at first, and round k is the first that ends the polling loop,
  -- then, whatever the probes and the tracepoints do before and between the polls, main returns 0 and the file
  -- is the one for the first max_events of a list of events, sorted by qsort; the scheduler's events of the
  -- list and its CUDA events, each followed by what is then left in its ring buffer, are, in order, all that
  -- the BPF programs submitted; and every CUDA event of the list is genuine.
  pub main-Accounts :
      (h : ℕ → Happening) (calls : Map) (n : Counters) (fuel k : ℕ) (args : List Bytes)
      (a : UnifiedCalls) (o : Options) (path : Bytes)
      → parse_args atoi args default_options ≡ some o
      → choose_library a.access o ≡ some path
      → ready a ≡ true
      → ((key : ℕ) → lookup calls key ≡ none)
      → ((j : ℕ) → j < k → GoesOn (rounds_in B h calls n o a j))
      → EndsPolling (rounds_in B h calls n o a k)
      → k < fuel
      → (p : Process) × (l : List UnifiedEvent) × (main atoi q P args a
            (rounds_in B h calls n o a)
            fuel
          ≡ some (
            0,
            p,
            output_chrome_tracing_json P
                (tool_of o a)
                a.fopen_works
                a.table_allocates
                (q.qsort compare_events (take max_events l))
                (length (take max_events l)),
          ))
        × Accounts B
            (cpu_target o a)
            (cfg_of o a)
            (idle B calls n)
            (steps_until h k 0)
            l
            (left_in B h calls n o a k)
        × All (IsGenuineEvent (cfg_of o a)) (gpus l)
  main-Accounts h calls n fuel k args a o path parsed found works empty on off lt =
      let target = cpu_target o a in
      let cfg = cfg_of o a in
      let (p, e) =
        main-delivered atoi q P (rounds_of B target cfg h (idle_world B calls n)) fuel k args a o
          path parsed found works on off lt in
      (
        p,
        arrived B target cfg h calls n k,
        e,
        arrived-Accounts B target cfg h calls n k,
        arrived-genuine B target cfg h calls n k empty,
      )
