-- ===== src/System/Calls.antt =====
-- src/bpf/trace_cuda.bpf.c and src/user/unified_trace.c, main, together: a CUDA call, from its two probes to its
-- entry in the file.
use local_ai_perf_analysis.Prelude.{
  all_of_front, ℕ, ◌≤◌, ◌<◌, ℤ, true, List, [], ◌∷◌, ◌++◌, some, ◌≡◌, ap, ap₂, ◌∙◌, take, take_all,
  Bytes, length, subst, All, sub64, u64_mod,
}
use local_ai_perf_analysis.Events.{CudaCallInfo, CudaOpType}
use local_ai_perf_analysis.BpfMap.{BpfMap}
use local_ai_perf_analysis.Cuda.{Counters, Firing}
use local_ai_perf_analysis.Cuda.Probes.{Fire, enter, leave, run}
use local_ai_perf_analysis.Cuda.Threads.{IsTraced, Foreign}
use local_ai_perf_analysis.Cuda.Submitted.{call_submitted}
use local_ai_perf_analysis.Cuda.Pairing.{call_event}
use local_ai_perf_analysis.Attach.{contains}
use local_ai_perf_analysis.Collector.{UnifiedEvent, cpu, gpu, compare_events, max_events}
use local_ai_perf_analysis.Collector.Qsort.{Qsort}
use local_ai_perf_analysis.Printf.{FloatPrint}
use local_ai_perf_analysis.Entry.{gpu_entry}
use local_ai_perf_analysis.Chrome.{output_chrome_tracing_json}
use local_ai_perf_analysis.Chrome.Written.{qsort-contains}
use local_ai_perf_analysis.Options.{Options, default_options, parse_args, choose_library}
use local_ai_perf_analysis.Process.{Process}
use local_ai_perf_analysis.UnifiedTrace.{UnifiedCalls, tool_of, main}
use local_ai_perf_analysis.UnifiedTrace.Config.{cpu_target, cfg_of}
use local_ai_perf_analysis.UnifiedTrace.Polling.{EndsPolling}
use local_ai_perf_analysis.UnifiedTrace.Setup.{ready}
use local_ai_perf_analysis.UnifiedTrace.Delivery.{GoesOn, main-delivered}
use local_ai_perf_analysis.System.{Happening, rounds_of}
use local_ai_perf_analysis.System.Streams.{gpus, steps_until}
use local_ai_perf_analysis.System.Tracer.{
  fires, idle, idle_world, arrived, arrived-Accounts, rounds_in, arrived_in,
}

-- A predicate on all events of a list, for the CUDA events.
All-gpus :
    (Q : UnifiedEvent → Type 0) (l : List UnifiedEvent) → All Q l → All (λ g. Q (gpu g)) (gpus l)
All-gpus Q [] h = tt
All-gpus Q (cpu e ∷ l) (he, h) = All-gpus Q l h
All-gpus Q (gpu g ∷ l) (hg, h) = (hg, All-gpus Q l h)

module _ (atoi : Bytes → ℤ) (q : Qsort UnifiedEvent) (P : FloatPrint)
    (B : BpfMap CudaCallInfo) where
  open B use {Map, accepts}

  -- From two probes to the file: if the arguments of unified_trace are understood and a library is found,
  -- every call succeeds without which nothing is traced, the file can be opened and the table allocated, round
  -- k is the first that ends the polling loop, and among the probes that fire until then a traced call is
  -- entered, with a slot for it in the in-flight map, and returns with no probe of its thread in between, with
  -- room in the ring buffer and at no earlier 64-bit time, and as many CUDA events are delivered as are
  -- submitted and all that is delivered fits the array, then main returns 0 and the file contains the entry of
  -- the call: what its entry saw, its duration and its result, at its time less a base that is not later.
  pub main-call_event :
      (h : ℕ → Happening) (calls : Map) (n : Counters) (fuel k : ℕ) (args : List Bytes)
      (a : UnifiedCalls) (o : Options) (path : Bytes) (before between later : List Fire)
      (t : CudaOpType) (e r : Firing)
      → parse_args atoi args default_options ≡ some o
      → choose_library a.access o ≡ some path
      → ready a ≡ true
      → a.fopen_works ≡ true
      → a.table_allocates ≡ true
      → ((j : ℕ) → j < k → GoesOn (rounds_in B h calls n o a j))
      → EndsPolling (rounds_in B h calls n o a k)
      → k < fuel
      → fires (steps_until h k 0) ≡ before ++ ((enter t e ∷ between) ++ leave t r ∷ later)
      → IsTraced (cfg_of o a) e.pid_tgid
      → accepts (run B (cfg_of o a) before (idle B calls n)).cuda_calls e.pid_tgid ≡ true
      → All (Foreign e.pid_tgid) between
      → r.pid_tgid ≡ e.pid_tgid
      → r.room ≡ true
      → e.ktime ≤ r.ktime
      → r.ktime < u64_mod
      → length (run B (cfg_of o a) (fires (steps_until h k 0)) (idle B calls n)).cuda_events
        ≤ length (gpus (arrived_in B h calls n o a k))
      → length (arrived_in B h calls n o a k) ≤ max_events
      → (p : Process) × (file : Bytes) × (main atoi q P args a (rounds_in B h calls n o a) fuel
          ≡ some (0, p, some file))
        × (base : ℕ) × (base ≤ e.ktime)
        × (contains
              (gpu_entry P (tool_of o a) (sub64 e.ktime base) (
                call_event
                  (cfg_of o a)
                  t
                  e
                  r
                  (run B (cfg_of o a) before (idle B calls n)).stack_sample_counter))
              file
            ≡ true)
  main-call_event h calls n fuel k args a o path before between later t e r parsed found works opens
        allocates on off lt split traced acc foreign same room le late drained fits =
      let target = cpu_target o a in
      let cfg = cfg_of o a in
      let events = arrived B target cfg h calls n k in
      let ev = call_event cfg t e r (run B cfg before (idle B calls n)).stack_sample_counter in
      let (p, ended) =
        main-delivered atoi q P (rounds_of B target cfg h (idle_world B calls n)) fuel k args a o
          path parsed found works on off lt in
      let account = arrived-Accounts B target cfg h calls n k in
      let whole = all_of_front (gpus events) _ _ account.gpu_all drained in
      let (file, text, base, below, written) =
        qsort-contains P (tool_of o a) q events (length events) ev (λ Q all.
          call_submitted B cfg (λ g. Q (gpu g)) before between later t e r (idle B calls n) traced
            acc foreign same room le late
            (subst (λ x. All (λ g. Q (gpu g)) (run B cfg x (idle B calls n)).cuda_events) split
              (subst (All (λ g. Q (gpu g))) whole (All-gpus Q events all)))) in
      let kept : output_chrome_tracing_json P (tool_of o a) a.fopen_works a.table_allocates
            (q.qsort compare_events (take max_events events)) (length (take max_events events))
          ≡ some file =
        ap₂
          (λ x y.
            output_chrome_tracing_json P (tool_of o a) x y
              (q.qsort compare_events (take max_events events)) (length (take max_events events)))
          opens allocates
        ∙ ap
            (λ d.
              output_chrome_tracing_json P (tool_of o a) true true (q.qsort compare_events d)
                (length d))
            (take_all max_events events fits)
        ∙ text in
      (p, file, ended ∙ ap (λ f. some (0, p, f)) kept, base, below, written)
