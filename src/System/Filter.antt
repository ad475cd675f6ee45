-- ===== src/System/Filter.antt =====
-- src/user/unified_trace.c, main, with --pid: whose events reach the file.
use local_ai_perf_analysis.Prelude.{
  All-front, ℕ, zero, suc, none, ◌∙◌, ◌<◌, ℤ, pos, negsuc, true, false, ◌||◌, List, [], ◌∷◌, some,
  ◌≡◌, ◌≢◌, refl, sym, arith, take, Bytes, length, subst, All, inl, inr,
}
use local_ai_perf_analysis.Events.{CudaCallInfo, CudaEvent}
use local_ai_perf_analysis.BpfMap.{BpfMap}
use local_ai_perf_analysis.Cuda.{Counters}
use local_ai_perf_analysis.Cuda.Invariant.{IsGenuineEvent}
use local_ai_perf_analysis.Sched.Alternation.{sched_run-target}
use local_ai_perf_analysis.Collector.{UnifiedEvent, compare_events, max_events}
use local_ai_perf_analysis.Collector.Qsort.{Qsort}
use local_ai_perf_analysis.Printf.{FloatPrint}
use local_ai_perf_analysis.Chrome.{output_chrome_tracing_json}
use local_ai_perf_analysis.Options.{
  Options, default_options, parse_args, choose_library, word32, gpu_cfg,
}
use local_ai_perf_analysis.Process.{Process, is_zero}
use local_ai_perf_analysis.UnifiedTrace.{UnifiedCalls, tool_of, main}
use local_ai_perf_analysis.UnifiedTrace.Config.{cpu_target, cfg_of, has_rodata}
use local_ai_perf_analysis.UnifiedTrace.Polling.{EndsPolling}
use local_ai_perf_analysis.UnifiedTrace.Setup.{ready}
use local_ai_perf_analysis.UnifiedTrace.Delivery.{GoesOn}
use local_ai_perf_analysis.System.{Happening}
use local_ai_perf_analysis.System.Streams.{cpus, gpus, steps_until}
use local_ai_perf_analysis.System.Tracer.{Accounts, idle, rounds_in, left_in, main-Accounts}

-- The constants of both objects are found and set.
abbrev pub Configured : UnifiedCalls → Type 0
Configured a =
    (a.cpu_rodata ≡ true)
    × (a.cpu_rodata_set ≡ true)
    × ((a.gpu_rodata || has_rodata a.gpu_map_names) ≡ true)
    × (a.gpu_rodata_set ≡ true)

word32-is_zero : (n : ℤ) → word32 n ≢ 0 → is_zero n ≡ false
word32-is_zero (pos zero) h = absurd (h refl)
word32-is_zero (pos (suc n)) h = ground arith
word32-is_zero (negsuc n) h = refl

cpu_target-word32 :
    (o : Options) (a : UnifiedCalls)
    → word32 o.target_pid ≢ 0
    → Configured a
    → cpu_target o a ≡ word32 o.target_pid
unfolding cpu_target
cpu_target-word32 o a h (found, done, f, d) = rw (word32-is_zero o.target_pid h, found, done) refl

cfg_of-gpu_cfg : (o : Options) (a : UnifiedCalls) → Configured a → cfg_of o a ≡ gpu_cfg o
unfolding cfg_of
cfg_of-gpu_cfg o a (f, d, found, done) = rw (found, done) refl

followed :
    (o : Options) (g : CudaEvent)
    → word32 o.target_pid ≢ 0
    → IsGenuineEvent (gpu_cfg o) g
    → g.pid ≡ word32 o.target_pid
followed o g h genuine = elim genuine.traced [
  | inl off ↦ absurd (h off)
  | inr same ↦ genuine.pid_ok ∙ same
]

All-followed :
    (o : Options) (l : List CudaEvent)
    → word32 o.target_pid ≢ 0
    → All (IsGenuineEvent (gpu_cfg o)) l
    → All (λ g. g.pid ≡ word32 o.target_pid) l
All-followed o [] h all = tt
All-followed o (g ∷ l) h (genuine, all) = (followed o g h genuine, All-followed o l h all)

module _ (atoi : Bytes → ℤ) (q : Qsort UnifiedEvent) (P : FloatPrint)
    (B : BpfMap CudaCallInfo) where
  open B use {Map, lookup}

  -- With --pid and the constants of both BPF objects found and set, if the arguments of unified_trace are
  -- understood and a library is found, every call succeeds without which nothing is traced, no call is in
  -- flight at first, and round k is the first that ends the polling loop, then main returns 0 and writes the
  -- file of the first max_events of a list of events, sorted by qsort; the list and what is then left in the
  -- ring buffers are all that the BPF programs submitted, and every scheduler's event of the list is of the
  -- thread with that number and every CUDA event of a thread of the process with that number.
  pub main-followed :
      (h : ℕ → Happening) (calls : Map) (n : Counters) (fuel k : ℕ) (args : List Bytes)
      (a : UnifiedCalls) (o : Options) (path : Bytes)
      → parse_args atoi args default_options ≡ some o
      → choose_library a.access o ≡ some path
      → ready a ≡ true
      → Configured a
      → word32 o.target_pid ≢ 0
      → ((key : ℕ) → lookup calls key ≡ none)
      → ((j : ℕ) → j < k → GoesOn (rounds_in B h calls n o a j))
      → EndsPolling (rounds_in B h calls n o a k)
      → k < fuel
      → (p : Process) × (l : List UnifiedEvent) × (main atoi q P args a
            (rounds_in B h calls n o a)
            fuel
          ≡ some (
            0,
            p,
            output_chrome_tracing_json P
                (tool_of o a)
                a.fopen_works
                a.table_allocates
                (q.qsort compare_events (take max_events l))
                (length (take max_events l)),
          ))
        × Accounts B
            (cpu_target o a)
            (cfg_of o a)
            (idle B calls n)
            (steps_until h k 0)
            l
            (left_in B h calls n o a k)
        × All (λ e. e.tid ≡ word32 o.target_pid) (cpus l)
        × All (λ g. g.pid ≡ word32 o.target_pid) (gpus l)
  main-followed h calls n fuel k args a o path parsed found works set chosen empty on off lt =
      let (p, l, e, acc, genuine) =
        main-Accounts atoi q P B h calls n fuel k args a o path parsed found works empty on off
          lt in
      let target = cpu_target-word32 o a chosen set in
      let threads : All (λ e. e.tid ≡ cpu_target o a) (cpus l) =
        All-front (λ e. e.tid ≡ cpu_target o a) (cpus l) _
          (subst (All (λ e. e.tid ≡ cpu_target o a)) (sym acc.cpu_all)
            (sched_run-target (cpu_target o a) _ (rw target chosen))) in
      (
        p,
        l,
        e,
        acc,
        subst (λ t. All (λ e. e.tid ≡ t) (cpus l)) target threads,
        All-followed o (gpus l) chosen
            (subst (λ c. All (IsGenuineEvent c) (gpus l)) (cfg_of-gpu_cfg o a set) genuine),
      )
