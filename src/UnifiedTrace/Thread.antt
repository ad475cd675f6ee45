-- ===== src/UnifiedTrace/Thread.antt =====
-- src/bpf/trace_cpu_sched.bpf.c and src/user/unified_trace.c, main, together: a thread that --pid follows, from the
-- scheduler's switches to the file.
use local_ai_perf_analysis.Prelude.{
  Bool, ◌++◌, codes, ℕ, suc, ◌-◌, ℤ, true, false, List, [], ◌∷◌, some, ◌≡◌, ◌≢◌, ◌≤◌, ◌<◌, refl, ap,
  ap₂, ◌∙◌, arith, map, length, take, take_all, Bytes, All, u64_mod,
}
use local_ai_perf_analysis.Sched.{SchedStep, CpuEvents, sched_run}
use local_ai_perf_analysis.Sched.Alternation.{Schedule, HasRoom}
use local_ai_perf_analysis.Collector.{
  UnifiedEvent, cpu, min_timestamp_from, compare_events, max_events,
}
use local_ai_perf_analysis.Collector.Qsort.{Qsort}
use local_ai_perf_analysis.Collector.Rising.{IsRising, qsort-IsRising}
use local_ai_perf_analysis.Printf.{FloatPrint, show_dec}
use local_ai_perf_analysis.Chrome.{
  fresh_writer, write_events, on_time_len, output_chrome_tracing_json,
}
use local_ai_perf_analysis.Stacks.{Tool}
use local_ai_perf_analysis.Chrome.Balance.{write_events-sched_run}
use local_ai_perf_analysis.Chrome.Timeline.{timeline_text}
use local_ai_perf_analysis.Options.{Options, default_options, parse_args, choose_library}
use local_ai_perf_analysis.Process.{Process}
use local_ai_perf_analysis.UnifiedTrace.{PollRound, UnifiedCalls, tool_of, main}
use local_ai_perf_analysis.UnifiedTrace.Config.{cpu_target}
use local_ai_perf_analysis.UnifiedTrace.Polling.{EndsPolling}
use local_ai_perf_analysis.UnifiedTrace.Setup.{ready}
use local_ai_perf_analysis.UnifiedTrace.Delivery.{GoesOn, delivered, main-delivered}

length-cpus : (l : CpuEvents) → length (map cpu l) ≡ length l
length-cpus [] = refl
length-cpus (e ∷ l) = ap suc (length-cpus l)

-- Events that fit the array, in rising order, stand in it as they come.
kept_all :
    (q : Qsort UnifiedEvent) (P : FloatPrint) (o : Options) (a : UnifiedCalls) (run : CpuEvents)
    (d : List UnifiedEvent)
    → d ≡ map cpu run
    → IsRising (map cpu run)
    → length run ≤ max_events
    → output_chrome_tracing_json P
        (tool_of o a)
        a.fopen_works
        a.table_allocates
        (q.qsort compare_events (take max_events d))
        (length (take max_events d))
      ≡ output_chrome_tracing_json P
          (tool_of o a)
          a.fopen_works
          a.table_allocates
          (map cpu run)
          (length run)
kept_all q P o a run d same rising fits =
    let whole : take max_events d ≡ map cpu run =
      ap (take max_events) same
      ∙ take_all max_events (map cpu run) (omega (arith, length-cpus run)) in
    ap₂ (output_chrome_tracing_json P (tool_of o a) a.fopen_works a.table_allocates)
      (ap (q.qsort compare_events) whole ∙ qsort-IsRising q (map cpu run) rising)
      (ap length whole ∙ length-cpus run)

-- The file around its entries.
abbrev pub file_around : Bytes → ℕ → Bytes
file_around entries event_count =
    codes "{\n  \"traceEvents\": [\n"
    ++ (entries
        ++ (codes "\n  ],\n  \"displayTimeUnit\": \"ms\",\n  \"metadata\": {\n    \"event_count\": "
            ++ (show_dec event_count ++ codes ",\n    \"tool\": \"ebpf-unified-trace\"\n  }\n}\n")))

-- The file for the events of one thread: their timeline, and their number.
abbrev pub followed_file : FloatPrint → Tool → CpuEvents → Bytes
followed_file P t run =
    file_around (timeline_text P t (min_timestamp_from (u64_mod - 1) (map cpu run)) run)
      (length run)

-- The output that writes the timeline of these events.
output-followed_file :
    (P : FloatPrint) (t : Tool) (opens allocates : Bool) (run : CpuEvents)
    → opens ≡ true
    → allocates ≡ true
    → write_events P t (min_timestamp_from (u64_mod - 1) (map cpu run)) (map cpu run) fresh_writer
      ≡ timeline_text P t (min_timestamp_from (u64_mod - 1) (map cpu run)) run
    → output_chrome_tracing_json P t opens allocates (map cpu run) (length run)
      ≡ some (followed_file P t run)
unfolding output_chrome_tracing_json
output-followed_file P t opens allocates run works room text =
    rw (works, room) (ap (λ x. some (file_around x (length run))) text)

module _ (atoi : Bytes → ℤ) (q : Qsort UnifiedEvent) (P : FloatPrint) where
  -- From the scheduler to the file: if the thread that --pid names, with a number other than 0 and below
  -- 10,000,000, does not run when it is first seen, its history is legal, no reservation fails, its events
  -- have rising timestamps other than 0 and fit the array, the rounds deliver just them, the arguments are
  -- understood, a library is found, every call succeeds without which nothing is traced, the file can be
  -- opened and the table allocated, and round k is the first that ends the loop, then main returns 0, and the
  -- text of the file is the two entries that name the thread, unless it has no events, and then one entry for
  -- each event in their order: the begin of an interval for a switch onto the CPU, its end, with the time that
  -- has passed since the last begin, for a switch off it, and an instant for a wakeup.
  pub main-sched_run :
      (rounds : ℕ → PollRound) (fuel k : ℕ) (args : List Bytes) (a : UnifiedCalls) (o : Options)
      (path : Bytes) {l : List SchedStep}
      → parse_args atoi args default_options ≡ some o
      → choose_library a.access o ≡ some path
      → ready a ≡ true
      → a.fopen_works ≡ true
      → a.table_allocates ≡ true
      → ((j : ℕ) → j < k → GoesOn (rounds j))
      → EndsPolling (rounds k)
      → k < fuel
      → cpu_target o a ≢ 0
      → cpu_target o a < on_time_len
      → Schedule (cpu_target o a) false l
      → All HasRoom l
      → All (λ e. e.timestamp ≢ 0) (sched_run (cpu_target o a) l [])
      → IsRising (map cpu (sched_run (cpu_target o a) l []))
      → length (sched_run (cpu_target o a) l []) ≤ max_events
      → delivered rounds k 0 ≡ map cpu (sched_run (cpu_target o a) l [])
      → (p : Process) × (main atoi q P args a rounds fuel
          ≡ some (0, p, some (followed_file P (tool_of o a) (sched_run (cpu_target o a) l []))))
  main-sched_run rounds fuel k args a o path {l} parsed found works opens allocates on off lt
        followed below s room timed rising fits same =
      let target = cpu_target o a in
      let run = sched_run target l [] in
      let (p, e) =
        main-delivered atoi q P rounds fuel k args a o path parsed found works on off lt in
      (
        p,
        e
            ∙ ap (λ f. some (0, p, f))
                (kept_all q P o a run (delivered rounds k 0) same rising fits
                  ∙ output-followed_file P (tool_of o a) a.fopen_works a.table_allocates run opens
                      allocates
                      (write_events-sched_run P (tool_of o a)
                        (min_timestamp_from (u64_mod - 1) (map cpu run)) target followed below s
                        room timed)),
      )
