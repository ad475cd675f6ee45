-- ===== src/UnifiedTrace/Delivery.antt =====
-- src/user/unified_trace.c, main: which of the delivered events reach the file.
use local_ai_perf_analysis.Prelude.{
  ℕ, zero, suc, ◌+◌, ℤ, true, false, List, [], ◌++◌, some, ◌≡◌, ◌≤◌, ◌<◌, inl, inr, refl, sym, ap,
  ap₂, ◌∙◌, arith, map, if◌then◌else◌, Bool-cases, append-nil, length, take, Bytes,
}
use local_ai_perf_analysis.Collector.{
  UnifiedEvent, cpu, gpu, Collected, nothing_yet, collect, compare_events, max_events,
}
use local_ai_perf_analysis.Collector.Fill.{collect-nil, collect-append, collect_lem}
use local_ai_perf_analysis.Collector.Qsort.{Qsort}
use local_ai_perf_analysis.Printf.{FloatPrint}
use local_ai_perf_analysis.Chrome.{output_chrome_tracing_json}
use local_ai_perf_analysis.Options.{Options, default_options, parse_args, choose_library}
use local_ai_perf_analysis.Process.{Process, new_process, go_on, interrupted}
use local_ai_perf_analysis.Process.Ready.{flow_if}
use local_ai_perf_analysis.Session.{nothing_yet-IsFilled}
use local_ai_perf_analysis.UnifiedTrace.{
  PollRound, poll_both, UnifiedCalls, setup, close, tool_of, write_trace, conclude, main,
}
use local_ai_perf_analysis.UnifiedTrace.Polling.{EndsPolling}
use local_ai_perf_analysis.UnifiedTrace.Setup.{ready, setup-Needs}
use local_ai_perf_analysis.UnifiedTrace.Runs.{main-conclude, conclude_ready}

-- A round behind which another follows.
abbrev pub GoesOn : PollRound → Type 0
GoesOn r =
    (r.exiting ≡ false) × (interrupted r.cpu_polled ≡ false) × (interrupted r.gpu_polled ≡ false)

-- The events of a round that ends the loop: none with the flag set, and none of the GPU if the first poll is
-- interrupted.
abbrev pub last_events : PollRound → List UnifiedEvent
last_events r =
    if r.exiting
    then []
    else map cpu r.cpu_batch ++ (if interrupted r.cpu_polled then [] else map gpu r.gpu_batch)

-- The events of n rounds from round i on, and of the last one.
abbrev pub delivered : (ℕ → PollRound) → ℕ → ℕ → List UnifiedEvent
delivered rounds zero i = last_events (rounds i)
delivered rounds (suc n) i =
    map cpu (rounds i).cpu_batch ++ (map gpu (rounds i).gpu_batch ++ delivered rounds n (suc i))

last_round :
    (rounds : ℕ → PollRound) (fuel i : ℕ) (c : Collected)
    → EndsPolling (rounds i)
    → poll_both rounds (suc fuel) i c ≡ some (collect (last_events (rounds i)) c)
unfolding poll_both
last_round rounds fuel i c h = elim (Bool-cases (rounds i).exiting) [
  | inl set ↦ rw (poll_both, set) (ap some (sym (collect-nil c)))
  | inr unset ↦ elim (Bool-cases (interrupted (rounds i).cpu_polled)) [
    | inl eintr ↦ rw (poll_both, unset, eintr, append-nil) refl
    | inr calm ↦
        let last : interrupted (rounds i).gpu_polled ≡ true = elim h [
          | inl e ↦ cc
          | inr (inl e) ↦ cc
          | inr (inr e) ↦ e
        ] in
        rw (poll_both, unset, calm, last)
          (ap some
            (sym (collect-append (map cpu (rounds i).cpu_batch) (map gpu (rounds i).gpu_batch) c)))
  ]
]

poll_both_lem :
    (rounds : ℕ → PollRound) (n fuel i : ℕ) (c : Collected)
    → ((j : ℕ) → i ≤ j → j < i + n → GoesOn (rounds j))
    → EndsPolling (rounds (i + n))
    → n < fuel
    → poll_both rounds fuel i c ≡ some (collect (delivered rounds n i) c)
unfolding poll_both
poll_both_lem rounds n zero i c on off lt = absurd (omega arith)
poll_both_lem rounds zero (suc fuel) i c on off lt =
    let same : i + 0 ≡ i = omega arith in last_round rounds fuel i c (rw same at off)
poll_both_lem rounds (suc n) (suc fuel) i c on off lt =
    let shift : i + suc n ≡ suc i + n = omega arith in
    let (unset, calm, still) = on i (omega arith) (omega arith) in
    let cpus : List UnifiedEvent = map cpu (rounds i).cpu_batch in
    let gpus : List UnifiedEvent = map gpu (rounds i).gpu_batch in
    rw (poll_both, unset, calm, still)
      (poll_both_lem rounds n fuel (suc i) (collect gpus (collect cpus c))
          (λ j le below. on j (omega arith) (omega arith)) (rw shift at off) (omega arith)
        ∙ ap some (
            sym (
              collect-append cpus (gpus ++ delivered rounds n (suc i)) c
              ∙ collect-append gpus (delivered rounds n (suc i)) (collect cpus c))))

module _ (atoi : Bytes → ℤ) (q : Qsort UnifiedEvent) (P : FloatPrint) where
  -- Of the events that are delivered, the first `max_events` are kept, and the counter counts them.
  write_trace_lem :
      (o : Options) (a : UnifiedCalls) (l : List UnifiedEvent)
      → write_trace atoi q P o a (collect l nothing_yet)
        ≡ output_chrome_tracing_json P
            (tool_of o a)
            a.fopen_works
            a.table_allocates
            (q.qsort compare_events (take max_events l))
            (length (take max_events l))
  unfolding write_trace
  write_trace_lem o a l =
      let (events, filled) = collect_lem l nothing_yet nothing_yet-IsFilled in
      let kept : (collect l nothing_yet).events ≡ take max_events l = events in
      ap₂
        (λ x n.
          output_chrome_tracing_json P (tool_of o a) a.fopen_works a.table_allocates
            (q.qsort compare_events x) n)
        kept (filled.counted ∙ ap length kept)

  -- If the arguments of unified_trace are understood and a library is found, every call succeeds without which
  -- nothing is traced, and round k is the first that ends the polling loop, then main returns 0 and the file
  -- is the one for the first max_events of the events that are delivered in the rounds before, and in round k
  -- up to its end, sorted by qsort.
  pub main-delivered :
      (rounds : ℕ → PollRound) (fuel k : ℕ) (args : List Bytes) (a : UnifiedCalls) (o : Options)
      (path : Bytes)
      → parse_args atoi args default_options ≡ some o
      → choose_library a.access o ≡ some path
      → ready a ≡ true
      → ((j : ℕ) → j < k → GoesOn (rounds j))
      → EndsPolling (rounds k)
      → k < fuel
      → (p : Process) × (main atoi q P args a rounds fuel
          ≡ some (
            0,
            p,
            output_chrome_tracing_json P
                (tool_of o a)
                a.fopen_works
                a.table_allocates
                (q.qsort compare_events (take max_events (delivered rounds k 0)))
                (length (take max_events (delivered rounds k 0))),
          ))
  main-delivered rounds fuel k args a o path parsed found works on off lt =
      let r = setup o a new_process in
      let end : r.0 ≡ go_on = (setup-Needs o a).flows new_process ∙ ap flow_if works in
      let start : 0 + k ≡ k = omega arith in
      let looped : poll_both rounds fuel 0 nothing_yet
          ≡ some (collect (delivered rounds k 0) nothing_yet) =
        poll_both_lem rounds k fuel 0 nothing_yet (λ j le below. on j (omega arith)) (rw start off)
          lt in
      (
        close r.1,
        main-conclude atoi q P rounds fuel args a parsed found
            ∙ ap (λ x. conclude atoi q P o a x r) looped
            ∙ conclude_ready atoi q P o a (collect (delivered rounds k 0) nothing_yet) r end
            ∙ ap (λ f. some (0, close r.1, f)) (write_trace_lem o a (delivered rounds k 0)),
      )
