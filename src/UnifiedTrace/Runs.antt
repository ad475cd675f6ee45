-- ===== src/UnifiedTrace/Runs.antt =====
-- src/user/unified_trace.c, main: its end, its exit status and the file.
use mathlib.Core.Option
use local_ai_perf_analysis.Prelude.{
  ℕ, ℤ, Bool, true, false, List, [], ◌∷◌, Option, none, some, ◌≡◌, ◌<◌, refl, ap, ap₂, arith, ◌∙◌,
  Bytes, Option-cases, inl, inr, All,
}
use local_ai_perf_analysis.Collector.{UnifiedEvent, Collected, nothing_yet, collect}
use local_ai_perf_analysis.Collector.Qsort.{Qsort}
use local_ai_perf_analysis.Printf.{FloatPrint}
use local_ai_perf_analysis.Json.{is_json}
use local_ai_perf_analysis.Chrome.Valid.{HasCleanComm}
use local_ai_perf_analysis.Session.{trace_file, trace_file-is_json}
use local_ai_perf_analysis.Options.{Options, default_options, parse_args, choose_library}
use local_ai_perf_analysis.Process.{Process, new_process, Flow, go_on, cleanup, return}
use local_ai_perf_analysis.Process.Tracking.{IsClean, Tracks, close-IsClean, new_process-IsTracked}
use local_ai_perf_analysis.Process.Ready.{flow_if}
use local_ai_perf_analysis.UnifiedTrace.{
  PollRound, poll_both, UnifiedCalls, setup, close, tool_of, write_trace, conclude, main,
}
use local_ai_perf_analysis.UnifiedTrace.Polling.{EndsPolling, AllDelivered, poll_both_ends}
use local_ai_perf_analysis.UnifiedTrace.Setup.{ready, setup-Advances, setup-Needs, close-Closes}

module _ (atoi : Bytes → ℤ) (q : Qsort UnifiedEvent) (P : FloatPrint) where
  trivially_All : (l : List UnifiedEvent) → All (λ e. Unit {0}) l
  trivially_All [] = tt
  trivially_All (e ∷ l) = (tt, trivially_All l)

  -- With a loop that ends, the end of main is reached with everything given back, behind any state that accounts for
  -- its resources and a flow that does not return.
  conclude_ends :
      (o : Options) (a : UnifiedCalls) (c : Collected) (b : Bool) (r : Flow × Process)
      → Tracks 39 r
      → r.0 ≡ flow_if b
      → (n : ℕ) × (p : Process) × (f : Option Bytes) × (conclude atoi q P o a (some c) r
          ≡ some (n, p, f))
        × IsClean p
  unfolding conclude
  conclude_ends o a c b (go_on, p) t h =
      (0, close p, write_trace atoi q P o a c, refl, close-IsClean p close-Closes t)
  conclude_ends o a c b (cleanup, p) t h = (0, close p, none, refl, close-IsClean p close-Closes t)
  conclude_ends o a c true (return n, p) t h = absurd (cc h)
  conclude_ends o a c false (return n, p) t h = absurd (cc h)

  main_rejected :
      (rounds : ℕ → PollRound) (fuel : ℕ) (args : List Bytes) (a : UnifiedCalls)
      → parse_args atoi args default_options ≡ none
      → main atoi q P args a rounds fuel ≡ some (1, new_process, none)
  unfolding main
  main_rejected rounds fuel args a bad = rw (main, bad) refl

  main_no_library :
      (rounds : ℕ → PollRound) (fuel : ℕ) (args : List Bytes) (a : UnifiedCalls) {o : Options}
      → parse_args atoi args default_options ≡ some o
      → choose_library a.access o ≡ none
      → main atoi q P args a rounds fuel ≡ some (1, new_process, none)
  unfolding main
  main_no_library rounds fuel args a parsed missing = rw (main, parsed, missing) refl

  pub main-conclude :
      (rounds : ℕ → PollRound) (fuel : ℕ) (args : List Bytes) (a : UnifiedCalls) {o : Options}
      {path : Bytes}
      → parse_args atoi args default_options ≡ some o
      → choose_library a.access o ≡ some path
      → main atoi q P args a rounds fuel
        ≡ conclude atoi q P o a (poll_both rounds fuel 0 nothing_yet) (setup o a new_process)
  unfolding main
  main-conclude rounds fuel args a parsed found = rw (main, parsed, found) refl

  -- Whatever the arguments of unified_trace are and however its calls turn out, if a round of the polling loop
  -- ends it, main returns, and it has given back the two objects, every link, the symbolizer and the two ring
  -- buffers, each once.
  pub unified_main_returns :
      (rounds : ℕ → PollRound) (fuel k : ℕ) (args : List Bytes) (a : UnifiedCalls)
      → EndsPolling (rounds k)
      → k < fuel
      → (n : ℕ) × (p : Process) × (f : Option Bytes) × (main atoi q P args a rounds fuel
          ≡ some (n, p, f))
        × IsClean p
  unified_main_returns rounds fuel k args a h lt =
      elim (Option-cases (parse_args atoi args default_options)) [
        | inl bad ↦ (1, new_process, none, main_rejected rounds fuel args a bad, λ s. refl)
        | inr (o, parsed) ↦ elim (Option-cases (choose_library a.access o)) [
          | inl missing ↦
              (1, new_process, none, main_no_library rounds fuel args a parsed missing, λ s. refl)
          | inr (path, found) ↦
              let (l, looped, held) =
                poll_both_ends rounds (λ e. Unit) fuel 0 k nothing_yet
                  (λ j. (trivially_All _, trivially_All _)) h (omega arith) (omega arith) in
              rw (main-conclude rounds fuel args a parsed found, looped)
                (conclude_ends o a (collect l nothing_yet) (ready a) (setup o a new_process)
                  ((setup-Advances o a).keeps new_process new_process-IsTracked)
                  ((setup-Needs o a).flows new_process))
        ]
      ]

  conclude_unready :
      (o : Options) (a : UnifiedCalls) (loop : Option Collected) (r : Flow × Process)
      → r.0 ≡ cleanup
      → conclude atoi q P o a loop r ≡ some (0, close r.1, none)
  unfolding conclude
  conclude_unready o a loop (go_on, p) h = absurd (cc h)
  conclude_unready o a loop (cleanup, p) h = refl
  conclude_unready o a loop (return n, p) h = absurd (cc h)

  cleanup-IsClean : (r : Flow × Process) → Tracks 39 r → r.0 ≡ cleanup → IsClean (close r.1)
  cleanup-IsClean (go_on, p) t h = absurd (cc h)
  cleanup-IsClean (cleanup, p) t h = close-IsClean p close-Closes t
  cleanup-IsClean (return n, p) t h = absurd (cc h)

  -- If the arguments of unified_trace are understood and a library is found, but one of the calls fails
  -- without which nothing is traced, then main writes no file, gives back what it took, and still returns 0.
  pub unified_main_untraced :
      (rounds : ℕ → PollRound) (fuel : ℕ) (args : List Bytes) (a : UnifiedCalls) (o : Options)
      (path : Bytes)
      → parse_args atoi args default_options ≡ some o
      → choose_library a.access o ≡ some path
      → ready a ≡ false
      → (p : Process) × (main atoi q P args a rounds fuel ≡ some (0, p, none)) × IsClean p
  unified_main_untraced rounds fuel args a o path parsed found misses =
      let r = setup o a new_process in
      let end : r.0 ≡ cleanup = (setup-Needs o a).flows new_process ∙ ap flow_if misses in
      (
        close r.1,
        main-conclude rounds fuel args a parsed found
            ∙ (conclude_unready o a (poll_both rounds fuel 0 nothing_yet) r end),
        cleanup-IsClean r ((setup-Advances o a).keeps new_process new_process-IsTracked) end,
      )

  pub conclude_ready :
      (o : Options) (a : UnifiedCalls) (c : Collected) (r : Flow × Process)
      → r.0 ≡ go_on
      → conclude atoi q P o a (some c) r ≡ some (0, close r.1, write_trace atoi q P o a c)
  unfolding conclude
  conclude_ready o a c (go_on, p) h = refl
  conclude_ready o a c (cleanup, p) h = absurd (cc h)
  conclude_ready o a c (return n, p) h = absurd (cc h)

  write_trace-is_json :
      (o : Options) (a : UnifiedCalls) (l : List UnifiedEvent)
      → All HasCleanComm l
      → a.fopen_works ≡ true
      → a.table_allocates ≡ true
      → Option.map is_json (write_trace atoi q P o a (collect l nothing_yet)) ≡ some true
  unfolding write_trace trace_file
  write_trace-is_json o a l held opens allocates =
      ap₂ (λ x y. Option.map is_json (trace_file q P (tool_of o a) x y l)) opens allocates
      ∙ trace_file-is_json q P (tool_of o a) l held

  -- If the arguments of unified_trace are understood and a library is found, every call succeeds without which
  -- nothing is traced, the file can be opened and the table allocated, no command name that arrives holds a
  -- quote, a backslash or a control character, and a round of the polling loop ends it, then main returns 0
  -- and has written a file that is one JSON value.
  pub main-is_json :
      (rounds : ℕ → PollRound) (fuel k : ℕ) (args : List Bytes) (a : UnifiedCalls) (o : Options)
      (path : Bytes)
      → parse_args atoi args default_options ≡ some o
      → choose_library a.access o ≡ some path
      → ready a ≡ true
      → a.fopen_works ≡ true
      → a.table_allocates ≡ true
      → ((j : ℕ) → AllDelivered HasCleanComm (rounds j))
      → EndsPolling (rounds k)
      → k < fuel
      → (p : Process) × (f : Option Bytes) × (main atoi q P args a rounds fuel ≡ some (0, p, f))
        × (Option.map is_json f ≡ some true)
  main-is_json rounds fuel k args a o path parsed found works opens allocates clean h lt =
      let r = setup o a new_process in
      let end : r.0 ≡ go_on = (setup-Needs o a).flows new_process ∙ ap flow_if works in
      let (l, looped, held) =
        poll_both_ends rounds HasCleanComm fuel 0 k nothing_yet clean h (omega arith)
          (omega arith) in
      (
        close r.1,
        write_trace atoi q P o a (collect l nothing_yet),
        rw (main-conclude rounds fuel args a parsed found, looped)
            (conclude_ready o a (collect l nothing_yet) r end),
        write_trace-is_json o a l held opens allocates,
      )
