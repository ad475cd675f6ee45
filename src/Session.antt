-- ===== src/Session.antt =====
-- src/user/unified_trace.c, main from the polling loop on: the events that arrive are collected, sorted
-- and written. qsort is the C library's, a parameter.
use mathlib.Core.Option
use mathlib.Core.Logic.{∥∥₁_elim}
use mathlib.Core.List.Permᴰ
use local_ai_perf_analysis.Prelude.{
  true, List, ◌≡◌, refl, sym, subst, Bool, Option, some, Bytes, All, arith, All-take, ◌-◌,
}
use local_ai_perf_analysis.Collector.{
  UnifiedEvent, nothing_yet, collect, compare_events, max_events,
}
use local_ai_perf_analysis.Collector.Fill.{IsFilled, collect_lem}
use local_ai_perf_analysis.Collector.Qsort.{Qsort}
use local_ai_perf_analysis.Collector.Rising.{All-perm}
use local_ai_perf_analysis.Printf.{FloatPrint}
use local_ai_perf_analysis.Stacks.{Tool}
use local_ai_perf_analysis.Json.{is_json}
use local_ai_perf_analysis.Chrome.{output_chrome_tracing_json}
use local_ai_perf_analysis.Chrome.Valid.{HasCleanComm, output_chrome_tracing_json-is_json}

module _ (q : Qsort UnifiedEvent) (P : FloatPrint) (t : Tool) where
  -- The file, given whether it can be opened, whether the table can be allocated, and the events in the
  -- order in which the two ring buffers deliver them.
  unfoldable pub trace_file : Bool → Bool → List UnifiedEvent → Option Bytes
  trace_file opens allocates arrived =
      let c = collect arrived nothing_yet in
      output_chrome_tracing_json P t opens allocates (q.qsort compare_events c.events) c.event_count

pub nothing_yet-IsFilled : IsFilled nothing_yet
nothing_yet-IsFilled = record { counted = refl; fits = omega arith }

module _ (q : Qsort UnifiedEvent) (P : FloatPrint) (t : Tool) where
  -- From the ring buffers to the file: whatever events arrive, in whatever order and however many, if the
  -- file can be opened and the table allocated and no command name holds a quote, a backslash or a
  -- control character, the file is one JSON value.
  pub trace_file-is_json :
      (arrived : List UnifiedEvent)
      → All HasCleanComm arrived
      → Option.map is_json (trace_file q P t true true arrived) ≡ some true
  unfolding trace_file
  trace_file-is_json arrived h =
      let c = collect arrived nothing_yet in
      let kept : All HasCleanComm c.events =
        subst (All HasCleanComm) (sym (collect_lem arrived nothing_yet nothing_yet-IsFilled).0)
          (All-take HasCleanComm (max_events - 0) arrived h) in
      ∥∥₁_elim (q.qsort-perm compare_events c.events) (hlevel) (λ d.
        output_chrome_tracing_json-is_json P t (q.qsort compare_events c.events) c.event_count
          (All-perm HasCleanComm (Permᴰ.symm d) kept))
