-- ===== src/UnifiedTrace.antt =====
-- src/user/unified_trace.c, main as a whole: the options, the calls that set the tracer up, the loop that
-- polls both ring buffers, and the cleanup. What the calls return is a record. The variables cpu_obj,
-- sched_switch_link, sched_wakeup_link, gpu_obj, symbolizer, cpu_rb and gpu_rb have the numbers 0, 1, 2, 3,
-- 36, 37 and 38, and gpu_links[i] has 4 + i.
pub mod Polling
pub mod Config
pub mod Setup
pub mod Runs
pub mod Delivery
pub mod Alarm
pub mod Thread
use mathlib.Core.Option
use local_ai_perf_analysis.Prelude.{
  ℕ, zero, suc, ℤ, pos, negsuc, Bool, true, false, List, [], ◌∷◌, Option, none, some, Bytes, map,
  if◌then◌else◌, ◌&&◌,
}
use local_ai_perf_analysis.Events.{CpuSchedEvent, CudaEvent}
use local_ai_perf_analysis.Collector.{
  UnifiedEvent, cpu, gpu, Collected, nothing_yet, collect, compare_events,
}
use local_ai_perf_analysis.Collector.Qsort.{Qsort}
use local_ai_perf_analysis.Printf.{FloatPrint}
use local_ai_perf_analysis.Stacks.{Tool, BswFrame}
use local_ai_perf_analysis.Chrome.{output_chrome_tracing_json}
use local_ai_perf_analysis.Options.{Options, default_options, parse_args, choose_library}
use local_ai_perf_analysis.Attach.{CudaFunc, attach_probes}
use local_ai_perf_analysis.Process.{
  Process, new_process, Flow, go_on, cleanup, return, Step, ◌>>◌, acquire, acquire_each, require,
  checked, release_range, release_all, forget, interrupted,
}

-- One round of the loop: the flag as the test sees it, the events that each poll delivers, its result.
pub record PollRound : Type 0 where
  pub exiting : Bool
  pub cpu_batch : List CpuSchedEvent
  pub cpu_polled : ℤ
  pub gpu_batch : List CudaEvent
  pub gpu_polled : ℤ

-- The loop from round i on, behind the events collected so far; `none` if the fuel is too small.
unfoldable pub poll_both : (ℕ → PollRound) → ℕ → ℕ → Collected → Option Collected
poll_both rounds zero i c = none
poll_both rounds (suc fuel) i c =
    let after_cpu = collect (map cpu (rounds i).cpu_batch) c in
    let after_gpu = collect (map gpu (rounds i).gpu_batch) after_cpu in
    elim (rounds i).exiting [
      | true ↦ some c
      | false ↦ elim (interrupted (rounds i).cpu_polled) [
        | true ↦ some after_cpu
        | false ↦ elim (interrupted (rounds i).gpu_polled) [
          | true ↦ some after_gpu
          | false ↦ poll_both rounds fuel (suc i) after_gpu
        ]
      ]
    ]

-- What the calls of main return.
pub record UnifiedCalls : Type 0 where
  pub access : Bytes → Bool
  pub cpu_opens : Bool
  pub cpu_rodata : Bool
  pub cpu_rodata_set : Bool
  pub cpu_loaded : ℤ
  pub stack_map_fd : Option ℤ
  pub switch_attaches : Bool
  pub wakeup_attaches : Bool
  pub gpu_opens : Bool
  pub gpu_rodata : Bool
  pub gpu_map_names : List (Option Bytes)
  pub gpu_rodata_set : Bool
  pub gpu_loaded : ℤ
  pub finds : Bytes → Bool
  pub attaches : CudaFunc → Bool → Bool
  pub bsw_new_works : Bool
  pub has_cpu_map : Bool
  pub makes_cpu_ring : Bool
  pub has_gpu_map : Bool
  pub makes_gpu_ring : Bool
  pub stack_map : ℤ → Option (List ℕ)
  pub bsw_resolve : ℕ → List ℕ → ℕ → List BswFrame
  pub calloc_works : Bool
  pub fopen_works : Bool
  pub table_allocates : Bool

-- A link that cannot be made is a warning; the symbolizer is made if it is wanted.
unfoldable pub setup : Options → UnifiedCalls → Step
unfolding acquire acquire_each require checked
setup o a =
    acquire 0 a.cpu_opens cleanup
    >> checked a.cpu_loaded
    >> acquire 1 a.switch_attaches go_on
    >> acquire 2 a.wakeup_attaches go_on
    >> acquire 3 a.gpu_opens cleanup
    >> checked a.gpu_loaded
    >> acquire_each 4 (attach_probes a.finds a.attaches)
    >> acquire 36 (o.symbolize_cli && a.bsw_new_works) go_on
    >> require a.has_cpu_map cleanup
    >> acquire 37 a.makes_cpu_ring cleanup
    >> require a.has_gpu_map cleanup
    >> acquire 38 a.makes_gpu_ring cleanup

-- The label `cleanup`; only `symbolizer` is set to NULL.
unfoldable pub close : Process → Process
unfolding release_all release_range
close p =
    forget 36
      (release_all (0 ∷ 3 ∷ 36 ∷ []) (release_range 4 32 (release_all (37 ∷ 38 ∷ 1 ∷ 2 ∷ []) p)))

abbrev pub natural : ℤ → ℕ
natural (pos n) = n
natural (negsuc n) = 0

-- The globals of the output, as main leaves them.
unfoldable pub tool_of : Options → UnifiedCalls → Tool
tool_of o a = record {
  stack_map_fd = elim a.stack_map_fd [ some fd ↦ fd | none ↦ negsuc 0 ];
  stack_map = a.stack_map;
  symbolize_enabled = o.symbolize_cli && a.bsw_new_works;
  symbolizer = if o.symbolize_cli && a.bsw_new_works then some a.bsw_resolve else none;
  max_stack_frames_in_json = natural o.max_stack_frames_in_json;
  calloc_works = a.calloc_works;
}

-- The exit status, the last state, and the trace file if one is written.
abbrev pub Outcome : Type 0
Outcome = ℕ × Process × Option Bytes

module _ (atoi : Bytes → ℤ) (q : Qsort UnifiedEvent) (P : FloatPrint) where
  unfoldable pub write_trace : Options → UnifiedCalls → Collected → Option Bytes
  write_trace o a c =
      output_chrome_tracing_json P (tool_of o a) a.fopen_works a.table_allocates
        (q.qsort compare_events c.events) c.event_count

  -- The loop and the output if the setup gets there, then the label `cleanup`.
  unfoldable pub conclude :
      Options → UnifiedCalls → Option Collected → Flow × Process → Option Outcome
  conclude o a loop (go_on, p) = Option.map (λ c. (0, close p, write_trace o a c)) loop
  conclude o a loop (cleanup, p) = some (0, close p, none)
  conclude o a loop (return n, p) = some (n, p, none)

  unfoldable pub main : List Bytes → UnifiedCalls → (ℕ → PollRound) → ℕ → Option Outcome
  unfolding conclude
  main args a rounds fuel = elim (parse_args atoi args default_options) [
    | none ↦ some (1, new_process, none)
    | some o ↦ elim (choose_library a.access o) [
      | none ↦ some (1, new_process, none)
      | some path ↦ conclude o a (poll_both rounds fuel 0 nothing_yet) (setup o a new_process)
    ]
  ]
