-- ===== src/Tests/Unified.antt =====
-- main of src/user/unified_trace.c on concrete runs.
use mathlib.Core.Option
use local_ai_perf_analysis.UnifiedTrace.Alarm.{
  Alarm, Clock, with_signals, unified_main-after, unified_main_endless,
}
use local_ai_perf_analysis.Prelude.{
  ◌!=◌, ◌&&◌, leb, ◌*◌, none, length, take, ℕ, ◌==◌, if◌then◌else◌, pos, negsuc, true, false, List,
  [], ◌∷◌, ◌≡◌, refl, arith, Option, none, some, Bytes, codes, inr,
}
use local_ai_perf_analysis.Json.{is_json}
use local_ai_perf_analysis.Options.{
  Options, default_options, parse_args, read_option, read_flag, choose_library,
}
use local_ai_perf_analysis.Process.{Process}
use local_ai_perf_analysis.Process.Tracking.{IsClean}
use local_ai_perf_analysis.Tests.Options.{atoi}
use local_ai_perf_analysis.Tests.Output.{agent-IsPlain, cut_print}
use local_ai_perf_analysis.Tests.Collector.{switched_on, switched_off, copied}
use local_ai_perf_analysis.Tests.Sorting.{insertion_sort}
use local_ai_perf_analysis.UnifiedTrace
use local_ai_perf_analysis.UnifiedTrace.{PollRound, UnifiedCalls}
use local_ai_perf_analysis.UnifiedTrace.Runs.{
  unified_main_returns, unified_main_untraced, main-is_json,
}
use local_ai_perf_analysis.UnifiedTrace.{tool_of}
use local_ai_perf_analysis.UnifiedTrace.Delivery.{delivered, main-delivered}
use local_ai_perf_analysis.Collector.{compare_events, max_events}
use local_ai_perf_analysis.Chrome.{output_chrome_tracing_json}
use local_ai_perf_analysis.Tests.Tools.{one_missing}

abbrev arguments : List Bytes
arguments = codes "--cuda-lib" ∷ codes "/lib/libcudart.so" ∷ []

abbrev chosen : Options
chosen = record default_options { cuda_lib_path = some (codes "/lib/libcudart.so") }

arguments_read : parse_args atoi arguments default_options ≡ some chosen
unfolding parse_args read_option read_flag
arguments_read = refl

abbrev pub unified_calls : UnifiedCalls
unified_calls = record {
  access = λ path. false;
  cpu_opens = true;
  cpu_rodata = true;
  cpu_rodata_set = true;
  cpu_loaded = pos 0;
  stack_map_fd = some (pos 5);
  switch_attaches = true;
  wakeup_attaches = true;
  gpu_opens = true;
  gpu_rodata = false;
  gpu_map_names = some (codes "cuda_events") ∷ none ∷ some (codes "trace_cu.rodata") ∷ [];
  gpu_rodata_set = true;
  gpu_loaded = pos 0;
  finds = λ name. true;
  attaches = one_missing;
  bsw_new_works = false;
  has_cpu_map = true;
  makes_cpu_ring = true;
  has_gpu_map = true;
  makes_gpu_ring = true;
  stack_map = λ id. none;
  bsw_resolve = λ pid addrs n. [];
  calloc_works = true;
  fopen_works = true;
  table_allocates = true;
}

-- A command that is switched on and off in each round, and copies; the signal interrupts the second poll of round 1.
abbrev batches : ℕ → PollRound
batches i = record {
  exiting = false;
  cpu_batch = switched_on ∷ switched_off ∷ [];
  cpu_polled = pos 2;
  gpu_batch = copied ∷ [];
  gpu_polled = if i == 1 then negsuc 3 else pos 1;
}

unified_main_returns_example :
    (n : ℕ) × (p : Process) × (f : Option Bytes) × (UnifiedTrace.main atoi insertion_sort cut_print
        arguments unified_calls batches 5
      ≡ some (n, p, f))
    × IsClean p
unified_main_returns_example =
    unified_main_returns atoi insertion_sort cut_print batches 5 1 arguments unified_calls
      (inr (inr refl)) (omega arith)

main-is_json_example :
    (p : Process) × (f : Option Bytes) × (UnifiedTrace.main atoi insertion_sort cut_print arguments
        unified_calls batches 5
      ≡ some (0, p, f))
    × (Option.map is_json f ≡ some true)
main-is_json_example =
    main-is_json atoi insertion_sort cut_print batches 5 1 arguments unified_calls chosen
      (codes "/lib/libcudart.so") arguments_read (unfold choose_library in refl) refl refl refl
      (λ j. ((agent-IsPlain, (agent-IsPlain, tt)), (agent-IsPlain, tt))) (inr (inr refl))
      (omega arith)

main-delivered_example :
    (p : Process) × (UnifiedTrace.main atoi insertion_sort cut_print arguments unified_calls batches
        5
      ≡ some (
        0,
        p,
        output_chrome_tracing_json cut_print
            (tool_of chosen unified_calls)
            true
            true
            (insertion_sort.qsort compare_events (take max_events (delivered batches 1 0)))
            (length (take max_events (delivered batches 1 0))),
      ))
main-delivered_example =
    main-delivered atoi insertion_sort cut_print batches 5 1 arguments unified_calls chosen
      (codes "/lib/libcudart.so") arguments_read (unfold choose_library in refl) refl
      (λ j lt. (refl, refl, ground arith)) (inr (inr refl)) (omega arith)

-- Three events of the first round, and three of the second.
two_rounds : length (delivered batches 1 0) ≡ 6
two_rounds = refl

abbrev no_ring : UnifiedCalls
no_ring = record unified_calls { makes_gpu_ring = false }

unified_main_untraced_example :
    (p : Process) × (UnifiedTrace.main atoi insertion_sort cut_print arguments no_ring batches 5
      ≡ some (0, p, none))
    × IsClean p
unified_main_untraced_example =
    unified_main_untraced atoi insertion_sort cut_print batches 5 arguments no_ring chosen
      (codes "/lib/libcudart.so") arguments_read (unfold choose_library in refl) refl

-- An alarm as the manual has it.
exact_alarm : Alarm
exact_alarm = record {
  delivered = λ s t. s != 0 && leb s t;
  never = λ t. refl;
  after = λ s t h le. ground arith;
  before = λ s t lt. ground arith;
}

-- Three seconds a round, and no other signal.
abbrev slow : Clock
slow = record { now = λ i. 3 * i; killed = λ i. false }

unified_main-after_example :
    (n : ℕ) × (p : Process) × (f : Option Bytes) × (UnifiedTrace.main atoi insertion_sort cut_print
        arguments unified_calls
        (with_signals exact_alarm chosen slow batches)
        9
      ≡ some (n, p, f))
    × IsClean p
unified_main-after_example =
    unified_main-after atoi insertion_sort cut_print exact_alarm batches slow 9 4 arguments
      unified_calls chosen arguments_read (λ e. omega arith) (omega arith) (omega arith)

abbrev unlimited : List Bytes
unlimited = codes "--duration" ∷ codes "0" ∷ arguments

unlimited_read :
    parse_args atoi unlimited default_options ≡ some (record chosen { duration = pos 0 })
unfolding parse_args read_option read_flag
unlimited_read = refl

abbrev calm : ℕ → PollRound
calm i = record (batches i) { gpu_polled = pos 1 }

unified_main_endless_example :
    UnifiedTrace.main atoi insertion_sort cut_print unlimited unified_calls
      (with_signals exact_alarm (record chosen { duration = pos 0 }) slow calm)
      9
    ≡ none
unified_main_endless_example =
    unified_main_endless atoi insertion_sort cut_print exact_alarm calm slow 9 unlimited
      unified_calls (record chosen { duration = pos 0 }) (codes "/lib/libcudart.so") unlimited_read
      (unfold choose_library in refl) refl refl (λ j. refl) (λ j. refl) (λ j. refl)
