-- ===== src/Tests/Followed.antt =====
-- unified_trace --pid 8 on one turn of thread 8 on the CPU.
use local_ai_perf_analysis.Prelude.{
  ℕ, ◌==◌, pos, List, [], ◌∷◌, ◌≡◌, refl, arith, some, Bytes, codes, inl, map,
}
use local_ai_perf_analysis.Sched.{sched_run, sched_step, trace_sched_switch, trace_sched_wakeup}
use local_ai_perf_analysis.Collector.{cpu}
use local_ai_perf_analysis.Options.{
  Options, default_options, parse_args, read_option, read_flag, choose_library,
}
use local_ai_perf_analysis.Process.{Process}
use local_ai_perf_analysis.UnifiedTrace
use local_ai_perf_analysis.UnifiedTrace.{PollRound, tool_of}
use local_ai_perf_analysis.UnifiedTrace.Config.{cpu_target}
use local_ai_perf_analysis.UnifiedTrace.Delivery.{delivered}
use local_ai_perf_analysis.UnifiedTrace.Thread.{followed_file, main-sched_run}
use local_ai_perf_analysis.Tests.Options.{atoi}
use local_ai_perf_analysis.Tests.Output.{cut_print}
use local_ai_perf_analysis.Tests.Sorting.{insertion_sort}
use local_ai_perf_analysis.Tests.Timeline.{one_turn, one_turn-Schedule}
use local_ai_perf_analysis.Tests.Unified.{unified_calls}

abbrev arguments : List Bytes
arguments = codes "--pid" ∷ codes "8" ∷ codes "--cuda-lib" ∷ codes "/lib/libcudart.so" ∷ []

abbrev chosen : Options
chosen = record default_options {
  target_pid = pos 8;
  cuda_lib_path = some (codes "/lib/libcudart.so");
}

arguments_read : parse_args atoi arguments default_options ≡ some chosen
unfolding parse_args read_option read_flag
arguments_read = refl

-- The first poll delivers everything; then the signal comes.
abbrev rounds : ℕ → PollRound
rounds i = record {
  exiting = i == 1;
  cpu_batch = sched_run 8 one_turn [];
  cpu_polled = pos 3;
  gpu_batch = [];
  gpu_polled = pos 0;
}

all_delivered : delivered rounds 1 0 ≡ map cpu (sched_run 8 one_turn [])
unfolding sched_run sched_step trace_sched_switch trace_sched_wakeup cpu_target
all_delivered = refl

main-sched_run_example :
    (p : Process) × (UnifiedTrace.main atoi insertion_sort cut_print arguments unified_calls rounds
        5
      ≡ some (
        0,
        p,
        some (followed_file cut_print (tool_of chosen unified_calls) (sched_run 8 one_turn [])),
      ))
unfolding sched_run sched_step trace_sched_switch trace_sched_wakeup cpu_target
main-sched_run_example =
    main-sched_run atoi insertion_sort cut_print rounds 5 1 arguments unified_calls chosen
      (codes "/lib/libcudart.so") arguments_read (unfold choose_library in refl) refl refl refl
      (λ j lt. (ground arith, refl, refl)) (inl refl) (omega arith) (λ e. omega arith) (omega arith)
      one_turn-Schedule ((refl, refl), (refl, ((refl, refl), tt)))
      ((λ e. omega arith), ((λ e. omega arith), ((λ e. omega arith), tt)))
      ((omega arith, (omega arith, tt)), ((omega arith, tt), (tt, tt))) (omega arith) all_delivered
