-- ===== src/Tests/Whole.antt =====
-- unified_trace --pid 7 on a copy by thread 8 of process 7, while threads 7 and 8 are woken and switched.
use local_ai_perf_analysis.Prelude.{
  ℕ, ◌==◌, ◌≤◌, pos, true, false, List, [], ◌∷◌, ◌≡◌, refl, arith, some, Bytes, codes, inl, inr,
  length, take, All, sub64,
}
use local_ai_perf_analysis.Events.{memcpy_async}
use local_ai_perf_analysis.BpfMap.Bounded.{find, remove, has, fits, put}
use local_ai_perf_analysis.Cuda.{
  record_entry, submit_event, event_of, maybe_capture_stack, sample_period,
}
use local_ai_perf_analysis.Cuda.Probes.{enter, leave, fire, run, entry_probe, return_probe}
use local_ai_perf_analysis.Cuda.Pairing.{call_event}
use local_ai_perf_analysis.Cuda.Invariant.{IsGenuineEvent}
use local_ai_perf_analysis.Sched.{
  switch, wakeup, sched_step, trace_sched_switch, trace_sched_wakeup,
}
use local_ai_perf_analysis.Collector.{UnifiedEvent, compare_events, max_events}
use local_ai_perf_analysis.Attach.{contains}
use local_ai_perf_analysis.Entry.{gpu_entry}
use local_ai_perf_analysis.Chrome.{output_chrome_tracing_json}
use local_ai_perf_analysis.Options.{
  Options, default_options, parse_args, read_option, read_flag, choose_library,
}
use local_ai_perf_analysis.Process.{Process}
use local_ai_perf_analysis.UnifiedTrace
use local_ai_perf_analysis.UnifiedTrace.{tool_of}
use local_ai_perf_analysis.UnifiedTrace.Config.{cpu_target, cfg_of, has_rodata}
use local_ai_perf_analysis.System.{
  probe, sched, Happening, happen, happen_all, poll_round, world_at, rounds_of,
}
use local_ai_perf_analysis.System.Streams.{cpus, gpus, steps_until}
use local_ai_perf_analysis.System.Tracer.{
  Accounts, idle, rounds_in, arrived_in, left_in, main-Accounts,
}
use local_ai_perf_analysis.System.Filter.{main-followed}
use local_ai_perf_analysis.System.Calls.{main-call_event}
use local_ai_perf_analysis.Tests.Options.{atoi}
use local_ai_perf_analysis.Tests.Output.{cut_print}
use local_ai_perf_analysis.Tests.Sorting.{insertion_sort}
use local_ai_perf_analysis.Tests.Sched.{to_8, wake_8, answers}
use local_ai_perf_analysis.Tests.Cuda.{calls_map, copy_start, copy_end}
use local_ai_perf_analysis.Tests.Unified.{unified_calls}

abbrev arguments : List Bytes
arguments = codes "--pid" ∷ codes "7" ∷ codes "--cuda-lib" ∷ codes "/lib/libcudart.so" ∷ []

abbrev chosen : Options
chosen = record default_options {
  target_pid = pos 7;
  cuda_lib_path = some (codes "/lib/libcudart.so");
}

arguments_read : parse_args atoi arguments default_options ≡ some chosen
unfolding parse_args read_option read_flag
arguments_read = refl

-- Thread 7 is woken and thread 8 starts its copy before the first poll; the copy ends before the second.
abbrev working : Happening
working = record {
  exiting = false;
  before_cpu =
      sched (wakeup (record wake_8 { pid = 7 }) (answers 100))
      ∷ sched (switch to_8 (answers 200))
      ∷ probe (enter memcpy_async copy_start)
      ∷ [];
  cpu_taken = 5;
  cpu_polled = pos 1;
  before_gpu =
      probe (leave memcpy_async copy_end)
      ∷ sched (wakeup (record wake_8 { pid = 7 }) (answers 1600))
      ∷ [];
  gpu_taken = 5;
  gpu_polled = pos 1;
}

-- One round of work, and the flag.
abbrev happenings : ℕ → Happening
happenings i = record working { exiting = i == 1 }

abbrev counters : ℕ → ℕ
counters processor = 0

-- The second wakeup stays in the ring buffer.
two_arrive :
    (length (cpus (arrived_in calls_map happenings [] counters chosen unified_calls 1)) ≡ 1)
    × (length (gpus (arrived_in calls_map happenings [] counters chosen unified_calls 1)) ≡ 1)
unfolding world_at rounds_of poll_round happen_all happen fire entry_probe return_probe record_entry
    submit_event maybe_capture_stack sched_step trace_sched_switch trace_sched_wakeup cpu_target
    cfg_of has_rodata find put remove has fits sample_period event_of
two_arrive = (refl, refl)

main-Accounts_example :
    (p : Process) × (l : List UnifiedEvent) × (UnifiedTrace.main atoi insertion_sort cut_print
        arguments unified_calls
        (rounds_in calls_map happenings [] counters chosen unified_calls)
        5
      ≡ some (
        0,
        p,
        output_chrome_tracing_json cut_print
            (tool_of chosen unified_calls)
            true
            true
            (insertion_sort.qsort compare_events (take max_events l))
            (length (take max_events l)),
      ))
    × Accounts calls_map
        (cpu_target chosen unified_calls)
        (cfg_of chosen unified_calls)
        (idle calls_map [] counters)
        (steps_until happenings 1 0)
        l
        (left_in calls_map happenings [] counters chosen unified_calls 1)
    × All (IsGenuineEvent (cfg_of chosen unified_calls)) (gpus l)
unfolding find rounds_of poll_round
main-Accounts_example =
    main-Accounts atoi insertion_sort cut_print calls_map happenings [] counters 5 1 arguments
      unified_calls chosen (codes "/lib/libcudart.so") arguments_read
      (unfold choose_library in refl) refl (λ key. refl) (λ j lt. (ground arith, refl, refl))
      (inl refl) (omega arith)

main-followed_example :
    (p : Process) × (l : List UnifiedEvent) × (UnifiedTrace.main atoi insertion_sort cut_print
        arguments unified_calls
        (rounds_in calls_map happenings [] counters chosen unified_calls)
        5
      ≡ some (
        0,
        p,
        output_chrome_tracing_json cut_print
            (tool_of chosen unified_calls)
            true
            true
            (insertion_sort.qsort compare_events (take max_events l))
            (length (take max_events l)),
      ))
    × Accounts calls_map
        (cpu_target chosen unified_calls)
        (cfg_of chosen unified_calls)
        (idle calls_map [] counters)
        (steps_until happenings 1 0)
        l
        (left_in calls_map happenings [] counters chosen unified_calls 1)
    × All (λ e. e.tid ≡ 7) (cpus l)
    × All (λ g. g.pid ≡ 7) (gpus l)
unfolding find rounds_of poll_round has_rodata
main-followed_example =
    main-followed atoi insertion_sort cut_print calls_map happenings [] counters 5 1 arguments
      unified_calls chosen (codes "/lib/libcudart.so") arguments_read
      (unfold choose_library in refl) refl (refl, refl, refl, refl) (λ e. omega arith) (λ key. refl)
      (λ j lt. (ground arith, refl, refl)) (inl refl) (omega arith)

main-call_event_example :
    (p : Process) × (file : Bytes) × (UnifiedTrace.main atoi insertion_sort cut_print arguments
        unified_calls
        (rounds_in calls_map happenings [] counters chosen unified_calls)
        5
      ≡ some (0, p, some file))
    × (base : ℕ) × (base ≤ 1000)
    × (contains
          (gpu_entry cut_print
            (tool_of chosen unified_calls)
            (sub64 1000 base)
            (call_event (cfg_of chosen unified_calls) memcpy_async copy_start copy_end counters))
          file
        ≡ true)
unfolding world_at rounds_of poll_round happen_all happen run fire entry_probe return_probe
    record_entry submit_event maybe_capture_stack sched_step trace_sched_switch trace_sched_wakeup
    cpu_target cfg_of has_rodata find put remove has fits sample_period event_of
main-call_event_example =
    main-call_event atoi insertion_sort cut_print calls_map happenings [] counters 5 1 arguments
      unified_calls chosen (codes "/lib/libcudart.so") [] [] [] memcpy_async copy_start copy_end
      arguments_read (unfold choose_library in refl) refl refl refl
      (λ j lt. (ground arith, refl, refl)) (inl refl) (omega arith) refl (inr refl) refl tt refl
      refl (omega arith) (omega arith) (omega arith) (omega arith)
