-- ===== src/Tests/Sched.antt =====
-- The scheduler's tracepoints of src/bpf/trace_cpu_sched.bpf.c and the packet counter on concrete calls.
use local_ai_perf_analysis.Prelude.{ℕ, true, List, [], ◌∷◌, ◌≡◌, refl, inl, arith, pos, codes, ◌+◌}
use local_ai_perf_analysis.Sched.{
  SchedSwitchArgs, SchedWakeupArgs, Answers, SchedStep, switch, wakeup, sched_run,
  trace_sched_switch, off_event,
}
use local_ai_perf_analysis.Sched.Alternation.{
  Schedule, over, leaves, enters, wakes, all_fit, sched_run-all_fit,
}

-- Thread 8 gives way to thread 9.
abbrev pub from_8 : SchedSwitchArgs
from_8 = record {
  prev_comm = codes "agent";
  prev_pid = 8;
  prev_state = 1;
  next_comm = codes "make";
  next_pid = 9;
}

-- And back.
abbrev pub to_8 : SchedSwitchArgs
to_8 = record {
  prev_comm = codes "make";
  prev_pid = 9;
  prev_state = 0;
  next_comm = codes "agent";
  next_pid = 8;
}

abbrev pub wake_8 : SchedWakeupArgs
wake_8 = record { comm = codes "agent"; pid = 8 }

abbrev pub answers : ℕ → Answers
answers time = record {
  processor = 2;
  stackid = pos 5;
  first_ktime = time;
  first_room = true;
  second_ktime = time + 1;
  second_room = true;
}

abbrev there_and_back : List SchedStep
there_and_back =
    switch from_8 (answers 100) ∷ wakeup wake_8 (answers 150) ∷ switch to_8 (answers 200) ∷ []

there_and_back-Schedule : Schedule 8 true there_and_back
there_and_back-Schedule =
    leaves from_8 (answers 100) refl (λ e. omega arith)
      (wakes wake_8 (answers 150) (enters to_8 (answers 200) (λ e. omega arith) refl (over true)))

sched_run-all_fit_example : all_fit 8 true (sched_run 0 there_and_back []) ≡ true
sched_run-all_fit_example =
    sched_run-all_fit 0 8 (inl refl) there_and_back-Schedule
      ((refl, refl), (refl, ((refl, refl), tt)))

-- With thread 8 as the target, its departure is one OFF event and thread 9 leaves no event.
one_off : trace_sched_switch 8 from_8 (answers 100) [] ≡ off_event from_8 (answers 100) 100 ∷ []
unfolding trace_sched_switch
one_off = refl

-- A thread that belongs to another process writes nothing.
no_event : trace_sched_switch 7 from_8 (answers 100) [] ≡ []
unfolding trace_sched_switch
no_event = refl
