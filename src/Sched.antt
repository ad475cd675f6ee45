-- ===== src/Sched.antt =====
-- src/bpf/trace_cpu_sched.bpf.c: the handlers of the tracepoints sched_switch and sched_wakeup.
-- The ring buffer is the list of the submitted events, oldest first. What the kernel answers during
-- one call is a record: a clock value and the outcome of the reservation for each event.
pub mod Alternation
use local_ai_perf_analysis.Prelude.{
  ℕ, ℤ, negsuc, Bool, List, [], ◌∷◌, ◌++◌, ◌&&◌, Bytes, ◌==◌, ◌!=◌, if◌then◌else◌,
}
use local_ai_perf_analysis.Events.{CpuSchedEvent, sched_code, sched_on, sched_off, sched_wakeup}

-- struct sched_switch_args, with each pid as the __u32 that it is read into.
pub record SchedSwitchArgs : Type 0 where
  pub prev_comm : Bytes
  pub prev_pid : ℕ
  pub prev_state : ℕ
  pub next_comm : Bytes
  pub next_pid : ℕ

-- struct sched_wakeup_args, the fields that the handler reads.
pub record SchedWakeupArgs : Type 0 where
  pub comm : Bytes
  pub pid : ℕ

pub record Answers : Type 0 where
  pub processor : ℕ
  pub stackid : ℤ
  pub first_ktime : ℕ
  pub first_room : Bool
  pub second_ktime : ℕ
  pub second_room : Bool

abbrev pub CpuEvents : Type 0
CpuEvents = List CpuSchedEvent

-- Reserve and submit.
abbrev pub submit : Bool → CpuSchedEvent → CpuEvents → CpuEvents
submit room event ring = if room then ring ++ event ∷ [] else ring

-- The thread that is switched off the CPU; no stack for OFF events.
abbrev pub off_event : SchedSwitchArgs → Answers → ℕ → CpuSchedEvent
off_event ctx an ktime = record {
  timestamp = ktime;
  event_type = sched_code sched_off;
  pid = ctx.prev_pid;
  tid = ctx.prev_pid;
  cpu = an.processor;
  prev_state = ctx.prev_state;
  stack_id = negsuc 0;
  comm = ctx.prev_comm;
}

-- The thread that is switched on, with the stack that bpf_get_stackid finds.
abbrev pub on_event : SchedSwitchArgs → Answers → ℕ → CpuSchedEvent
on_event ctx an ktime = record {
  timestamp = ktime;
  event_type = sched_code sched_on;
  pid = ctx.next_pid;
  tid = ctx.next_pid;
  cpu = an.processor;
  prev_state = 0;
  stack_id = an.stackid;
  comm = ctx.next_comm;
}

abbrev pub wakeup_event : SchedWakeupArgs → Answers → CpuSchedEvent
wakeup_event ctx an = record {
  timestamp = an.first_ktime;
  event_type = sched_code sched_wakeup;
  pid = ctx.pid;
  tid = ctx.pid;
  cpu = an.processor;
  prev_state = 0;
  stack_id = negsuc 0;
  comm = ctx.comm;
}

unfoldable pub trace_sched_switch : ℕ → SchedSwitchArgs → Answers → CpuEvents → CpuEvents
trace_sched_switch target_pid ctx an ring =
    if target_pid != 0 && (ctx.prev_pid != target_pid && ctx.next_pid != target_pid)
    then ring
    else if target_pid != 0
    then (if ctx.prev_pid == target_pid
        then submit an.first_room (off_event ctx an an.first_ktime) ring
        else if ctx.next_pid == target_pid
        then submit an.first_room (on_event ctx an an.first_ktime) ring
        else ring)
    else submit an.second_room (on_event ctx an an.second_ktime)
        (submit an.first_room (off_event ctx an an.first_ktime) ring)

unfoldable pub trace_sched_wakeup : ℕ → SchedWakeupArgs → Answers → CpuEvents → CpuEvents
trace_sched_wakeup target_pid ctx an ring =
    if target_pid != 0 && ctx.pid != target_pid
    then ring
    else submit an.first_room (wakeup_event ctx an) ring

-- What reaches the handlers.
pub data SchedStep : Type 0 where
  switch : SchedSwitchArgs → Answers → SchedStep
  wakeup : SchedWakeupArgs → Answers → SchedStep

unfoldable pub sched_step : ℕ → SchedStep → CpuEvents → CpuEvents
unfolding trace_sched_switch trace_sched_wakeup
sched_step target_pid (switch ctx an) = trace_sched_switch target_pid ctx an
sched_step target_pid (wakeup ctx an) = trace_sched_wakeup target_pid ctx an

unfoldable pub sched_run : ℕ → List SchedStep → CpuEvents → CpuEvents
sched_run target_pid [] ring = ring
sched_run target_pid (s ∷ l) ring = sched_run target_pid l (sched_step target_pid s ring)
