-- ===== src/Sched/Alternation.antt =====
-- src/bpf/trace_cpu_sched.bpf.c against the scheduler: the events of a thread and its state.
use local_ai_perf_analysis.Prelude.{
  ℕ, Bool, true, false, not, List, [], ◌∷◌, ◌++◌, ◌≡◌, ◌≢◌, ◌⊎◌, refl, sym, arith, ◌==◌, ◌!=◌,
  if◌then◌else◌, All, All-append, append_assoc, append-nil, ◌&&◌,
}
use local_ai_perf_analysis.Events.{CpuSchedEvent, sched_code, sched_on, sched_off, sched_wakeup}
use local_ai_perf_analysis.Sched.{
  SchedSwitchArgs, SchedWakeupArgs, Answers, CpuEvents, SchedStep, switch, wakeup, sched_step,
  sched_run, off_event, on_event,
}

-- The histories in which the scheduler switches thread `t` off only while it runs and on only while
-- it does not; the index says whether it runs at the start. Wakeups may come at any time.
pub data Schedule (t : ℕ) : Bool → List SchedStep → Type 0 where
  over : (b : Bool) → Schedule t b []
  leaves :
      (ctx : SchedSwitchArgs) (an : Answers) {l : List SchedStep}
      → ctx.prev_pid ≡ t
      → ctx.next_pid ≢ t
      → Schedule t false l
      → Schedule t true (switch ctx an ∷ l)
  enters :
      (ctx : SchedSwitchArgs) (an : Answers) {l : List SchedStep}
      → ctx.prev_pid ≢ t
      → ctx.next_pid ≡ t
      → Schedule t true l
      → Schedule t false (switch ctx an ∷ l)
  others :
      (ctx : SchedSwitchArgs) (an : Answers) {b : Bool} {l : List SchedStep}
      → ctx.prev_pid ≢ t
      → ctx.next_pid ≢ t
      → Schedule t b l
      → Schedule t b (switch ctx an ∷ l)
  wakes :
      (ctx : SchedWakeupArgs) (an : Answers) {b : Bool} {l : List SchedStep}
      → Schedule t b l
      → Schedule t b (wakeup ctx an ∷ l)

-- No reservation fails.
abbrev pub HasRoom : SchedStep → Type 0
HasRoom (switch ctx an) = (an.first_room ≡ true) × (an.second_room ≡ true)
HasRoom (wakeup ctx an) = an.first_room ≡ true

-- Whether an event fits the state of thread `t`: OFF needs a running thread and ON one that does not
-- run. Events of other threads and wakeups fit any state.
abbrev pub event_fits : ℕ → Bool → CpuSchedEvent → Bool
event_fits t running e =
    if e.tid == t && e.event_type != sched_code sched_wakeup
    then e.event_type == (if running then sched_code sched_off else sched_code sched_on)
    else true

-- The state after the event.
abbrev pub state_after : ℕ → Bool → CpuSchedEvent → Bool
state_after t running e =
    if e.tid == t && e.event_type != sched_code sched_wakeup then not running else running

-- Whether each event fits the state that those before it leave.
abbrev pub all_fit : ℕ → Bool → CpuEvents → Bool
all_fit t running [] = true
all_fit t running (e ∷ es) = event_fits t running e && all_fit t (state_after t running e) es

-- The events that a step submits.
pub emitted : ℕ → SchedStep → CpuEvents
emitted target s = sched_step target s []

pub sched_step-append :
    (target : ℕ) (s : SchedStep) (ring : CpuEvents)
    → sched_step target s ring ≡ ring ++ emitted target s
unfolding sched_step emitted
sched_step-append target (switch ctx an) ring = ground (
  arith,
  append-nil ring,
  append_assoc ring (off_event ctx an an.first_ktime ∷ []) (on_event ctx an an.second_ktime ∷ []),
)
sched_step-append target (wakeup ctx an) ring = ground (arith, append-nil ring)

-- All that a history submits.
pub history : ℕ → List SchedStep → CpuEvents
history target [] = []
history target (s ∷ l) = emitted target s ++ history target l

pub sched_run-history :
    (target : ℕ) (l : List SchedStep) (ring : CpuEvents)
    → sched_run target l ring ≡ ring ++ history target l
unfolding sched_run history
sched_run-history target [] ring = sym (append-nil ring)
sched_run-history target (s ∷ l) ring =
    rw (sched_step-append target s ring, sched_run-history target l, append_assoc) refl

-- The tracer follows the thread.
abbrev pub Watches : ℕ → ℕ → Type 0
Watches target t = (target ≡ 0) ⊎ (target ≡ t)

all_fit-history :
    (target t : ℕ) {b : Bool} {l : List SchedStep}
    → Watches target t
    → Schedule t b l
    → All HasRoom l
    → all_fit t b (history target l) ≡ true
unfolding history emitted sched_step
all_fit-history target t w (over b) h = refl
all_fit-history target t w (leaves ctx an here there s) (room, h) =
    ground (arith, all_fit-history target t w s h)
all_fit-history target t w (enters ctx an here there s) (room, h) =
    ground (arith, all_fit-history target t w s h)
all_fit-history target t w (others ctx an here there s) (room, h) =
    ground (arith, all_fit-history target t w s h)
all_fit-history target t w (wakes ctx an s) (room, h) =
    ground (arith, all_fit-history target t w s h)

-- Under any legal scheduler history with no failed reservation, whether one thread is followed or all, the
-- events of a followed thread are OFF while it runs and ON while it does not, in turn.
pub sched_run-all_fit :
    (target t : ℕ) {b : Bool} {l : List SchedStep}
    → Watches target t
    → Schedule t b l
    → All HasRoom l
    → all_fit t b (sched_run target l []) ≡ true
sched_run-all_fit target t {l} w s h =
    rw (sched_run-history target l []) (all_fit-history target t w s h)

-- With a target, all events of a run are of that thread, whatever the ring buffer refuses.
pub sched_run-target :
    (target : ℕ) (l : List SchedStep)
    → target ≢ 0
    → All (λ e. e.tid ≡ target) (sched_run target l [])
unfolding history
sched_run-target target l h = rw (sched_run-history target l []) (go l)
  where
    one : (s : SchedStep) → All (λ e. e.tid ≡ target) (emitted target s)
    one (switch ctx an) = unfold emitted sched_step in ground arith
    one (wakeup ctx an) = unfold emitted sched_step in ground arith

    go : (l : List SchedStep) → All (λ e. e.tid ≡ target) (history target l)
    go [] = tt
    go (s ∷ l) = All-append _ (emitted target s) (history target l) (one s) (go l)
