-- ===== src/Chrome/Balance.antt =====
-- src/bpf/trace_cpu_sched.bpf.c and src/user/unified_trace.c together: the events that the scheduler's
-- tracepoints submit for a followed thread, and the entries of the trace.
use local_ai_perf_analysis.Prelude.{
  ℕ, true, false, List, [], ◌∷◌, ◌++◌, ◌≡◌, ◌≢◌, ◌<◌, refl, ◌∙◌, arith, inr, All, sub64, ◌!=◌,
  append_assoc, map, ap, codes,
}
use local_ai_perf_analysis.Events.{CpuSchedEvent}
use local_ai_perf_analysis.Sched.{SchedStep, CpuEvents, sched_run}
use local_ai_perf_analysis.Sched.Alternation.{
  Schedule, HasRoom, event_fits, all_fit, sched_run-all_fit, sched_run-target,
}
use local_ai_perf_analysis.Collector.{cpu}
use local_ai_perf_analysis.Printf.{FloatPrint}
use local_ai_perf_analysis.Stacks.{Tool}
use local_ai_perf_analysis.Chrome.{
  Writer, fresh_writer, on_time_len, thread_names, write_names, write_cpu, write_event,
  write_events,
}
use local_ai_perf_analysis.Chrome.Durations.{names_done, cpu_names}
use local_ai_perf_analysis.Chrome.Timeline.{
  since_after, following, names_text, thread_names-names_text, on_entry-begin_text,
  off_entry-end_text, wakeup_entry-instant_text, entry_of, timeline, timeline_text,
}

-- An event of the thread at a time other than 0.
abbrev pub IsTimed : ℕ → CpuSchedEvent → Type 0
IsTimed tid e = (e.tid ≡ tid) × (e.timestamp ≢ 0)

module _ (P : FloatPrint) (t : Tool) where
  -- While the table knows since when the thread runs, the entry of an event that fits is written, and it still does.
  record Fitting (base tid since : ℕ) (e : CpuSchedEvent) (w : Writer) : Type 0 where
    pub text :
        (write_cpu P t (sub64 e.timestamp base) e w).0 ≡ codes ",\n" ++ entry_of P t base since e
    pub counted : 0 < (write_cpu P t (sub64 e.timestamp base) e w).1.output_count
    pub time : (write_cpu P t (sub64 e.timestamp base) e w).1.cpu_on_time tid ≡ since_after since e

  write_cpu-Fitting :
      (base tid since : ℕ) (e : CpuSchedEvent) (w : Writer)
      → tid < on_time_len
      → IsTimed tid e
      → event_fits tid (since != 0) e ≡ true
      → w.cpu_on_time tid ≡ since
      → 0 < w.output_count
      → Fitting base tid since e w
  unfolding write_cpu
  write_cpu-Fitting base tid since e w lt (same, time) fits known behind = record {
    text = ground (
      arith,
      on_entry-begin_text P t (sub64 e.timestamp base) e,
      off_entry-end_text P t (sub64 e.timestamp base) (sub64 e.timestamp since) e,
      wakeup_entry-instant_text P t (sub64 e.timestamp base) e,
    );
    counted = ground arith;
    time = ground arith;
  }

  entries_text :
      (base tid since : ℕ) (l : CpuEvents) (w : Writer)
      → w.thread_name_written ≡ true
      → tid < on_time_len
      → All (IsTimed tid) l
      → all_fit tid (since != 0) l ≡ true
      → w.cpu_on_time tid ≡ since
      → 0 < w.output_count
      → write_events P t base (map cpu l) w ≡ following (timeline P t base since l)
  unfolding write_events write_event
  entries_text base tid since [] w named lt timed fits known behind = refl
  entries_text base tid since (e ∷ l) w named lt (here, timed) fits known behind =
      let now : event_fits tid (since != 0) e ≡ true = ground arith in
      let later : all_fit tid (since_after since e != 0) l ≡ true = ground arith in
      let step = write_cpu-Fitting base tid since e w lt here now known behind in
      let next = (write_cpu P t (sub64 e.timestamp base) e w).1 in
      let rest =
        entries_text base tid (since_after since e) l next
          (cpu_names P t (sub64 e.timestamp base) e w ∙ named) lt timed later step.time
          step.counted in
      rw (names_done e w named, step.text)
        (ap (λ x. codes ",\n" ++ (entry_of P t base since e ++ x)) rest)

  events-IsTimed :
      (tid : ℕ) (l : CpuEvents)
      → All (λ e. e.tid ≡ tid) l
      → All (λ e. e.timestamp ≢ 0) l
      → All (IsTimed tid) l
  events-IsTimed tid [] h k = tt
  events-IsTimed tid (e ∷ l) (he, h) (ke, k) = ((he, ke), events-IsTimed tid l h k)

  -- In front of the first event stand the names.
  names_first :
      (base : ℕ) (e : CpuSchedEvent) (l : CpuEvents)
      → let named = (write_names e fresh_writer).1 in
        write_events P t base (map cpu (e ∷ l)) fresh_writer
        ≡ thread_names e ++ write_events P t base (map cpu (e ∷ l)) named
  unfolding write_events write_event write_names
  names_first base e l =
      let r = write_cpu P t (sub64 e.timestamp base) e (write_names e fresh_writer).1 in
      append_assoc (thread_names e) r.0 (write_events P t base (map cpu l) r.1)

  written_events :
      (base tid : ℕ) (l : CpuEvents)
      → tid < on_time_len
      → All (IsTimed tid) l
      → all_fit tid false l ≡ true
      → write_events P t base (map cpu l) fresh_writer ≡ timeline_text P t base l
  unfolding write_events
  written_events base tid [] lt timed fits = refl
  written_events base tid (e ∷ l) lt timed fits =
      names_first base e l
      ∙ ap (λ x. x ++ write_events P t base (map cpu (e ∷ l)) (write_names e fresh_writer).1)
          (thread_names-names_text e)
      ∙ ap (λ x. names_text e ++ x)
          (entries_text base tid 0 (e ∷ l) (write_names e fresh_writer).1
            (unfold write_names in refl) lt timed fits (unfold write_names in refl)
            (unfold write_names in omega arith))

  -- Of a thread that is traced from a moment at which it does not run, under any legal history with no
  -- failed reservation and with no event at time 0, each submitted event becomes one entry of the
  -- trace, behind the two that name the threads; a switch off the CPU ends the interval that the last switch onto it
  -- began, with the time that has passed.
  pub write_events-sched_run :
      (base target : ℕ) {l : List SchedStep}
      → target ≢ 0
      → target < on_time_len
      → Schedule target false l
      → All HasRoom l
      → All (λ e. e.timestamp ≢ 0) (sched_run target l [])
      → write_events P t base (map cpu (sched_run target l [])) fresh_writer
        ≡ timeline_text P t base (sched_run target l [])
  write_events-sched_run base target {l} traced lt s room timed =
      written_events base target (sched_run target l []) lt
        (events-IsTimed target (sched_run target l []) (sched_run-target target l traced) timed)
        (sched_run-all_fit target target (inr refl) s room)
