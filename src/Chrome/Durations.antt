-- ===== src/Chrome/Durations.antt =====
-- src/user/unified_trace.c: the intervals on the CPU that output_chrome_tracing_json draws, by its table
-- of the times at which threads were switched on.
use local_ai_perf_analysis.Prelude.{
  ℕ, true, List, [], ◌∷◌, ◌++◌, ◌+◌, ◌-◌, ◌≡◌, ◌≢◌, ◌⊎◌, ◌≤◌, ◌<◌, refl, sym, ap, ◌∙◌, arith, inl,
  inr, All, Bool-cases, append_assoc, sub64, u64_mod,
}
use local_ai_perf_analysis.Events.{CpuSchedEvent, sched_code, sched_on, sched_off}
use local_ai_perf_analysis.Collector.{UnifiedEvent, cpu, gpu}
use local_ai_perf_analysis.Printf.{FloatPrint}
use local_ai_perf_analysis.Stacks.{Tool}
use local_ai_perf_analysis.Entry.{off_entry}
use local_ai_perf_analysis.Chrome.{
  Writer, on_time_len, set_on_time, comma_line, write_names, write_cpu, write_event, write_events,
}

-- An event that does not switch the thread.
abbrev pub Quiet : ℕ → UnifiedEvent → Type 0
Quiet tid (cpu e) =
    (e.tid ≢ tid) ⊎ ((e.event_type ≢ sched_code sched_on) × (e.event_type ≢ sched_code sched_off))
Quiet tid (gpu g) = Unit {0}

-- The state behind an interval that ends.
abbrev pub closed : ℕ → Writer → Writer
closed tid w = record w {
  cpu_on_time = set_on_time w.cpu_on_time tid 0;
  output_count = w.output_count + 1;
}

pub names-on_time :
    (e : CpuSchedEvent) (w : Writer)
    → ((write_names e w).1.cpu_on_time ≡ w.cpu_on_time)
      × ((write_names e w).1.thread_name_written ≡ true)
unfolding write_names
names-on_time e w = elim (Bool-cases w.thread_name_written) [
  | inl done ↦ rw done (refl, refl)
  | inr first ↦ rw first (refl, refl)
]

pub names_done :
    (e : CpuSchedEvent) (w : Writer) → w.thread_name_written ≡ true → write_names e w ≡ ([], w)
unfolding write_names
names_done e w h = rw h refl

module _ (P : FloatPrint) (t : Tool) where
  pub cpu_names :
      (ts : ℕ) (e : CpuSchedEvent) (w : Writer)
      → (write_cpu P t ts e w).1.thread_name_written ≡ w.thread_name_written
  unfolding write_cpu
  cpu_names ts e w = ground arith

  write_cpu-Quiet :
      (ts tid : ℕ) (e : CpuSchedEvent) (w : Writer)
      → Quiet tid (cpu e)
      → (write_cpu P t ts e w).1.cpu_on_time tid ≡ w.cpu_on_time tid
  unfolding write_cpu
  write_cpu-Quiet ts tid e w h = ground arith

  cpu_on :
      (ts : ℕ) (e : CpuSchedEvent) (w : Writer)
      → e.event_type ≡ sched_code sched_on
      → e.tid < on_time_len
      → (write_cpu P t ts e w).1.cpu_on_time e.tid ≡ e.timestamp
  unfolding write_cpu
  cpu_on ts e w h lt = ground arith

  -- The state behind a part of the loop.
  unfoldable pub writer_after : ℕ → List UnifiedEvent → Writer → Writer
  writer_after base [] w = w
  writer_after base (e ∷ l) w = writer_after base l (write_event P t base e w).1

  write_events-append :
      (base : ℕ) (l m : List UnifiedEvent) (w : Writer)
      → write_events P t base (l ++ m) w
        ≡ write_events P t base l w ++ write_events P t base m (writer_after base l w)
  unfolding write_events writer_after
  write_events-append base [] m w = refl
  write_events-append base (e ∷ l) m w =
      let r = write_event P t base e w in
      ap (λ x. r.0 ++ x) (write_events-append base l m r.1)
      ∙ sym (append_assoc r.0 (write_events P t base l r.1) _)

  writer_after-append :
      (base : ℕ) (l m : List UnifiedEvent) (w : Writer)
      → writer_after base (l ++ m) w ≡ writer_after base m (writer_after base l w)
  unfolding writer_after
  writer_after-append base [] m w = refl
  writer_after-append base (e ∷ l) m w = writer_after-append base l m _

  -- Events that leave the thread alone leave its time, and the names stay written.
  write_event-Quiet :
      (base tid : ℕ) (e : UnifiedEvent) (w : Writer)
      → Quiet tid e
      → w.thread_name_written ≡ true
      → ((write_event P t base e w).1.cpu_on_time tid ≡ w.cpu_on_time tid)
        × ((write_event P t base e w).1.thread_name_written ≡ true)
  unfolding write_event
  write_event-Quiet base tid (cpu e) w q h = rw (names_done e w h) (
    write_cpu-Quiet (sub64 e.timestamp base) tid e w q,
    cpu_names (sub64 e.timestamp base) e w ∙ h,
  )
  write_event-Quiet base tid (gpu g) w q h = (refl, h)

  writer_after-Quiet :
      (base tid : ℕ) (l : List UnifiedEvent) (w : Writer)
      → All (Quiet tid) l
      → w.thread_name_written ≡ true
      → ((writer_after base l w).cpu_on_time tid ≡ w.cpu_on_time tid)
        × ((writer_after base l w).thread_name_written ≡ true)
  unfolding writer_after
  writer_after-Quiet base tid [] w q h = (refl, h)
  writer_after-Quiet base tid (e ∷ l) w (qe, q) h =
      let (time, done) = write_event-Quiet base tid e w qe h in
      let (times, all_done) = writer_after-Quiet base tid l _ q done in (times ∙ time, all_done)

  on_step :
      (base : ℕ) (e : CpuSchedEvent) (w : Writer)
      → e.event_type ≡ sched_code sched_on
      → e.tid < on_time_len
      → ((write_event P t base (cpu e) w).1.cpu_on_time e.tid ≡ e.timestamp)
        × ((write_event P t base (cpu e) w).1.thread_name_written ≡ true)
  unfolding write_event
  on_step base e w h lt = (
    cpu_on (sub64 e.timestamp base) e (write_names e w).1 h lt,
    cpu_names (sub64 e.timestamp base) e (write_names e w).1 ∙ (names-on_time e w).1,
  )

  off_step :
      (base tid began : ℕ) (e : CpuSchedEvent) (w : Writer)
      → e.event_type ≡ sched_code sched_off
      → e.tid ≡ tid
      → tid < on_time_len
      → w.cpu_on_time tid ≡ began
      → began ≢ 0
      → w.thread_name_written ≡ true
      → write_event P t base (cpu e) w ≡ (
        comma_line w.output_count
            ++ off_entry P t (sub64 e.timestamp base) (sub64 e.timestamp began) e,
        closed tid w,
      )
  unfolding write_event write_cpu
  off_step base tid began e w h same lt at nonzero done = rw (names_done e w done) (ground arith)

  held_time :
      (base : ℕ) (between : List UnifiedEvent) (on : CpuSchedEvent) (w : Writer)
      → on.event_type ≡ sched_code sched_on
      → on.tid < on_time_len
      → All (Quiet on.tid) between
      → ((writer_after base (cpu on ∷ between) w).cpu_on_time on.tid ≡ on.timestamp)
        × ((writer_after base (cpu on ∷ between) w).thread_name_written ≡ true)
  unfolding writer_after
  held_time base between on w is_on lt quiet =
      let (time, done) = on_step base on w is_on lt in
      let (times, all_done) = writer_after-Quiet base on.tid between _ quiet done in
      (times ∙ time, all_done)

  -- When a thread is switched on at a time other than 0 and, with nothing in between that switches it, off at
  -- a later one, the loop writes an end entry with the time that passed, whatever other events lie before,
  -- between and behind; the thread's number must be below the length of the table.
  pub write_events-duration :
      (base : ℕ) (before between rest : List UnifiedEvent) (on off : CpuSchedEvent) (w : Writer)
      → on.event_type ≡ sched_code sched_on
      → off.event_type ≡ sched_code sched_off
      → off.tid ≡ on.tid
      → on.tid < on_time_len
      → on.timestamp ≢ 0
      → All (Quiet on.tid) between
      → on.timestamp ≤ off.timestamp
      → off.timestamp < u64_mod
      → let seen = before ++ cpu on ∷ between in
        let now = writer_after base seen w in
        write_events P t base (seen ++ cpu off ∷ rest) w
        ≡ write_events P t base seen w
          ++ ((comma_line now.output_count
                ++ off_entry P t (sub64 off.timestamp base) (off.timestamp - on.timestamp) off)
              ++ write_events P t base rest (closed on.tid now))
  unfolding write_events
  write_events-duration base before between rest on off w is_on is_off same lt nonzero quiet le
        small =
      write_events-append base seen (cpu off ∷ rest) w
      ∙ ap (λ x. write_events P t base seen w ++ x)
          (ap (λ r. r.0 ++ write_events P t base rest r.1) (rw took at ended))
    where
      seen : List UnifiedEvent
      seen = before ++ cpu on ∷ between

      now : Writer
      now = writer_after base seen w

      held : (now.cpu_on_time on.tid ≡ on.timestamp) × (now.thread_name_written ≡ true)
      held =
          rw (writer_after-append base before (cpu on ∷ between) w)
            (held_time base between on (writer_after base before w) is_on lt quiet)

      took : sub64 off.timestamp on.timestamp ≡ off.timestamp - on.timestamp
      took = omega arith

      ended : write_event P t base (cpu off) now ≡ (
        comma_line now.output_count
            ++ off_entry P t (sub64 off.timestamp base) (sub64 off.timestamp on.timestamp) off,
        closed on.tid now,
      )
      ended = off_step base on.tid on.timestamp off now is_off same lt held.0 nonzero held.1

  -- A thread that is switched off without having been switched on since the start, or since it was
  -- last switched off, gets no entry, and the state stays.
  pub write_cpu-unmatched :
      (ts : ℕ) (e : CpuSchedEvent) (w : Writer)
      → e.event_type ≡ sched_code sched_off
      → (w.cpu_on_time e.tid ≡ 0) ⊎ (on_time_len ≤ e.tid)
      → write_cpu P t ts e w ≡ ([], w)
  unfolding write_cpu
  write_cpu-unmatched ts e w h none_yet = ground arith
