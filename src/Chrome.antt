-- ===== src/Chrome.antt =====
-- src/user/unified_trace.c: output_chrome_tracing_json. Each fprintf
-- is the text that it appends; the state that the loop keeps is the record `Writer`.
pub mod Entries
pub mod Valid
pub mod Durations
pub mod Timeline
pub mod Balance
pub mod Rows
pub mod Injection
pub mod Written
use local_ai_perf_analysis.Prelude.{
  ℕ, ◌-◌, Bool, true, false, List, [], ◌∷◌, ◌++◌, ◌+◌, ◌%◌, Option, none, some, Bytes, codes, ◌==◌,
  ◌!=◌, ◌&&◌, ltb, if◌then◌else◌, sub64, u32_mod, u64_mod,
}
use local_ai_perf_analysis.Events.{CpuSchedEvent, sched_code, sched_on, sched_off, sched_wakeup}
use local_ai_perf_analysis.Collector.{UnifiedEvent, cpu, gpu, timestamp, min_timestamp_from}
use local_ai_perf_analysis.Printf.{FloatPrint, show_dec}
use local_ai_perf_analysis.Entry.{on_entry, off_entry, wakeup_entry, gpu_entry}
use local_ai_perf_analysis.Stacks.{Tool}

-- The variables of the loop: the time at which each thread was last switched on (0 for none), the
-- number of written entries, and whether the thread names are written.
pub record Writer : Type 0 where
  pub cpu_on_time : ℕ → ℕ
  pub output_count : ℕ
  pub thread_name_written : Bool

abbrev pub fresh_writer : Writer
fresh_writer = record { cpu_on_time = λ tid. 0; output_count = 0; thread_name_written = false }

-- The length of `cpu_on_time`.
abbrev pub on_time_len : ℕ
on_time_len = 10000000

abbrev pub set_on_time : (ℕ → ℕ) → ℕ → ℕ → ℕ → ℕ
set_on_time f tid v i = if i == tid then v else f i

-- `if (output_count > 0) fprintf(f, ",\n");`
abbrev pub comma_line : ℕ → Bytes
comma_line count = if ltb 0 count then codes ",\n" else []

-- The two entries of metadata in front of the first CPU event. `seen_tid + 1000000` is a __u32.
unfoldable pub thread_names : CpuSchedEvent → Bytes
thread_names e =
    codes "    {\"name\": \"thread_name\", \"ph\": \"M\", \"pid\": "
    ++ (show_dec e.pid
        ++ (codes ", \"tid\": "
            ++ (show_dec e.tid
                ++ (codes ", \"args\": {\"name\": \"CPU ["
                    ++ (e.comm
                        ++ (codes "]\"}},\n    {\"name\": \"thread_name\", \"ph\": \"M\", \"pid\": "
                            ++ (show_dec e.pid
                                ++ (codes ", \"tid\": "
                                    ++ (show_dec ((e.tid + 1000000) % u32_mod)
                                        ++ codes ", \"args\": {\"name\": \"GPU (CUDA)\"}}")))))))))

unfoldable pub write_names : CpuSchedEvent → Writer → Bytes × Writer
unfolding thread_names
write_names e w = if w.thread_name_written then ([], w) else (
  comma_line w.output_count ++ thread_names e,
  record w { output_count = w.output_count + 2; thread_name_written = true },
)

module _ (P : FloatPrint) (t : Tool) where
  -- The branches of the loop's body for a CPU event. What is written comes with the next state.
  unfoldable pub write_cpu : ℕ → CpuSchedEvent → Writer → Bytes × Writer
  unfolding on_entry off_entry wakeup_entry
  write_cpu ts e w =
      let counted : Writer = record w { output_count = w.output_count + 1 } in
      if e.event_type == sched_code sched_on
      then (
        comma_line w.output_count ++ on_entry P t ts e,
        record counted {
          cpu_on_time =
              if ltb e.tid on_time_len
              then set_on_time w.cpu_on_time e.tid e.timestamp
              else w.cpu_on_time;
        },
      )
      else if e.event_type == sched_code sched_off
      then (if ltb e.tid on_time_len && w.cpu_on_time e.tid != 0
          then (
            comma_line w.output_count
                ++ off_entry P t ts (sub64 e.timestamp (w.cpu_on_time e.tid)) e,
            record counted { cpu_on_time = set_on_time w.cpu_on_time e.tid 0 },
          )
          else ([], w))
      else if e.event_type == sched_code sched_wakeup
      then (comma_line w.output_count ++ wakeup_entry P t ts e, counted)
      else ([], w)

  -- One round of the loop; `base` is the smallest timestamp.
  unfoldable pub write_event : ℕ → UnifiedEvent → Writer → Bytes × Writer
  unfolding write_names write_cpu gpu_entry
  write_event base (cpu e) w =
      let named = write_names e w in
      let written = write_cpu (sub64 e.timestamp base) e named.1 in
      (named.0 ++ written.0, written.1)
  write_event base (gpu g) w = (
    comma_line w.output_count ++ gpu_entry P t (sub64 g.timestamp base) g,
    record w { output_count = w.output_count + 1 },
  )

  unfoldable pub write_events : ℕ → List UnifiedEvent → Writer → Bytes
  unfolding write_event
  write_events base [] w = []
  write_events base (e ∷ l) w = let r = write_event base e w in r.0 ++ write_events base l r.1

  -- The file: `none` if it cannot be opened, and only its head if the table cannot be allocated.
  unfoldable pub output_chrome_tracing_json : Bool → Bool → List UnifiedEvent → ℕ → Option Bytes
  unfolding write_events
  output_chrome_tracing_json opens allocates events event_count =
      let head = codes "{\n  \"traceEvents\": [\n" in
      if opens
      then some (
          if allocates
          then head
            ++ (write_events (min_timestamp_from (u64_mod - 1) events) events fresh_writer
                ++ (codes
                      "\n  ],\n  \"displayTimeUnit\": \"ms\",\n  \"metadata\": {\n    \"event_count\": "
                    ++ (show_dec event_count
                        ++ codes ",\n    \"tool\": \"ebpf-unified-trace\"\n  }\n}\n")))
          else head)
      else none
