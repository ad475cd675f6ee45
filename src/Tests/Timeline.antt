-- ===== src/Tests/Timeline.antt =====
-- The intervals, rows and entries of the trace of src/user/unified_trace.c, on a few events.
use mathlib.Core.Option
use local_ai_perf_analysis.Prelude.{
  ℕ, true, false, List, [], ◌∷◌, ◌++◌, ◌+◌, ◌-◌, ◌≡◌, ◌≤◌, ◌<◌, ◌↔◌, refl, arith, some, codes,
  sub64,
}
use local_ai_perf_analysis.Events.{CpuSchedEvent}
use local_ai_perf_analysis.Collector.{UnifiedEvent, cpu, gpu}
use local_ai_perf_analysis.Sched.{SchedStep, switch, wakeup}
use local_ai_perf_analysis.Sched.Alternation.{Schedule, over, leaves, enters, wakes}
use local_ai_perf_analysis.Json.{is_json}
use local_ai_perf_analysis.Entry.{off_entry, stream_offset, gpu_virtual_tid}
use local_ai_perf_analysis.Chrome.{
  Writer, fresh_writer, comma_line, write_events, output_chrome_tracing_json, set_on_time,
}
use local_ai_perf_analysis.Chrome.Durations.{writer_after, write_events-duration}
use local_ai_perf_analysis.Chrome.Rows.{stream_offset-byte, gpu_virtual_tid-rows}
use local_ai_perf_analysis.Chrome.Injection.{output_chrome_tracing_json-quote}
use local_ai_perf_analysis.Tests.Collector.{switched_on, switched_off, copied}
use local_ai_perf_analysis.Tests.Sched.{to_8, from_8, wake_8, answers}
use local_ai_perf_analysis.Tests.Output.{cut_print, tool}

abbrev up_to_copy : List UnifiedEvent
up_to_copy = [] ++ cpu switched_on ∷ gpu copied ∷ []

abbrev writer_then : Writer
writer_then = writer_after cut_print tool 2000 up_to_copy fresh_writer

-- On at 2000, off at 5000, a copy in between.
write_events-duration_example :
    write_events cut_print tool 2000 (up_to_copy ++ cpu switched_off ∷ []) fresh_writer
    ≡ write_events cut_print tool 2000 up_to_copy fresh_writer
      ++ ((comma_line writer_then.output_count
            ++ off_entry cut_print tool (sub64 5000 2000) (5000 - 2000) switched_off)
          ++ write_events cut_print tool 2000 [] (record writer_then {
            cpu_on_time = set_on_time writer_then.cpu_on_time 8 0;
            output_count = writer_then.output_count + 1;
          }))
write_events-duration_example =
    write_events-duration cut_print tool 2000 [] (gpu copied ∷ []) [] switched_on switched_off
      fresh_writer refl refl refl (omega arith) (λ e. omega arith) (tt, tt) (omega arith)
      (omega arith)

-- Thread 8 runs once.
abbrev pub one_turn : List SchedStep
one_turn =
    switch to_8 (answers 200) ∷ wakeup wake_8 (answers 250) ∷ switch from_8 (answers 300) ∷ []

pub one_turn-Schedule : Schedule 8 false one_turn
one_turn-Schedule =
    enters to_8 (answers 200) (λ e. omega arith) refl
      (wakes wake_8 (answers 250)
        (leaves from_8 (answers 300) refl (λ e. omega arith) (over false)))

stream_offset-byte_example :
    (stream_offset 0x57 < 256) × ((stream_offset 0x57 ≡ 0) ↔ (◌≡◌ {A = ℕ} 0x57 0))
stream_offset-byte_example = stream_offset-byte 0x57

gpu_virtual_tid-rows_example :
    (1000008 ≤ gpu_virtual_tid copied)
    × (gpu_virtual_tid copied < 1000264)
    × ((gpu_virtual_tid copied ≡ 1000008) ↔ (copied.stream_id ≡ 0))
gpu_virtual_tid-rows_example = gpu_virtual_tid-rows copied (omega arith)

-- A command named x"y.
abbrev misnamed : CpuSchedEvent
misnamed = record switched_on { comm = codes "x\"y" }

output_chrome_tracing_json-quote_example :
    Option.map is_json (output_chrome_tracing_json cut_print tool true true (cpu misnamed ∷ []) 1)
    ≡ some false
output_chrome_tracing_json-quote_example =
    output_chrome_tracing_json-quote cut_print tool misnamed [] 1 (codes "x") [] b'y' refl
      (ground arith) (omega arith) (omega arith)
