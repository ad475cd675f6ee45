-- ===== src/Tests/Collector.antt =====
-- The event array of src/user/unified_trace.c on three events.
use local_ai_perf_analysis.Prelude.{
  List, [], ◌∷◌, ◌≡◌, ◌≤◌, ◌-◌, refl, arith, negsuc, pos, codes, All, Perm, u64_mod, take,
}
use local_ai_perf_analysis.Events.{CpuSchedEvent, CudaEvent}
use local_ai_perf_analysis.Collector.{
  UnifiedEvent, cpu, gpu, timestamp, compare_events, min_timestamp_from, nothing_yet, collect,
  max_events,
}
use local_ai_perf_analysis.Collector.Fill.{IsFilled, collect_lem}
use local_ai_perf_analysis.Collector.Order.{IsAscending, qsort_events, min_timestamp_first}
use local_ai_perf_analysis.Tests.Sorting.{insertion_sort}

abbrev pub switched_on : CpuSchedEvent
switched_on = record {
  timestamp = 2000;
  event_type = 1;
  pid = 8;
  tid = 8;
  cpu = 2;
  prev_state = 0;
  stack_id = negsuc 0;
  comm = codes "agent";
}

abbrev pub switched_off : CpuSchedEvent
switched_off = record {
  timestamp = 5000;
  event_type = 2;
  pid = 8;
  tid = 8;
  cpu = 2;
  prev_state = 1;
  stack_id = negsuc 0;
  comm = codes "agent";
}

abbrev pub copied : CudaEvent
copied = record {
  timestamp = 3000;
  duration_ns = 700;
  pid = 8;
  tid = 8;
  op_type = 6;
  size = 4096;
  ptr = 0;
  ret_val = pos 0;
  comm = codes "agent";
  stream_id = 0x57;
  stack_id = pos 12;
  flags = 3;
}

-- In the order of arrival: the CPU events come from their own ring buffer.
abbrev pub arrived : List UnifiedEvent
arrived = cpu switched_on ∷ cpu switched_off ∷ gpu copied ∷ []

nothing-IsFilled : IsFilled nothing_yet
nothing-IsFilled = record { counted = refl; fits = omega arith }

collect_lem_example :
    ((collect arrived nothing_yet).events ≡ take (max_events - 0) arrived)
    × IsFilled (collect arrived nothing_yet)
collect_lem_example = collect_lem arrived nothing_yet nothing-IsFilled

qsort_events_example :
    Perm (insertion_sort.qsort compare_events arrived) arrived
    × IsAscending (insertion_sort.qsort compare_events arrived)
qsort_events_example = qsort_events insertion_sort arrived

-- And in the order of time.
abbrev pub in_order : List UnifiedEvent
in_order = cpu switched_on ∷ gpu copied ∷ cpu switched_off ∷ []

min_timestamp_first_example :
    (min_timestamp_from (u64_mod - 1) in_order ≡ 2000)
    × All (λ x. min_timestamp_from (u64_mod - 1) in_order ≤ timestamp x) in_order
min_timestamp_first_example =
    min_timestamp_first (cpu switched_on) (gpu copied ∷ cpu switched_off ∷ [])
      ((omega arith, (omega arith, tt)), ((omega arith, tt), (tt, tt))) (omega arith)
