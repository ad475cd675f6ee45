-- ===== src/Collector.antt =====
-- src/user/unified_trace.c: the event array that the two ring-buffer callbacks fill, and the
-- comparison by which qsort orders it. The array is the list of its first `event_count` entries; the
-- union is a data type whose constructor is the `type` field.
pub mod Fill
pub mod Order
pub mod Rising
pub mod Qsort
use local_ai_perf_analysis.Prelude.{
  ℕ, ℤ, pos, negsuc, List, [], ◌∷◌, ◌++◌, if◌then◌else◌, ltb, leb, ◌+◌,
}
use local_ai_perf_analysis.Events.{CpuSchedEvent, CudaEvent}

abbrev pub max_events : ℕ
max_events = 100000

pub data UnifiedEvent : Type 0 where
  cpu : CpuSchedEvent → UnifiedEvent
  gpu : CudaEvent → UnifiedEvent

-- The field `timestamp`, copied from the event.
abbrev pub timestamp : UnifiedEvent → ℕ
timestamp (cpu e) = e.timestamp
timestamp (gpu e) = e.timestamp

pub record Collected : Type 0 where
  pub events : List UnifiedEvent
  pub event_count : ℕ

abbrev pub nothing_yet : Collected
nothing_yet = record { events = []; event_count = 0 }

abbrev store : UnifiedEvent → Collected → Collected
store e c = record { events = c.events ++ e ∷ []; event_count = c.event_count + 1 }

pub handle_cpu_event : CpuSchedEvent → Collected → Collected
handle_cpu_event e c = if leb max_events c.event_count then c else store (cpu e) c

pub handle_gpu_event : CudaEvent → Collected → Collected
handle_gpu_event e c = if leb max_events c.event_count then c else store (gpu e) c

-- The callbacks in the order in which ring_buffer__poll makes them.
pub collect : List UnifiedEvent → Collected → Collected
collect [] c = c
collect (cpu e ∷ l) c = collect l (handle_cpu_event e c)
collect (gpu e ∷ l) c = collect l (handle_gpu_event e c)

-- The result of the comparison, as the source's int.
unfoldable pub compare_events : UnifiedEvent → UnifiedEvent → ℤ
compare_events a b =
    if ltb (timestamp a) (timestamp b)
    then negsuc 0
    else if ltb (timestamp b) (timestamp a)
    then pos 1
    else pos 0

-- The loop that finds the smallest timestamp, from UINT64_MAX on.
unfoldable pub min_timestamp_from : ℕ → List UnifiedEvent → ℕ
min_timestamp_from least [] = least
min_timestamp_from least (e ∷ l) =
    min_timestamp_from (if ltb (timestamp e) least then timestamp e else least) l
