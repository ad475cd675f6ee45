-- ===== src/Chrome/Valid.antt =====
-- src/user/unified_trace.c: the file that output_chrome_tracing_json writes, as JSON.
use mathlib.Core.Option
use local_ai_perf_analysis.Prelude.{
  ltb, ◌-◌, ℕ, zero, suc, Bool, true, false, List, [], ◌∷◌, ◌++◌, ◌+◌, ◌≡◌, refl, ap, arith, some,
  Bytes, codes, ◌==◌, ◌!=◌, ◌&&◌, All, Bool-cases, inl, inr, sub64, u64_mod,
}
use local_ai_perf_analysis.Events.{CpuSchedEvent, sched_code, sched_on, sched_off, sched_wakeup}
use local_ai_perf_analysis.Collector.{UnifiedEvent, cpu, gpu, min_timestamp_from}
use local_ai_perf_analysis.Printf.{FloatPrint, show_dec}
use local_ai_perf_analysis.Printf.Decimal.{show_dec-IsNumber}
use local_ai_perf_analysis.Json.{Frame, object, array, first_value, after, run, is_json, accepted}
use local_ai_perf_analysis.Json.Runs.{run_then, run_number, IsPlain, start, opening}
use local_ai_perf_analysis.Stacks.{Tool}
use local_ai_perf_analysis.Entry.{on_entry}
use local_ai_perf_analysis.Chrome.{
  Writer, fresh_writer, set_on_time, on_time_len, comma_line, thread_names, write_cpu, write_names,
  write_event, write_events, output_chrome_tracing_json,
}
use local_ai_perf_analysis.Chrome.Entries.{
  IsEntry, thread_names-IsEntry, on_entry-IsEntry, off_entry-IsEntry, wakeup_entry-IsEntry,
  gpu_entry-IsEntry,
}

-- The name of the command can stand in a JSON string.
abbrev pub HasCleanComm : UnifiedEvent → Type 0
HasCleanComm (cpu e) = All IsPlain e.comm
HasCleanComm (gpu g) = All IsPlain g.comm

run-comma_line :
    (s : List Frame) (n : ℕ)
    → run (array ∷ s, start (n == 0)) (comma_line n) ≡ (array ∷ s, opening (n == 0))
run-comma_line s zero = refl
run-comma_line s (suc n) = ground arith

-- An entry behind its comma.
run-written :
    (s : List Frame) (n m : ℕ) (x : Bytes)
    → IsEntry x
    → (m == 0) ≡ false
    → run (array ∷ s, start (n == 0)) (comma_line n ++ x) ≡ (array ∷ s, start (m == 0))
run-written s n m x h e = rw e (run_then _ (comma_line n) x (run-comma_line s n) (h s (n == 0)))

module _ (P : FloatPrint) (t : Tool) where
  -- A step of the loop that leaves the array open, behind what it wrote.
  abbrev Extends : Writer → Bytes × Writer → Type 0
  Extends w (x, w') =
      (s : List Frame)
      → run (array ∷ s, start (w.output_count == 0)) x ≡ (array ∷ s, start (w'.output_count == 0))

  write_names-Extends :
      (e : CpuSchedEvent) (w : Writer) → All IsPlain e.comm → Extends w (write_names e w)
  unfolding write_names
  write_names-Extends e w clean s = elim (Bool-cases w.thread_name_written) [
    | inl done ↦ rw done refl
    | inr first ↦ rw first (
        run-written s w.output_count (w.output_count + 2) (thread_names e)
          (thread_names-IsEntry e clean) (ground arith))
  ]

  -- A step that writes one entry behind its comma and counts it.
  entry-Extends :
      (w : Writer) (f : ℕ → ℕ) (x : Bytes)
      → IsEntry x
      → Extends w (
        comma_line w.output_count ++ x,
        record w { cpu_on_time = f; output_count = w.output_count + 1 },
      )
  entry-Extends w f x h s = run-written s w.output_count (w.output_count + 1) x h (ground arith)

  write_cpu-Extends :
      (ts : ℕ) (e : CpuSchedEvent) (w : Writer)
      → All IsPlain e.comm
      → Extends w (write_cpu P t ts e w)
  unfolding write_cpu
  write_cpu-Extends ts e w clean s = elim (Bool-cases (e.event_type == sched_code sched_on)) [
    | inl on ↦
        rw on
          (entry-Extends w w.cpu_on_time (on_entry P t ts e) (on_entry-IsEntry P t ts e clean) s)
    | inr not_on ↦ elim (Bool-cases (e.event_type == sched_code sched_off)) [
      | inl off ↦ elim (Bool-cases (ltb e.tid on_time_len && w.cpu_on_time e.tid != 0)) [
        | inl known ↦
            rw (not_on, off, known)
              (entry-Extends w (set_on_time w.cpu_on_time e.tid 0) _
                (off_entry-IsEntry P t ts (sub64 e.timestamp (w.cpu_on_time e.tid)) e) s)
        | inr unknown ↦ rw (not_on, off, unknown) refl
      ]
      | inr not_off ↦ elim (Bool-cases (e.event_type == sched_code sched_wakeup)) [
        | inl wakeup ↦
            rw (not_on, not_off, wakeup)
              (entry-Extends w w.cpu_on_time _ (wakeup_entry-IsEntry P t ts e) s)
        | inr other ↦ rw (not_on, not_off, other) refl
      ]
    ]
  ]

  write_event-Extends :
      (base : ℕ) (e : UnifiedEvent) (w : Writer)
      → HasCleanComm e
      → Extends w (write_event P t base e w)
  unfolding write_event
  write_event-Extends base (cpu e) w clean s =
      run_then _ (write_names e w).0 _ (write_names-Extends e w clean s)
        (write_cpu-Extends (sub64 e.timestamp base) e (write_names e w).1 clean s)
  write_event-Extends base (gpu g) w clean s =
      entry-Extends w w.cpu_on_time _ (gpu_entry-IsEntry P t (sub64 g.timestamp base) g clean) s

  -- The loop leaves the array open: at its start, or behind an entry.
  run-write_events :
      (s : List Frame) (base : ℕ) (l : List UnifiedEvent) (w : Writer)
      → All HasCleanComm l
      → (b : Bool) × (run (array ∷ s, start (w.output_count == 0)) (write_events P t base l w)
          ≡ (array ∷ s, start b))
  unfolding write_events
  run-write_events s base [] w h = (w.output_count == 0, refl)
  run-write_events s base (e ∷ l) w (he, h) =
      let r = write_event P t base e w in
      let (b, rest) = run-write_events s base l r.1 h in
      (b, run_then _ r.0 (write_events P t base l r.1) (write_event-Extends base e w he s) rest)

  -- With the array still open at its start or behind an entry, the end of the file closes it.
  run-tail :
      (b : Bool) (n : ℕ)
      → run
          (array ∷ object ∷ [], start b)
          (codes "\n  ],\n  \"displayTimeUnit\": \"ms\",\n  \"metadata\": {\n    \"event_count\": "
            ++ (show_dec n ++ codes ",\n    \"tool\": \"ebpf-unified-trace\"\n  }\n}\n"))
        ≡ ([], after)
  run-tail true n =
      run_number (object ∷ object ∷ []) (show_dec n) b',' _ (show_dec-IsNumber n) refl refl
  run-tail false n =
      run_number (object ∷ object ∷ []) (show_dec n) b',' _ (show_dec-IsNumber n) refl refl

  -- If the file can be opened and the table allocated, and no command name holds a quote, a backslash or
  -- a control character, the file is one JSON value, for any events in any order, whatever the stack
  -- map and the symbolizer return.
  pub output_chrome_tracing_json-is_json :
      (l : List UnifiedEvent) (n : ℕ)
      → All HasCleanComm l
      → Option.map is_json (output_chrome_tracing_json P t true true l n) ≡ some true
  unfolding output_chrome_tracing_json
  output_chrome_tracing_json-is_json l n h =
      let base = min_timestamp_from (u64_mod - 1) l in
      let (b, events) = run-write_events (object ∷ []) base l fresh_writer h in
      ap (λ p. some (accepted p))
        (run_then (array ∷ object ∷ [], first_value) (write_events P t base l fresh_writer) _ events
          (run-tail b n))
