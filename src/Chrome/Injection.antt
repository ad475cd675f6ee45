-- ===== src/Chrome/Injection.antt =====
-- src/user/unified_trace.c: command names that hold a quote, which are written as they stand.
use mathlib.Core.Option
use local_ai_perf_analysis.Prelude.{
  ℕ, true, false, List, [], ◌∷◌, ◌++◌, ◌≡◌, ◌≤◌, ◌<◌, refl, ap, ◌∙◌, arith, some, Bytes, All, sub64,
  ◌-◌, u64_mod,
}
use local_ai_perf_analysis.Events.{CpuSchedEvent}
use local_ai_perf_analysis.Collector.{UnifiedEvent, cpu, min_timestamp_from}
use local_ai_perf_analysis.Printf.{FloatPrint, show_dec}
use local_ai_perf_analysis.Printf.Decimal.{show_dec-IsNumber}
use local_ai_perf_analysis.Json.{
  Config, Frame, object, array, first_value, after, bad, text, run, step, is_json, accepted,
}
use local_ai_perf_analysis.Json.Runs.{run_then, run_plain, run_number, IsPlain}
use local_ai_perf_analysis.Stacks.{Tool}
use local_ai_perf_analysis.Chrome.{
  fresh_writer, thread_names, write_names, write_cpu, write_event, write_events,
  output_chrome_tracing_json,
}

run_bad : (s : List Frame) (l : Bytes) → run (s, bad) l ≡ (s, bad)
run_bad s [] = refl
run_bad s (c ∷ l) = run_bad s l

-- A text that spoils what it stands in.
spoiled :
    (p : Config) (s : List Frame) (x y : Bytes) → run p x ≡ (s, bad) → run p (x ++ y) ≡ (s, bad)
spoiled p s x y h = run_then p x y h (run_bad s y)

-- A quote ends the string, and no letter may follow it.
run_quote :
    (s : List Frame) (x y : Bytes) (c : ℕ)
    → All IsPlain x
    → 97 ≤ c
    → c < 123
    → run (object ∷ s, text false) (x ++ b'"' ∷ c ∷ y) ≡ (object ∷ s, bad)
run_quote s x y c plain low high =
    run_then (object ∷ s, text false) x (b'"' ∷ c ∷ y) (run_plain (object ∷ s) false x plain)
      (ap (λ p. run p y) letter ∙ run_bad (object ∷ s) y)
  where
    letter : step (object ∷ s, after) c ≡ (object ∷ s, bad)
    letter = ground arith

run-thread_names_quote :
    (s : List Frame) (e : CpuSchedEvent) (x y : Bytes) (c : ℕ)
    → e.comm ≡ x ++ b'"' ∷ c ∷ y
    → All IsPlain x
    → 97 ≤ c
    → c < 123
    → run (array ∷ s, first_value) (thread_names e) ≡ (object ∷ object ∷ array ∷ s, bad)
unfolding thread_names
run-thread_names_quote s e x y c shape plain low high =
    let o = object ∷ array ∷ s in
    run_number o (show_dec e.pid) b',' _ (show_dec-IsNumber e.pid) refl (
      run_number o (show_dec e.tid) b',' _ (show_dec-IsNumber e.tid) refl (
        spoiled (object ∷ o, text false) (object ∷ o) e.comm _
          (rw shape (run_quote o x y c plain low high))))

module _ (P : FloatPrint) (t : Tool) where
  -- If the first event is one of the scheduler and its command name holds a quote, behind bytes that a string
  -- may hold and before a small letter, the file is not JSON, whatever events follow.
  pub output_chrome_tracing_json-quote :
      (e : CpuSchedEvent) (l : List UnifiedEvent) (n : ℕ) (x y : Bytes) (c : ℕ)
      → e.comm ≡ x ++ b'"' ∷ c ∷ y
      → All IsPlain x
      → 97 ≤ c
      → c < 123
      → Option.map is_json (output_chrome_tracing_json P t true true (cpu e ∷ l) n) ≡ some false
  unfolding output_chrome_tracing_json write_events write_event write_names
  output_chrome_tracing_json-quote e l n x y c shape plain low high =
      let base = min_timestamp_from (u64_mod - 1) (cpu e ∷ l) in
      let w = (write_names e fresh_writer).1 in
      let rest = (write_cpu P t (sub64 e.timestamp base) e w).0 in
      let from : Config = (array ∷ object ∷ [], first_value) in
      let where_left = object ∷ object ∷ array ∷ object ∷ [] in
      ap (λ p. some (accepted p))
        (spoiled from where_left ((thread_names e ++ rest) ++ write_events P t base l _) _ (
          spoiled from where_left (thread_names e ++ rest) (write_events P t base l _) (
            spoiled from where_left (thread_names e) rest
              (run-thread_names_quote (object ∷ []) e x y c shape plain low high))))
