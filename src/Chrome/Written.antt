-- ===== src/Chrome/Written.antt =====
-- src/user/unified_trace.c, output_chrome_tracing_json: every CUDA event of the array has its entry in the
-- file.
use mathlib.Core.Logic.{∥∥₁_elim}
use native.Mathlib.Bridge.{le_prop}
use local_ai_perf_analysis.Prelude.{
  ℕ, ◌-◌, append-nil, true, ==_self, List, [], ◌∷◌, ◌++◌, some, ◌≡◌, ◌≤◌, refl, sym, ap, ◌∙◌, arith,
  Bytes, codes, All, append_assoc, sub64, u64_mod,
}
use local_ai_perf_analysis.Events.{CudaEvent}
use local_ai_perf_analysis.Attach.{contains, starts_with}
use local_ai_perf_analysis.Collector.{
  UnifiedEvent, cpu, gpu, timestamp, min_timestamp_from, compare_events,
}
use local_ai_perf_analysis.Collector.Qsort.{Qsort}
use local_ai_perf_analysis.Collector.Order.{min_timestamp-le}
use local_ai_perf_analysis.Collector.Rising.{All-perm}
use local_ai_perf_analysis.Printf.{FloatPrint, show_dec}
use local_ai_perf_analysis.Stacks.{Tool}
use local_ai_perf_analysis.Entry.{gpu_entry}
use local_ai_perf_analysis.Chrome.{
  Writer, fresh_writer, comma_line, write_event, write_events, output_chrome_tracing_json,
}

-- The first text stands in the second.
pub record Infix (part text : Bytes) : Type 0 where
  pub front : Bytes
  pub back : Bytes
  pub parts : text ≡ front ++ (part ++ back)

pub Infix-left : (part x y : Bytes) → Infix part x → Infix part (y ++ x)
Infix-left part x y h = record {
  front = y ++ h.front;
  back = h.back;
  parts = ap (λ z. y ++ z) h.parts ∙ sym (append_assoc y h.front (part ++ h.back));
}

Infix-right : (part x y : Bytes) → Infix part x → Infix part (x ++ y)
Infix-right part x y h = record {
  front = h.front;
  back = h.back ++ y;
  parts =
      ap (λ z. z ++ y) h.parts
      ∙ append_assoc h.front (part ++ h.back) y
      ∙ ap (λ z. h.front ++ z) (append_assoc part h.back y);
}

starts_with-append : (part back : Bytes) → starts_with part (part ++ back) ≡ true
starts_with-append [] back = refl
starts_with-append (c ∷ part) back = rw (==_self, starts_with-append part back) refl

contains-append : (part back : Bytes) → contains part (part ++ back) ≡ true
contains-append [] [] = refl
contains-append [] (d ∷ back) = refl
contains-append (c ∷ part) back = rw (==_self, starts_with-append part back) refl

contains-parts : (front part back : Bytes) → contains part (front ++ (part ++ back)) ≡ true
contains-parts [] part back = contains-append part back
contains-parts (d ∷ front) part back = ground (arith, contains-parts front part back)

pub Infix-contains : (part text : Bytes) → Infix part text → contains part text ≡ true
Infix-contains part text h = ap (contains part) h.parts ∙ contains-parts h.front part h.back

module _ (P : FloatPrint) (t : Tool) where
  -- The entry of a CUDA event stands in the text.
  abbrev pub HasEntry : ℕ → Bytes → UnifiedEvent → Type 0
  HasEntry base text (gpu g) = Infix (gpu_entry P t (sub64 g.timestamp base) g) text
  HasEntry base text (cpu e) = Unit {0}

  HasEntry-left :
      (base : ℕ) (x y : Bytes) (l : List UnifiedEvent)
      → All (HasEntry base x) l
      → All (HasEntry base (y ++ x)) l
  HasEntry-left base x y [] h = tt
  HasEntry-left base x y (cpu e ∷ l) (he, h) = (tt, HasEntry-left base x y l h)
  HasEntry-left base x y (gpu g ∷ l) (he, h) = (Infix-left _ x y he, HasEntry-left base x y l h)

  HasEntry-right :
      (base : ℕ) (x y : Bytes) (l : List UnifiedEvent)
      → All (HasEntry base x) l
      → All (HasEntry base (x ++ y)) l
  HasEntry-right base x y [] h = tt
  HasEntry-right base x y (cpu e ∷ l) (he, h) = (tt, HasEntry-right base x y l h)
  HasEntry-right base x y (gpu g ∷ l) (he, h) = (Infix-right _ x y he, HasEntry-right base x y l h)

  write_events-HasEntry :
      (base : ℕ) (l : List UnifiedEvent) (w : Writer)
      → All (HasEntry base (write_events P t base l w)) l
  unfolding write_events write_event
  write_events-HasEntry base [] w = tt
  write_events-HasEntry base (cpu e ∷ l) w =
      let r = write_event P t base (cpu e) w in
      (
        tt,
        HasEntry-left base (write_events P t base l r.1) r.0 l (write_events-HasEntry base l r.1),
      )
  write_events-HasEntry base (gpu g ∷ l) w =
      let r = write_event P t base (gpu g) w in
      let entry = gpu_entry P t (sub64 g.timestamp base) g in
      (
        Infix-right entry (comma_line w.output_count ++ entry) (write_events P t base l r.1)
            (record {
              front = comma_line w.output_count;
              back = [];
              parts = ap (λ x. comma_line w.output_count ++ x) (sym (append-nil entry));
            }),
        HasEntry-left base (write_events P t base l r.1) r.0 l (write_events-HasEntry base l r.1),
      )

  file_of : List UnifiedEvent → ℕ → Bytes
  file_of l n =
      codes "{\n  \"traceEvents\": [\n"
      ++ (write_events P t (min_timestamp_from (u64_mod - 1) l) l fresh_writer
          ++ (codes
                "\n  ],\n  \"displayTimeUnit\": \"ms\",\n  \"metadata\": {\n    \"event_count\": "
              ++ (show_dec n ++ codes ",\n    \"tool\": \"ebpf-unified-trace\"\n  }\n}\n")))

  -- If the file can be opened and the table allocated, the file has the entry of every CUDA event.
  pub output_chrome_tracing_json-HasEntry :
      (l : List UnifiedEvent) (n : ℕ)
      → (file : Bytes) × (output_chrome_tracing_json P t true true l n ≡ some file)
        × All (HasEntry (min_timestamp_from (u64_mod - 1) l) file) l
  unfolding output_chrome_tracing_json file_of
  output_chrome_tracing_json-HasEntry l n =
      let base = min_timestamp_from (u64_mod - 1) l in
      let text = write_events P t base l fresh_writer in
      (
        file_of l n,
        refl,
        HasEntry-left base _ (codes "{\n  \"traceEvents\": [\n") l
            (HasEntry-right base text _ l (write_events-HasEntry base l fresh_writer)),
      )

  -- And so it does when the array was sorted, whichever of its events it is.
  pub qsort-contains :
      (q : Qsort UnifiedEvent) (l : List UnifiedEvent) (n : ℕ) (g : CudaEvent)
      → ((Q : UnifiedEvent → Type 0) → All Q l → Q (gpu g))
      → (file : Bytes) × (output_chrome_tracing_json P t true true (q.qsort compare_events l) n
          ≡ some file)
        × (base : ℕ) × (base ≤ g.timestamp)
        × (contains (gpu_entry P t (sub64 g.timestamp base) g) file ≡ true)
  qsort-contains q l n g pick =
      let sorted = q.qsort compare_events l in
      let base = min_timestamp_from (u64_mod - 1) sorted in
      let (file, e, entries) = output_chrome_tracing_json-HasEntry sorted n in
      (
        file,
        e,
        base,
        ∥∥₁_elim (q.qsort-perm compare_events l) le_prop (λ d.
            pick (λ x. base ≤ timestamp x)
              (All-perm (λ x. base ≤ timestamp x) d (min_timestamp-le (u64_mod - 1) sorted).1)),
        ∥∥₁_elim (q.qsort-perm compare_events l) (hlevel) (λ d.
            Infix-contains _ file
              (pick (HasEntry base file) (All-perm (HasEntry base file) d entries))),
      )
