-- ===== src/Collector/Fill.antt =====
-- src/user/unified_trace.c: how the callbacks fill the array.
use local_ai_perf_analysis.Prelude.{
  ℕ, List, [], ◌∷◌, ◌++◌, ◌≡◌, refl, arith, ◌-◌, ◌+◌, ◌≤◌, take, length, append-nil, append_assoc,
  length-append, suc, ◌<◌, ◌∙◌, ap, sym, leb, if◌then◌else◌, Bool-cases, inl, inr, leb→le, leb→lt,
  take_nil,
}
use local_ai_perf_analysis.Collector.{
  UnifiedEvent, cpu, gpu, Collected, store, collect, handle_cpu_event, handle_gpu_event, max_events,
}

-- A state in which the counter counts the entries, and they fit the array.
pub record IsFilled (c : Collected) : Type 0 where
  pub counted : c.event_count ≡ length c.events
  pub fits : c.event_count ≤ max_events

-- What either callback does with its event.
push : UnifiedEvent → Collected → Collected
push e c = if leb max_events c.event_count then c else store e c

push-IsFilled : (e : UnifiedEvent) (c : Collected) → IsFilled c → IsFilled (push e c)
unfolding push
push-IsFilled e c f = ground (arith, length-append c.events (e ∷ []))

-- Stated for any size `m`, so that the array's size is not computed with.
events-store :
    (m n : ℕ) (e : UnifiedEvent) (before l : List UnifiedEvent)
    → n < m
    → (before ++ e ∷ []) ++ take (m - (n + 1)) l ≡ before ++ take (m - n) (e ∷ l)
events-store m n e before l h =
    let room : m - n ≡ suc (m - (n + 1)) = omega arith in rw (room, append_assoc) refl

events-push :
    (e : UnifiedEvent) (l : List UnifiedEvent) (c : Collected)
    → (push e c).events ++ take (max_events - (push e c).event_count) l
      ≡ c.events ++ take (max_events - c.event_count) (e ∷ l)
unfolding push
events-push e l c = elim (Bool-cases (leb max_events c.event_count)) [
  | inl full ↦
      let none_left : max_events - c.event_count ≡ 0 = omega (arith, leb→le _ _ full) in
      rw (full, none_left) refl
  | inr room ↦ rw room (events-store max_events c.event_count e c.events l (leb→lt _ _ room))
]

collect_step :
    (e : UnifiedEvent) (l : List UnifiedEvent) (c : Collected)
    → collect (e ∷ l) c ≡ collect l (push e c)
unfolding collect handle_cpu_event handle_gpu_event push
collect_step (cpu e) l c = refl
collect_step (gpu e) l c = refl

-- From a well-formed array, the callbacks add the first events that arrive until the array is full, whichever
-- ring buffer they come from, and the counter keeps counting the entries and stays within the array.
pub collect_lem :
    (l : List UnifiedEvent) (c : Collected)
    → IsFilled c
    → ((collect l c).events ≡ c.events ++ take (max_events - c.event_count) l)
      × IsFilled (collect l c)
collect_lem [] c f = unfold collect in (rw (take_nil, append-nil) refl, f)
collect_lem (e ∷ l) c f =
    let (events, filled) = collect_lem l (push e c) (push-IsFilled e c f) in
    rw collect_step (events ∙ events-push e l c, filled)

pub collect-nil : (c : Collected) → collect [] c ≡ c
unfolding collect
collect-nil c = refl

-- The callbacks in two runs are one run.
pub collect-append :
    (l m : List UnifiedEvent) (c : Collected) → collect (l ++ m) c ≡ collect m (collect l c)
collect-append [] m c = unfold collect in refl
collect-append (e ∷ l) m c =
    collect_step e (l ++ m) c
    ∙ collect-append l m (push e c)
    ∙ ap (collect m) (sym (collect_step e l c))
