-- ===== src/Collector/Order.antt =====
-- src/user/unified_trace.c: compare_events, the sorted array and the smallest timestamp.
use local_ai_perf_analysis.Prelude.{
  ℕ, true, List, [], ◌∷◌, ◌≡◌, refl, arith, ◌≤◌, ◌<◌, ◌-◌, Perm, All, nonpos, u64_mod, ltb,
  if◌then◌else◌,
}
use local_ai_perf_analysis.Collector.{UnifiedEvent, timestamp, compare_events, min_timestamp_from}
use local_ai_perf_analysis.Collector.Qsort.{Qsort, IsConsistent, IsSortedBy}

-- The comparison meets what qsort asks of it.
pub compare_events-IsConsistent : IsConsistent compare_events
unfolding compare_events
compare_events-IsConsistent = record {
  total = λ a b. ground arith;
  trans = λ a b c h k. ground arith;
}

compare_events-le :
    (a b : UnifiedEvent) → nonpos (compare_events a b) ≡ true → timestamp a ≤ timestamp b
unfolding compare_events
compare_events-le a b h = ground arith

-- The timestamps never fall along the list.
abbrev pub IsAscending : List UnifiedEvent → Type 0
IsAscending [] = Unit {0}
IsAscending (x ∷ l) = All (λ y. timestamp x ≤ timestamp y) l × IsAscending l

sorted-IsAscending : (l : List UnifiedEvent) → IsSortedBy compare_events l → IsAscending l
sorted-IsAscending [] h = tt
sorted-IsAscending (x ∷ l) (hx, h) = (go l hx, sorted-IsAscending l h)
  where
    go :
        (l : List UnifiedEvent)
        → All (λ y. nonpos (compare_events x y) ≡ true) l
        → All (λ y. timestamp x ≤ timestamp y) l
    go [] h = tt
    go (y ∷ l) (hy, h) = (compare_events-le x y hy, go l h)

-- Whatever qsort the C library has, sorting with compare_events leaves the same events, as often, in ascending
-- order of their timestamps.
pub qsort_events :
    (q : Qsort UnifiedEvent) (l : List UnifiedEvent)
    → Perm (q.qsort compare_events l) l × IsAscending (q.qsort compare_events l)
qsort_events q l = (
  q.qsort-perm compare_events l,
  sorted-IsAscending _ (q.qsort-IsSortedBy compare_events l compare_events-IsConsistent),
)

pub min_timestamp-le :
    (least : ℕ) (l : List UnifiedEvent)
    → (min_timestamp_from least l ≤ least) × All (λ e. min_timestamp_from least l ≤ timestamp e) l
unfolding min_timestamp_from
min_timestamp-le least [] = (omega arith, tt)
min_timestamp-le least (e ∷ l) =
    let (le, all) = min_timestamp-le (if ltb (timestamp e) least then timestamp e else least) l in
    (ground arith, (ground arith, all))

min_timestamp_from_ascending :
    (least : ℕ) (l : List UnifiedEvent)
    → All (λ y. least ≤ timestamp y) l
    → min_timestamp_from least l ≡ least
unfolding min_timestamp_from
min_timestamp_from_ascending least [] h = refl
min_timestamp_from_ascending least (e ∷ l) (he, h) =
    ground (arith, min_timestamp_from_ascending least l h)

-- In an ascending, non-empty array whose first timestamp is a 64-bit number, the loop from UINT64_MAX on finds
-- the first timestamp, and no event lies before it.
pub min_timestamp_first :
    (e : UnifiedEvent) (l : List UnifiedEvent)
    → IsAscending (e ∷ l)
    → timestamp e < u64_mod
    → (min_timestamp_from (u64_mod - 1) (e ∷ l) ≡ timestamp e)
      × All (λ x. min_timestamp_from (u64_mod - 1) (e ∷ l) ≤ timestamp x) (e ∷ l)
min_timestamp_first e l (h, _) lt = (first, (min_timestamp-le (u64_mod - 1) (e ∷ l)).1)
  where
    first : min_timestamp_from (u64_mod - 1) (e ∷ l) ≡ timestamp e
    first =
        unfold min_timestamp_from in ground (arith, min_timestamp_from_ascending (timestamp e) l h)
