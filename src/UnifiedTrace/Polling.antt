-- ===== src/UnifiedTrace/Polling.antt =====
-- src/user/unified_trace.c, main: when the polling loop ends, and what it has collected by then.
use local_ai_perf_analysis.Prelude.{
  ℕ, zero, suc, ◌+◌, true, false, List, [], ◌++◌, some, ◌≡◌, ◌≤◌, ◌<◌, ◌⊎◌, inl, inr, refl, sym, ap,
  ◌∙◌, arith, map, Bool-cases, dec_lt, subst, All, All-append,
}
use local_ai_perf_analysis.Collector.{UnifiedEvent, cpu, gpu, Collected, collect}
use local_ai_perf_analysis.Collector.Fill.{collect-nil, collect-append}
use local_ai_perf_analysis.Process.{interrupted}
use local_ai_perf_analysis.UnifiedTrace.{PollRound, poll_both}

-- A round that ends the loop: the flag is set, or a signal interrupts one of the polls.
abbrev pub EndsPolling : PollRound → Type 0
EndsPolling r =
    (r.exiting ≡ true) ⊎ ((interrupted r.cpu_polled ≡ true) ⊎ (interrupted r.gpu_polled ≡ true))

-- What holds of every event of a round.
abbrev pub AllDelivered : (UnifiedEvent → Type 0) → PollRound → Type 0
AllDelivered Q r = All Q (map cpu r.cpu_batch) × All Q (map gpu r.gpu_batch)

module _ (rounds : ℕ → PollRound) where
  -- The loop ends at the latest in a round that ends it, and has then collected some list of events, of
  -- which all were delivered.
  pub poll_both_ends :
      (Q : UnifiedEvent → Type 0) (fuel i k : ℕ) (c : Collected)
      → ((j : ℕ) → AllDelivered Q (rounds j))
      → EndsPolling (rounds k)
      → i ≤ k
      → k < i + fuel
      → (l : List UnifiedEvent) × (poll_both rounds fuel i c ≡ some (collect l c)) × All Q l
  unfolding poll_both
  poll_both_ends Q zero i k c all h le lt = absurd (omega arith)
  poll_both_ends Q (suc fuel) i k c all h le lt = elim (Bool-cases (rounds i).exiting) [
    | inl set ↦ ([], rw (poll_both, set) (ap some (sym (collect-nil c))), tt)
    | inr unset ↦ elim (Bool-cases (interrupted (rounds i).cpu_polled)) [
      | inl eintr ↦ (map cpu (rounds i).cpu_batch, rw (poll_both, unset, eintr) refl, (all i).0)
      | inr calm ↦ elim (Bool-cases (interrupted (rounds i).gpu_polled)) [
        | inl eintr ↦ (
          both,
          rw (poll_both, unset, calm, eintr) (ap some (sym (collect-append cpus gpus c))),
          All-append Q cpus gpus (all i).0 (all i).1,
        )
        | inr still ↦
            let (l, rest, held) =
              poll_both_ends Q fuel (suc i) k (collect gpus (collect cpus c)) all h
                (later unset calm still) (omega arith) in
            (
              both ++ l,
              rw (poll_both, unset, calm, still)
                  (rest
                    ∙ ap some (
                        sym
                          (collect-append both l c ∙ ap (collect l) (collect-append cpus gpus c)))),
              All-append Q both l (All-append Q cpus gpus (all i).0 (all i).1) held,
            )
      ]
    ]
  ]
    where
      cpus : List UnifiedEvent
      cpus = map cpu (rounds i).cpu_batch

      gpus : List UnifiedEvent
      gpus = map gpu (rounds i).gpu_batch

      both : List UnifiedEvent
      both = cpus ++ gpus

      later :
          (rounds i).exiting ≡ false
          → interrupted (rounds i).cpu_polled ≡ false
          → interrupted (rounds i).gpu_polled ≡ false
          → suc i ≤ k
      later unset calm still = elim (dec_lt i k) [
        | yes below ↦ below
        | no above ↦
            let same : k ≡ i = omega arith in
            elim (subst (λ j. EndsPolling (rounds j)) same h) [
              | inl e ↦ cc
              | inr (inl e) ↦ cc
              | inr (inr e) ↦ cc
            ]
      ]
