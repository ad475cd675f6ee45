-- ===== src/Cuda/Submitted.antt =====
-- src/bpf/trace_cuda.bpf.c: what the probes have submitted stays submitted, and they do not look at it.
use native.Mathlib.Decide.{ℕ_discrete}
use local_ai_perf_analysis.Prelude.{
  ◌≤◌, ◌<◌, true, List, [], ◌∷◌, ◌++◌, append_assoc, ◌≡◌, refl, ap, ◌∙◌, subst, All, All-front,
  All-back, inl, inr, Bool-cases, Option-cases, u64_mod,
}
use local_ai_perf_analysis.Events.{CudaCallInfo, CudaEvent, CudaOpType, op_code}
use local_ai_perf_analysis.BpfMap.{BpfMap}
use local_ai_perf_analysis.Cuda.{CudaTracerCfg, Kernel, Firing, event_of}
use local_ai_perf_analysis.Cuda.Probes.{Fire, enter, leave, fire, run}
use local_ai_perf_analysis.Cuda.Threads.{
  IsTraced, Foreign, filter-cases, enter_traced, enter_filtered, leave-cases, leave_unknown,
  leave_known, leave_dropped,
}
use local_ai_perf_analysis.Cuda.Pairing.{call_event, run-call}

module _ (B : BpfMap CudaCallInfo) (cfg : CudaTracerCfg) where
  open B use {accepts, delete, lookup}

  pub run-append :
      (l m : List Fire) (k : Kernel B) → run B cfg (l ++ m) k ≡ run B cfg m (run B cfg l k)
  unfolding run
  run-append [] m k = refl
  run-append (f ∷ l) m k = run-append l m (fire B cfg f k)

  -- What was submitted stays submitted.
  fire-earlier :
      (Q : CudaEvent → Type 0) (f : Fire) (k : Kernel B)
      → All Q (fire B cfg f k).cuda_events
      → All Q k.cuda_events
  fire-earlier Q (enter t fr) k all = elim (filter-cases B cfg fr.pid_tgid) [
    | inl traced ↦ rw (enter_traced B cfg t fr k traced) at all
    | inr (a, b) ↦ rw (enter_filtered B cfg t fr k a b) at all
  ]
  fire-earlier Q (leave t fr) k all = elim (leave-cases B cfg t fr k) [
    | inl e ↦ rw e at all
    | inr (inl (info, found, same, e)) ↦ All-front Q k.cuda_events _ (rw e at all)
    | inr (inr e) ↦ rw e at all
  ]

  run-earlier :
      (Q : CudaEvent → Type 0) (fs : List Fire) (k : Kernel B)
      → All Q (run B cfg fs k).cuda_events
      → All Q k.cuda_events
  unfolding run
  run-earlier Q [] k all = all
  run-earlier Q (f ∷ fs) k all = fire-earlier Q f k (run-earlier Q fs (fire B cfg f k) all)

  -- The event of a call that returns is among those that were submitted in the end.
  pub call_submitted :
      (Q : CudaEvent → Type 0) (before between later : List Fire) (t : CudaOpType) (e r : Firing)
      (k : Kernel B)
      → IsTraced cfg e.pid_tgid
      → accepts (run B cfg before k).cuda_calls e.pid_tgid ≡ true
      → All (Foreign e.pid_tgid) between
      → r.pid_tgid ≡ e.pid_tgid
      → r.room ≡ true
      → e.ktime ≤ r.ktime
      → r.ktime < u64_mod
      → All Q (run B cfg (before ++ ((enter t e ∷ between) ++ leave t r ∷ later)) k).cuda_events
      → Q (call_event cfg t e r (run B cfg before k).stack_sample_counter)
  call_submitted Q before between later t e r k traced acc foreign same room le lt all =
      let outer = run B cfg before k in
      let inner = run B cfg (enter t e ∷ between) outer in
      let after = fire B cfg (leave t r) inner in
      let split : run B cfg (before ++ ((enter t e ∷ between) ++ leave t r ∷ later)) k
          ≡ run B cfg later after =
        run-append before ((enter t e ∷ between) ++ leave t r ∷ later) k
        ∙ run-append (enter t e ∷ between) (leave t r ∷ later) outer
        ∙ unfold run in refl in
      let (events, gone) = run-call B cfg t e r between outer traced acc foreign same room le lt in
      (All-back Q inner.cuda_events _ (
        subst (All Q) events
          (run-earlier Q later after (subst (λ w. All Q w.cuda_events) split all)))).0

  -- A probe does not read the ring buffer.
  pub fire-behind :
      (f : Fire) (e : List CudaEvent) (k : Kernel B)
      → fire B cfg f (record k { cuda_events = e ++ k.cuda_events })
        ≡ record (fire B cfg f k) { cuda_events = e ++ (fire B cfg f k).cuda_events }
  fire-behind (enter t fr) e k = elim (filter-cases B cfg fr.pid_tgid) [
    | inl traced ↦ rw (enter_traced B cfg t fr k traced) (enter_traced B cfg t fr _ traced)
    | inr (a, b) ↦ rw (enter_filtered B cfg t fr k a b) (enter_filtered B cfg t fr _ a b)
  ]
  fire-behind (leave t fr) e k = elim (Option-cases (lookup k.cuda_calls fr.pid_tgid)) [
    | inl missing ↦ rw (leave_unknown B cfg t fr k missing) (leave_unknown B cfg t fr _ missing)
    | inr (info, found) ↦ elim (ℕ_discrete info.op_type (op_code t)) [
      | no other ↦
          rw (leave_dropped B cfg t fr k info found (inl other))
            (leave_dropped B cfg t fr _ info found (inl other))
      | yes same ↦ elim (Bool-cases fr.room) [
        | inl room ↦ rw (leave_known B cfg t fr k info found same room) (
            leave_known B cfg t fr _ info found same room
            ∙ ap (λ x. record k { cuda_calls = delete k.cuda_calls fr.pid_tgid; cuda_events = x })
                (append_assoc e k.cuda_events (event_of fr (op_code t) info ∷ [])))
        | inr full ↦
            rw (leave_dropped B cfg t fr k info found (inr full))
              (leave_dropped B cfg t fr _ info found (inr full))
      ]
    ]
  ]
