-- ===== src/System/Streams.antt =====
-- What the polling loop takes out of the ring buffers and what stays in them is, in order, all that the BPF
-- programs submit, whatever happens between the polls.
use local_ai_perf_analysis.Prelude.{
  ℕ, zero, suc, ◌+◌, List, [], ◌∷◌, ◌++◌, ◌≡◌, refl, sym, ap, ◌∙◌, arith, take, map, append-nil,
  append_assoc, if◌then◌else◌, Bool-cases, inl, inr,
}
use local_ai_perf_analysis.Events.{CudaCallInfo, CudaEvent}
use local_ai_perf_analysis.BpfMap.{BpfMap}
use local_ai_perf_analysis.Cuda.{CudaTracerCfg}
use local_ai_perf_analysis.Sched.{CpuEvents}
use local_ai_perf_analysis.Collector.{UnifiedEvent, cpu, gpu}
use local_ai_perf_analysis.Process.{interrupted}
use local_ai_perf_analysis.UnifiedTrace.Delivery.{last_events, delivered}
use local_ai_perf_analysis.System.{
  KernelStep, Happening, World, happen_all, poll_cpu, after_round, poll_round, world_at, rounds_of,
}
use local_ai_perf_analysis.System.Frame.{
  behind, behind-behind, happen_all-behind, happen_all-append, poll_cpu-behind, poll_gpu-behind,
}

-- The events of each kind in a list, in order.
abbrev pub cpus : List UnifiedEvent → CpuEvents
cpus [] = []
cpus (cpu e ∷ l) = e ∷ cpus l
cpus (gpu g ∷ l) = cpus l

abbrev pub gpus : List UnifiedEvent → List CudaEvent
gpus [] = []
gpus (cpu e ∷ l) = gpus l
gpus (gpu g ∷ l) = g ∷ gpus l

cpus-batches :
    (l : CpuEvents) (m : List CudaEvent) (r : List UnifiedEvent)
    → cpus (map cpu l ++ (map gpu m ++ r)) ≡ l ++ cpus r
cpus-batches [] [] r = refl
cpus-batches [] (g ∷ m) r = cpus-batches [] m r
cpus-batches (e ∷ l) m r = ap (◌∷◌ e) (cpus-batches l m r)

gpus-batches :
    (l : CpuEvents) (m : List CudaEvent) (r : List UnifiedEvent)
    → gpus (map cpu l ++ (map gpu m ++ r)) ≡ m ++ gpus r
gpus-batches [] [] r = refl
gpus-batches [] (g ∷ m) r = ap (◌∷◌ g) (gpus-batches [] m r)
gpus-batches (e ∷ l) m r = gpus-batches l m r

-- What happens in the kernel in a round that ends the loop, up to its end.
abbrev pub last_steps : Happening → List KernelStep
last_steps h =
    if h.exiting
    then []
    else h.before_cpu ++ (if interrupted h.cpu_polled then [] else h.before_gpu)

-- What happens in n rounds from round i on, and in the last one.
abbrev pub steps_until : (ℕ → Happening) → ℕ → ℕ → List KernelStep
steps_until h zero i = last_steps (h i)
steps_until h (suc n) i = (h i).before_cpu ++ ((h i).before_gpu ++ steps_until h n (suc i))

module _ (B : BpfMap CudaCallInfo) (target : ℕ) (cfg : CudaTracerCfg) where
  -- The state at the end of a round that ends the loop.
  abbrev pub last_world : Happening → World B → World B
  last_world h w =
      if h.exiting
      then w
      else if interrupted h.cpu_polled
      then poll_cpu B h.cpu_taken (happen_all B target cfg h.before_cpu w)
      else after_round B target cfg h w

  -- Both polls of a round take what was pending first.
  round-behind :
      (h : Happening) (w : World B)
      → let r = poll_round B target cfg h w in
        happen_all B target cfg (h.before_cpu ++ h.before_gpu) w
        ≡ behind B r.cpu_batch r.gpu_batch (after_round B target cfg h w)
  unfolding poll_round after_round
  round-behind h w =
      let first = happen_all B target cfg h.before_cpu w in
      let second = happen_all B target cfg h.before_gpu (poll_cpu B h.cpu_taken first) in
      happen_all-append B target cfg h.before_cpu h.before_gpu w
      ∙ ap (happen_all B target cfg h.before_gpu) (poll_cpu-behind B target cfg h.cpu_taken first)
      ∙ happen_all-behind B target cfg h.before_gpu (take h.cpu_taken first.cpu_events) []
          (poll_cpu B h.cpu_taken first)
      ∙ ap (behind B (take h.cpu_taken first.cpu_events) [])
          (poll_gpu-behind B target cfg h.gpu_taken second)
      ∙ behind-behind B (take h.cpu_taken first.cpu_events) [] []
          (take h.gpu_taken second.kernel.cuda_events) (after_round B target cfg h w)
      ∙ ap
          (λ x.
            behind B x (take h.gpu_taken second.kernel.cuda_events) (after_round B target cfg h w))
          (append-nil (take h.cpu_taken first.cpu_events))

  last-behind :
      (h : Happening) (w : World B)
      → let l = last_events (poll_round B target cfg h w) in
        happen_all B target cfg (last_steps h) w ≡ behind B (cpus l) (gpus l) (last_world h w)
  unfolding poll_round after_round
  last-behind h w = elim (Bool-cases h.exiting) [
    | inl set ↦ rw set (unfold happen_all in refl)
    | inr unset ↦ elim (Bool-cases (interrupted h.cpu_polled)) [
      | inl eintr ↦
          rw
            (
              unset,
              eintr,
              append-nil h.before_cpu,
              cpus-batches b [] [],
              gpus-batches b [] [],
              append-nil b,
            )
            (poll_cpu-behind B target cfg h.cpu_taken first)
      | inr calm ↦
          rw
            (
              unset,
              calm,
              sym (append-nil (map gpu c)),
              cpus-batches b c [],
              gpus-batches b c [],
              append-nil b,
              append-nil c,
            )
            (round-behind h w)
    ]
  ]
    where
      first : World B
      first = happen_all B target cfg h.before_cpu w

      b : CpuEvents
      b = take h.cpu_taken first.cpu_events

      c : List CudaEvent
      c = (poll_round B target cfg h w).gpu_batch

  module _ (h : ℕ → Happening) (start : World B) where
    -- Whatever happens before and between the polls, the events that the loop takes up to its end in round k, each
    -- kind in its order, and behind them those that are still in the ring buffers, are all that the BPF programs
    -- submitted until then; and the probes' own state is theirs too.
    pub world-streams :
        (n i : ℕ)
        → let l = delivered (rounds_of B target cfg h start) n i in
          happen_all B target cfg (steps_until h n i) (world_at B target cfg h start i)
          ≡ behind B
              (cpus l)
              (gpus l)
              (last_world (h (i + n)) (world_at B target cfg h start (i + n)))
    unfolding world_at rounds_of
    world-streams zero i =
        let same : i + 0 ≡ i = omega arith in
        rw same (last-behind (h i) (world_at B target cfg h start i))
    world-streams (suc n) i =
        let w = world_at B target cfg h start i in
        let r = poll_round B target cfg (h i) w in
        let d = delivered (rounds_of B target cfg h start) n (suc i) in
        let last = last_world (h (suc i + n)) (world_at B target cfg h start (suc i + n)) in
        let shift : i + suc n ≡ suc i + n = omega arith in
        let rest = steps_until h n (suc i) in
        rw (shift, cpus-batches r.cpu_batch r.gpu_batch d, gpus-batches r.cpu_batch r.gpu_batch d)
          (ap (λ x. happen_all B target cfg x w)
              (sym (append_assoc (h i).before_cpu (h i).before_gpu rest))
            ∙ happen_all-append B target cfg ((h i).before_cpu ++ (h i).before_gpu) rest w
            ∙ ap (happen_all B target cfg rest) (round-behind (h i) w)
            ∙ happen_all-behind B target cfg rest r.cpu_batch r.gpu_batch
                (after_round B target cfg (h i) w)
            ∙ ap (behind B r.cpu_batch r.gpu_batch) (world-streams n (suc i))
            ∙ behind-behind B r.cpu_batch (cpus d) r.gpu_batch (gpus d) last)
