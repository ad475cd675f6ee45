-- ===== src/System/Frame.antt =====
-- The BPF programs append to their ring buffers and never read them: events in front of the pending ones stay there.
use local_ai_perf_analysis.Prelude.{
  take-drop, ℕ, List, [], ◌∷◌, ◌++◌, ◌≡◌, refl, sym, ap, ap₂, ◌∙◌, take, append_assoc,
}
use local_ai_perf_analysis.Events.{CudaCallInfo, CudaEvent}
use local_ai_perf_analysis.BpfMap.{BpfMap}
use local_ai_perf_analysis.Cuda.{CudaTracerCfg}
use local_ai_perf_analysis.Cuda.Submitted.{fire-behind}
use local_ai_perf_analysis.Sched.{CpuEvents}
use local_ai_perf_analysis.Sched.Alternation.{emitted, sched_step-append}
use local_ai_perf_analysis.System.{
  KernelStep, probe, sched, World, happen, happen_all, poll_cpu, poll_gpu,
}

module _ (B : BpfMap CudaCallInfo) where
  open B use {lookup, delete}

  -- The same state with these events in front of those in the ring buffers.
  abbrev pub behind : CpuEvents → List CudaEvent → World B → World B
  behind d e w = record {
    cpu_events = d ++ w.cpu_events;
    kernel = record w.kernel { cuda_events = e ++ w.kernel.cuda_events };
  }

  pub behind-behind :
      (d f : CpuEvents) (e g : List CudaEvent) (w : World B)
      → behind d e (behind f g w) ≡ behind (d ++ f) (e ++ g) w
  behind-behind d f e g w =
      ap₂ (λ x y. record { cpu_events = x; kernel = record w.kernel { cuda_events = y } })
        (sym (append_assoc d f w.cpu_events)) (sym (append_assoc e g w.kernel.cuda_events))

  module _ (target : ℕ) (cfg : CudaTracerCfg) where
    happen-behind :
        (s : KernelStep) (d : CpuEvents) (e : List CudaEvent) (w : World B)
        → happen B target cfg s (behind d e w) ≡ behind d e (happen B target cfg s w)
    unfolding happen
    happen-behind (probe f) d e w =
        ap (λ k. record w { cpu_events = d ++ w.cpu_events; kernel = k })
          (fire-behind B cfg f e w.kernel)
    happen-behind (sched s) d e w =
        ap (λ x. record (behind d e w) { cpu_events = x })
          (sched_step-append target s (d ++ w.cpu_events)
            ∙ append_assoc d w.cpu_events (emitted target s)
            ∙ ap (λ x. d ++ x) (sym (sched_step-append target s w.cpu_events)))

    pub happen_all-behind :
        (l : List KernelStep) (d : CpuEvents) (e : List CudaEvent) (w : World B)
        → happen_all B target cfg l (behind d e w) ≡ behind d e (happen_all B target cfg l w)
    unfolding happen_all
    happen_all-behind [] d e w = refl
    happen_all-behind (s ∷ l) d e w =
        ap (happen_all B target cfg l) (happen-behind s d e w)
        ∙ happen_all-behind l d e (happen B target cfg s w)

    pub happen_all-append :
        (l m : List KernelStep) (w : World B)
        → happen_all B target cfg (l ++ m) w
          ≡ happen_all B target cfg m (happen_all B target cfg l w)
    unfolding happen_all
    happen_all-append [] m w = refl
    happen_all-append (s ∷ l) m w = happen_all-append l m (happen B target cfg s w)

    pub poll_cpu-behind :
        (n : ℕ) (w : World B) → w ≡ behind (take n w.cpu_events) [] (poll_cpu B n w)
    poll_cpu-behind n w = ap (λ x. record w { cpu_events = x }) (sym (take-drop n w.cpu_events))

    pub poll_gpu-behind :
        (n : ℕ) (w : World B) → w ≡ behind [] (take n w.kernel.cuda_events) (poll_gpu B n w)
    poll_gpu-behind n w =
        ap (λ x. record w { kernel = record w.kernel { cuda_events = x } })
          (sym (take-drop n w.kernel.cuda_events))
