-- ===== src/Console/Calls.antt =====
-- src/bpf/trace_cuda.bpf.c and src/user/trace_cuda.c, main, together: the CUDA calls that reach the terminal. This tool
-- leaves the configuration of the probes at its initial value.
use local_ai_perf_analysis.Prelude.{
  ℕ, ◌≤◌, ◌<◌, true, List, [], ◌∷◌, ◌++◌, some, ◌≡◌, refl, sym, subst, length, inl, all_of_front,
  Bytes, All, All-front, u64_mod,
}
use local_ai_perf_analysis.Events.{CudaCallInfo, CudaEvent, CudaOpType}
use local_ai_perf_analysis.BpfMap.{BpfMap}
use local_ai_perf_analysis.Json.Runs.{IsPlain}
use local_ai_perf_analysis.Printf.{FloatPrint}
use local_ai_perf_analysis.Printf.Plain.{IsLine}
use local_ai_perf_analysis.Cuda.{Kernel, Firing, default_cfg}
use local_ai_perf_analysis.Cuda.Probes.{Fire, enter, leave, run}
use local_ai_perf_analysis.Cuda.Threads.{Foreign}
use local_ai_perf_analysis.Cuda.Pairing.{call_event}
use local_ai_perf_analysis.Cuda.Submitted.{call_submitted}
use local_ai_perf_analysis.Attach.{contains}
use local_ai_perf_analysis.Chrome.Written.{Infix, Infix-left, Infix-contains}
use local_ai_perf_analysis.Process.{Process, print_each}
use local_ai_perf_analysis.Process.Polling.{GoesOn, Ends, delivered}
use local_ai_perf_analysis.Process.Ring.{Turn, fired, state_behind}
use local_ai_perf_analysis.Console.{handle_event}
use local_ai_perf_analysis.Console.Text.{handle_event-IsLine}
use local_ai_perf_analysis.Console.Main.{CudaCalls, heading, main}
use local_ai_perf_analysis.Console.Delivery.{
  cuda_ring, SetUp, cuda_rounds, main-delivered, submitted_front,
}

-- What is printed for a member of a list is part of what is printed for the list.
print_each-Infix :
    {E : Type 0} (f : E → Bytes) (l : List E) → All (λ e. Infix (f e) (print_each f l)) l
unfolding print_each
print_each-Infix f [] = tt
print_each-Infix f (e ∷ l) =
    (record { front = []; back = print_each f l; parts = refl }, deeper l (print_each-Infix f l))
  where
    deeper :
        (m : List _)
        → All (λ g. Infix (f g) (print_each f l)) m
        → All (λ g. Infix (f g) (f e ++ print_each f l)) m
    deeper [] h = tt
    deeper (g ∷ m) (hg, h) = (Infix-left (f g) (print_each f l) (f e) hg, deeper m h)

handle_event-AllLines :
    (P : FloatPrint) (millis : ℕ → Bytes) (l : List CudaEvent)
    → ((n : ℕ) → All IsPlain (millis n))
    → All (λ g. All IsPlain g.comm) l
    → All (λ g. IsLine (handle_event P millis g)) l
handle_event-AllLines P millis [] float h = tt
handle_event-AllLines P millis (g ∷ l) float (hg, h) =
    (handle_event-IsLine P millis g hg float, handle_event-AllLines P millis l float h)

module _ (P : FloatPrint) (millis : ℕ → Bytes) (B : BpfMap CudaCallInfo) where
  open B use {Map, accepts}

  -- If every call of the setup of trace_cuda succeeds, one probe at least is attached, round k is the first
  -- that ends the polling loop, no command name of a submitted event holds a quote, a backslash or a control
  -- character, and neither does what %.3f prints, then main prints its heading and one line for each of the
  -- first events that the probes submitted, in order, those that follow being still in the ring buffer.
  pub cuda_main-handle_event :
      (h : ℕ → Turn Fire) (start : Kernel B) (fuel k : ℕ) (a : CudaCalls)
      → SetUp a
      → ((j : ℕ) → j < k → GoesOn (cuda_rounds P millis B h start j))
      → Ends (cuda_rounds P millis B h start k)
      → k < fuel
      → ((n : ℕ) → All IsPlain (millis n))
      → All (λ g. All IsPlain g.comm) (run B default_cfg (fired h k 0) start).cuda_events
      → (n : ℕ) × (p : Process) × (printed : List CudaEvent) × (main P millis
            (cuda_rounds P millis B h start)
            fuel
            a
          ≡ some (n, p, heading ++ print_each (handle_event P millis) printed))
        × (printed ++ (state_behind (cuda_ring B) h start k).cuda_events
            ≡ (run B default_cfg (fired h k 0) start).cuda_events)
        × All (λ g. IsLine (handle_event P millis g)) printed
  cuda_main-handle_event h start fuel k a set on off lt float clean =
      let (n, p, e) = main-delivered P millis B h start fuel k a set on off lt in
      let front = submitted_front P millis B h start k in
      (
        n,
        p,
        _,
        e,
        front,
        handle_event-AllLines P millis _ float (
            All-front (λ g. All IsPlain g.comm) _ _
              (subst (All (λ g. All IsPlain g.comm)) (sym front) clean)),
      )

  -- From two probes to the terminal: if every call of the setup of trace_cuda succeeds, one probe at least is
  -- attached, round k is the first that ends the polling loop, and among the probes that fire until then a
  -- call is entered, with a slot for it in the in-flight map, and returns with no probe of its thread in
  -- between, with room in the ring buffer and at no earlier 64-bit time, and as many events are delivered as
  -- are submitted, then main returns and what it prints contains the line for the call: what its entry saw,
  -- its duration and its result.
  pub cuda_main-call_event :
      (h : ℕ → Turn Fire) (start : Kernel B) (fuel k : ℕ) (a : CudaCalls)
      (before between later : List Fire) (t : CudaOpType) (e r : Firing)
      → SetUp a
      → ((j : ℕ) → j < k → GoesOn (cuda_rounds P millis B h start j))
      → Ends (cuda_rounds P millis B h start k)
      → k < fuel
      → fired h k 0 ≡ before ++ ((enter t e ∷ between) ++ leave t r ∷ later)
      → accepts (run B default_cfg before start).cuda_calls e.pid_tgid ≡ true
      → All (Foreign e.pid_tgid) between
      → r.pid_tgid ≡ e.pid_tgid
      → r.room ≡ true
      → e.ktime ≤ r.ktime
      → r.ktime < u64_mod
      → length (run B default_cfg (fired h k 0) start).cuda_events
        ≤ length (delivered (cuda_rounds P millis B h start) k 0)
      → (n : ℕ) × (p : Process) × (out : Bytes) × (main P millis
            (cuda_rounds P millis B h start)
            fuel
            a
          ≡ some (n, p, out))
        × (contains
              (handle_event P millis (
                call_event default_cfg t e r (run B default_cfg before start).stack_sample_counter))
              out
            ≡ true)
  cuda_main-call_event h start fuel k a before between later t e r set on off lt split acc foreign
        same room le late drained =
      let f = handle_event P millis in
      let l = delivered (cuda_rounds P millis B h start) k 0 in
      let ev = call_event default_cfg t e r (run B default_cfg before start).stack_sample_counter in
      let (n, p, ended) = main-delivered P millis B h start fuel k a set on off lt in
      let whole = all_of_front l _ _ (submitted_front P millis B h start k) drained in
      let written : Infix (f ev) (print_each f l) =
        call_submitted B default_cfg (λ g. Infix (f g) (print_each f l)) before between later t e r
          start (inl refl) acc foreign same room le late
          (subst
            (λ x. All (λ g. Infix (f g) (print_each f l)) (run B default_cfg x start).cuda_events)
            split (subst (All (λ g. Infix (f g) (print_each f l))) whole (print_each-Infix f l))) in
      (
        n,
        p,
        heading ++ print_each f l,
        ended,
        Infix-contains (f ev) _ (Infix-left (f ev) (print_each f l) heading written),
      )
