-- ===== src/Console/Delivery.antt =====
-- src/user/trace_cuda.c, main, on the probes of src/bpf/trace_cuda.bpf.c and their ring buffer: the events that it
-- prints. This tool leaves the configuration of the probes at its initial value.
use local_ai_perf_analysis.Prelude.{
  ℕ, ◌+◌, ◌<◌, true, not, ◌&&◌, List, [], ◌∷◌, ◌++◌, some, ◌≡◌, refl, sym, ap, ◌∙◌, arith, subst,
  null, Bytes,
}
use local_ai_perf_analysis.Events.{CudaCallInfo, CudaEvent}
use local_ai_perf_analysis.BpfMap.{BpfMap}
use local_ai_perf_analysis.Printf.{FloatPrint}
use local_ai_perf_analysis.Cuda.{Kernel, default_cfg}
use local_ai_perf_analysis.Cuda.Probes.{Fire, fire, run}
use local_ai_perf_analysis.Cuda.Submitted.{fire-behind}
use local_ai_perf_analysis.Process.{
  Process, new_process, go_on, take_hold, acquire, Round, print_each, poll_loop, failed, is_zero,
}
use local_ai_perf_analysis.Process.Ready.{
  flow_if, >>-Needs, checked-Needs, acquire_each-Needs, require-Needs, acquire-Needs,
}
use local_ai_perf_analysis.Process.Returns.{finish-go_on}
use local_ai_perf_analysis.Process.Polling.{GoesOn, Ends, delivered, poll_loop-delivered}
use local_ai_perf_analysis.Process.Ring.{
  Producer, Turn, fired, fire_each, rounds_of, state_behind, pending-fired,
}
use local_ai_perf_analysis.Console.{handle_event}
use local_ai_perf_analysis.Console.Main.{
  CudaCalls, is_some, library_of, links_of, open_object, heading, setup, close, main,
}

-- Every call of the setup succeeds, and one probe at least is attached.
pub record SetUp (a : CudaCalls) : Type 0 where
  pub found : (is_some (library_of a) && a.strdup_works) ≡ true
  pub opens : a.opens ≡ true
  pub ready :
      (is_zero a.loaded && (true && (not (null (links_of a)) && (a.has_map && a.makes_ring))))
      ≡ true

setup-go_on : (a : CudaCalls) → SetUp a → (setup a new_process).0 ≡ go_on
unfolding setup acquire open_object
setup-go_on a s =
    let rest = >>-Needs (checked-Needs a.loaded) (
      >>-Needs (acquire_each-Needs 2 (links_of a)) (
        >>-Needs (require-Needs (not (null (links_of a))))
          (>>-Needs (require-Needs a.has_map) (acquire-Needs 34 a.makes_ring)))) in
    rw (s.found, s.opens) (rest.flows (take_hold 1 (take_hold 0 new_process)) ∙ ap flow_if s.ready)

module _ (B : BpfMap CudaCallInfo) where
  open B use {Map, accepts}

  -- The probes and their ring buffer.
  abbrev pub cuda_ring : Producer Fire (Kernel B) CudaEvent
  cuda_ring = record {
    fires = fire B default_cfg;
    pending = λ k. k.cuda_events;
    with_pending = λ l k. record k { cuda_events = l };
    pending-with_pending = λ l k. refl;
    with_pending_again = λ l m k. refl;
    with_own = λ k. refl;
    fires-behind = fire-behind B default_cfg;
  }

  fire_each-cuda_ring :
      (l : List Fire) (k : Kernel B) → fire_each cuda_ring l k ≡ run B default_cfg l k
  unfolding fire_each run
  fire_each-cuda_ring [] k = refl
  fire_each-cuda_ring (f ∷ l) k = fire_each-cuda_ring l (fire B default_cfg f k)

module _ (P : FloatPrint) (millis : ℕ → Bytes) (B : BpfMap CudaCallInfo) where
  open B use {Map, accepts}

  -- The loop's rounds, with the probes in the state `start` before the first.
  abbrev pub cuda_rounds : (ℕ → Turn Fire) → Kernel B → ℕ → Round CudaEvent
  cuda_rounds h start = rounds_of (cuda_ring B) h start

  pub main-delivered :
      (h : ℕ → Turn Fire) (start : Kernel B) (fuel k : ℕ) (a : CudaCalls)
      → SetUp a
      → ((j : ℕ) → j < k → GoesOn (cuda_rounds h start j))
      → Ends (cuda_rounds h start k)
      → k < fuel
      → (n : ℕ) × (p : Process) × (main P millis (cuda_rounds h start) fuel a
          ≡ some (
            n,
            p,
            heading ++ print_each (handle_event P millis) (delivered (cuda_rounds h start) k 0),
          ))
  unfolding main
  main-delivered h start fuel k a set on off lt =
      let rounds = cuda_rounds h start in
      let f = handle_event P millis in
      let same : 0 + k ≡ k = omega arith in
      let (err, ended) =
        poll_loop-delivered f rounds k fuel 0 (setup a new_process).1.err
          (λ j le below. on j (omega arith)) (subst (λ j. Ends (rounds j)) (sym same) off) lt in
      let (p, e) =
        finish-go_on heading (poll_loop f rounds fuel 0) close (setup a new_process)
          (setup-go_on a set) ended in
      (failed err, p, e)

  pub submitted_front :
      (h : ℕ → Turn Fire) (start : Kernel B) (k : ℕ)
      → delivered (cuda_rounds h start) k 0 ++ (state_behind (cuda_ring B) h start k).cuda_events
        ≡ (run B default_cfg (fired h k 0) start).cuda_events
  submitted_front h start k =
      sym (pending-fired (cuda_ring B) h start k)
      ∙ ap (λ w. w.cuda_events) (fire_each-cuda_ring B (fired h k 0) start)
