-- ===== src/Console/Main/Runs.antt =====
-- src/user/trace_cuda.c, main: the probes that it attaches, its end, and the resources that it takes and
-- gives back.
use local_ai_perf_analysis.Prelude.{
  ℕ, ◌+◌, Bool, true, false, not, List, [], ◌∷◌, some, ◌≡◌, ◌≤◌, ◌<◌, refl, ap, arith, ◌&&◌, ◌∙◌,
  length, null, Bytes,
}
use local_ai_perf_analysis.Events.{CudaEvent}
use local_ai_perf_analysis.Printf.{FloatPrint}
use local_ai_perf_analysis.Console.{handle_event}
use local_ai_perf_analysis.Attach
use local_ai_perf_analysis.Attach.{CudaFunc, attach_probes}
use local_ai_perf_analysis.Attach.Table.{attachable, attach_probes-attachable}
use local_ai_perf_analysis.Process.{
  Process, new_process, cleanup, return, Step, ◌>>◌, take_hold, acquire, acquire_each, require,
  checked, release, Round, poll_loop,
}
use local_ai_perf_analysis.Process.Tracking.{
  IsClean, Advances, Closes, >>-Advances, acquire-Advances, acquire_each-Advances, require-Advances,
  checked-Advances, then-Frees, release-Frees, release_all-Frees, release_range-Frees, Frees-Closes,
}
use local_ai_perf_analysis.Process.Returns.{
  ReturnsClean, finish_returns, Stays, >>-Stays, checked-Stays, acquire_each-Stays, require-Stays,
  acquire-Stays, stays-ReturnsClean,
}
use local_ai_perf_analysis.Process.Polling.{Ends, poll_loop-Ends}
use local_ai_perf_analysis.Console.Main.{
  CudaCalls, cuda_funcs, attach_links, links_of, open_object, is_some, library_of, heading, setup,
  close, main,
}

-- The two tables are the same.
cuda_funcs_lem : cuda_funcs ≡ Attach.cuda_funcs
unfolding cuda_funcs Attach.cuda_funcs
cuda_funcs_lem = refl

length-cuda_funcs : length cuda_funcs ≡ 28
unfolding cuda_funcs
length-cuda_funcs = refl

attach_links-attachable :
    (finds : Bytes → Bool) (attaches : CudaFunc → Bool → Bool) (l : List CudaFunc)
    → attach_links finds attaches l ≡ attachable finds attaches l
unfolding attach_links
attach_links-attachable finds attaches [] = refl
attach_links-attachable finds attaches (f ∷ l) =
    ground (arith, attach_links-attachable finds attaches l)

length-attach_links :
    (finds : Bytes → Bool) (attaches : CudaFunc → Bool → Bool) (l : List CudaFunc)
    → length (attach_links finds attaches l) ≤ length l
unfolding attach_links
length-attach_links finds attaches [] = omega arith
length-attach_links finds attaches (f ∷ l) = ground (arith, length-attach_links finds attaches l)

-- Whatever libbpf finds and can attach, trace_cuda, with its own table and no test of the capacity, attaches
-- the same probes as unified_trace, in the same order, and they fit its array of 32 links.
pub attach_links-attach_probes :
    (finds : Bytes → Bool) (attaches : CudaFunc → Bool → Bool)
    → (attach_links finds attaches cuda_funcs ≡ attach_probes finds attaches)
      × (length (attach_links finds attaches cuda_funcs) ≤ 32)
attach_links-attach_probes finds attaches = (
  rw (attach_probes-attachable finds attaches) (
      attach_links-attachable finds attaches cuda_funcs
      ∙ ap (attachable finds attaches) cuda_funcs_lem),
  omega (arith, length-attach_links finds attaches cuda_funcs, length-cuda_funcs),
)

-- The links fit the array.
pub length-links_of : (a : CudaCalls) → length (links_of a) ≤ 28
length-links_of a =
    omega (arith, length-attach_links a.finds a.attaches cuda_funcs, length-cuda_funcs)

open_object-Advances : (opens : Bool) → Advances 1 2 (open_object opens)
unfolding open_object acquire
open_object-Advances true = acquire-Advances 1 1 true cleanup (omega arith)
open_object-Advances false = record { ordered = omega arith; keeps = λ p t. tt }

setup-Advances : (a : CudaCalls) → Advances 0 35 (setup a)
unfolding setup
setup-Advances a =
    let room : 2 + length (links_of a) ≤ 34 = omega (arith, length-links_of a) in
    >>-Advances
      (acquire-Advances 0 0 (is_some (library_of a) && a.strdup_works) (return 1) (omega arith))
      (>>-Advances (open_object-Advances a.opens) (
        >>-Advances (checked-Advances 2 a.loaded) (
          >>-Advances (acquire_each-Advances 2 2 (links_of a) (omega arith)) (
            >>-Advances
              (require-Advances (2 + length (links_of a)) (not (null (links_of a))) cleanup)
              (>>-Advances (require-Advances (2 + length (links_of a)) a.has_map cleanup)
                (acquire-Advances 34 (2 + length (links_of a)) a.makes_ring cleanup room))))))

loaded-Stays :
    (a : CudaCalls)
    → Stays (
        checked a.loaded
        >> acquire_each 2 (links_of a)
        >> require (not (null (links_of a))) cleanup
        >> require a.has_map cleanup
        >> acquire 34 a.makes_ring cleanup)
loaded-Stays a = >>-Stays (checked-Stays a.loaded) (
    >>-Stays (acquire_each-Stays 2 (links_of a)) (
      >>-Stays (require-Stays (not (null (links_of a))))
        (>>-Stays (require-Stays a.has_map) (acquire-Stays 34 a.makes_ring))))

-- The two early returns: with nothing taken, and with the path given back.
open-ReturnsClean :
    (path opens : Bool) (m : Step)
    → Stays m
    → ReturnsClean ((acquire 0 path (return 1) >> open_object opens >> m) new_process)
unfolding acquire open_object
open-ReturnsClean false opens m t = λ s. refl
open-ReturnsClean true false m t = λ s. unfold release in ground arith
open-ReturnsClean true true m t =
    stays-ReturnsClean (m (take_hold 1 (take_hold 0 new_process))) (t.stays _)

setup-ReturnsClean : (a : CudaCalls) → ReturnsClean (setup a new_process)
unfolding setup
setup-ReturnsClean a =
    open-ReturnsClean (is_some (library_of a) && a.strdup_works) a.opens _ (loaded-Stays a)

close-Closes : Closes 35 close
unfolding close
close-Closes =
    let links = then-Frees (release-Frees 34) (release_range-Frees 2 32) (λ s. ground arith) in
    Frees-Closes (λ s. ground arith)
      (then-Frees links (release_all-Frees (1 ∷ 0 ∷ []) refl) (λ s. ground arith))

-- However the calls of trace_cuda turn out, if a round of its polling loop ends it, by the signal or by an
-- error, main returns, and it has given back the path, the object, every link and the ring buffer, each once.
pub cuda_main_returns :
    (P : FloatPrint) (millis : ℕ → Bytes) (rounds : ℕ → Round CudaEvent) (fuel k : ℕ)
    (a : CudaCalls)
    → Ends (rounds k)
    → k < fuel
    → (n : ℕ) × (p : Process) × (out : Bytes) × (main P millis rounds fuel a ≡ some (n, p, out))
      × IsClean p
unfolding main
cuda_main_returns P millis rounds fuel k a h lt =
    let loop = poll_loop (handle_event P millis) rounds fuel 0 in
    finish_returns heading loop (setup-Advances a) close-Closes (setup-ReturnsClean a) (λ err.
      poll_loop-Ends (handle_event P millis) rounds fuel 0 k err h (omega arith) (omega arith))
