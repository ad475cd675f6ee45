-- ===== src/UnifiedTrace/Setup.antt =====
-- src/user/unified_trace.c, main: which calls its setup needs, and the resources that it takes and gives back.
use local_ai_perf_analysis.Prelude.{
  ◌+◌, Bool, true, List, [], ◌∷◌, ◌≤◌, refl, arith, ◌&&◌, length, Bytes,
}
use local_ai_perf_analysis.Options.{Options}
use local_ai_perf_analysis.Attach.{CudaFunc, cuda_funcs, attach_probes}
use local_ai_perf_analysis.Attach.Table.{attachable, attach_probes-attachable}
use local_ai_perf_analysis.Process.{go_on, cleanup, is_zero}
use local_ai_perf_analysis.Process.Tracking.{
  Advances, Closes, >>-Advances, acquire-Advances, acquire_each-Advances, require-Advances,
  checked-Advances, then-Frees, release_all-Frees, release_range-Frees, Frees-Closes,
}
use local_ai_perf_analysis.Process.Ready.{
  Needs, >>-Needs, acquire-Needs, optional-Needs, acquire_each-Needs, require-Needs, checked-Needs,
}
use local_ai_perf_analysis.UnifiedTrace.{UnifiedCalls, setup, close}

length-attachable :
    (finds : Bytes → Bool) (attaches : CudaFunc → Bool → Bool) (l : List CudaFunc)
    → length (attachable finds attaches l) ≤ length l
length-attachable finds attaches [] = omega arith
length-attachable finds attaches (f ∷ l) = ground (arith, length-attachable finds attaches l)

length-attach_probes :
    (finds : Bytes → Bool) (attaches : CudaFunc → Bool → Bool)
    → length (attach_probes finds attaches) ≤ 28
unfolding cuda_funcs
length-attach_probes finds attaches =
    rw (attach_probes-attachable finds attaches) (length-attachable finds attaches cuda_funcs)

pub setup-Advances : (o : Options) (a : UnifiedCalls) → Advances 0 39 (setup o a)
unfolding setup
setup-Advances o a =
    let links = attach_probes a.finds a.attaches in
    let room : 4 + length links ≤ 36 = omega (arith, length-attach_probes a.finds a.attaches) in
    >>-Advances (acquire-Advances 0 0 a.cpu_opens cleanup (omega arith)) (
      >>-Advances (checked-Advances 1 a.cpu_loaded) (
        >>-Advances (acquire-Advances 1 1 a.switch_attaches go_on (omega arith)) (
          >>-Advances (acquire-Advances 2 2 a.wakeup_attaches go_on (omega arith)) (
            >>-Advances (acquire-Advances 3 3 a.gpu_opens cleanup (omega arith)) (
              >>-Advances (checked-Advances 4 a.gpu_loaded) (
                >>-Advances (acquire_each-Advances 4 4 links (omega arith)) (
                  >>-Advances
                    (acquire-Advances 36 (4 + length links) (o.symbolize_cli && a.bsw_new_works)
                      go_on room)
                    (>>-Advances (require-Advances 37 a.has_cpu_map cleanup) (
                      >>-Advances (acquire-Advances 37 37 a.makes_cpu_ring cleanup (omega arith)) (
                        >>-Advances (require-Advances 38 a.has_gpu_map cleanup)
                          (acquire-Advances 38 38 a.makes_gpu_ring cleanup (omega arith))))))))))))

-- The calls without which nothing is traced.
abbrev pub ready : UnifiedCalls → Bool
ready a =
    a.cpu_opens
    && (is_zero a.cpu_loaded
        && (true
            && (true
                && (a.gpu_opens
                    && (is_zero a.gpu_loaded
                        && (true
                            && (true
                                && (a.has_cpu_map
                                    && (a.makes_cpu_ring
                                        && (a.has_gpu_map && a.makes_gpu_ring))))))))))

pub setup-Needs : (o : Options) (a : UnifiedCalls) → Needs (ready a) (setup o a)
unfolding setup
setup-Needs o a = >>-Needs (acquire-Needs 0 a.cpu_opens) (
    >>-Needs (checked-Needs a.cpu_loaded) (
      >>-Needs (optional-Needs 1 a.switch_attaches) (
        >>-Needs (optional-Needs 2 a.wakeup_attaches) (
          >>-Needs (acquire-Needs 3 a.gpu_opens) (
            >>-Needs (checked-Needs a.gpu_loaded) (
              >>-Needs (acquire_each-Needs 4 (attach_probes a.finds a.attaches)) (
                >>-Needs (optional-Needs 36 (o.symbolize_cli && a.bsw_new_works)) (
                  >>-Needs (require-Needs a.has_cpu_map) (
                    >>-Needs (acquire-Needs 37 a.makes_cpu_ring) (
                      >>-Needs (require-Needs a.has_gpu_map)
                        (acquire-Needs 38 a.makes_gpu_ring)))))))))))

pub close-Closes : Closes 39 close
unfolding close
close-Closes =
    let links =
      then-Frees (release_all-Frees (37 ∷ 38 ∷ 1 ∷ 2 ∷ []) refl) (release_range-Frees 4 32)
        (λ s. ground arith) in
    let all = then-Frees links (release_all-Frees (0 ∷ 3 ∷ 36 ∷ []) refl) (λ s. ground arith) in
    record { closes = (Frees-Closes (λ s. ground arith) all).closes }
