-- ===== src/Attach/Table.antt =====
-- src/user/unified_trace.c, main: which probes the loop attaches.
use local_ai_perf_analysis.Prelude.{
  ℕ, suc, Bool, true, false, List, [], ◌∷◌, ◌≡◌, ◌≤◌, ◌+◌, refl, arith, not, ◌++◌, Bytes, codes,
  ◌&&◌, ◌||◌, length, if◌then◌else◌,
}
use local_ai_perf_analysis.Events.{
  CudaOpType, op_code, malloc, free, memcpy, launch_kernel, sync, memcpy_async, stream_sync,
  stream_create, stream_destroy, event_record, event_sync, event_query, launch_kernel_ex,
  graph_launch,
}
use local_ai_perf_analysis.CudaOps.{cuda_op_name}
use local_ai_perf_analysis.Options.{same_text}
use local_ai_perf_analysis.Attach.{
  CudaFunc, func_name, probe_name, cuda_funcs, is_retprobe, gpu_links_cap, attach_from,
  attach_probes,
}

module _ (finds : Bytes → Bool) (attaches : CudaFunc → Bool → Bool) where
  -- The entries whose program is found and can be attached.
  abbrev pub attachable : List CudaFunc → List (CudaFunc × Bool)
  attachable [] = []
  attachable (f ∷ l) =
      let rest = attachable l in
      if finds (probe_name f) && attaches f (is_retprobe f) then (f, is_retprobe f) ∷ rest else rest

  attach_from-attachable :
      (count : ℕ) (l : List CudaFunc)
      → count + length l ≤ gpu_links_cap
      → attach_from finds attaches count l ≡ attachable l
  unfolding attach_from
  attach_from-attachable count [] h = refl
  attach_from-attachable count (f ∷ l) h = ground (
    arith,
    attach_from-attachable count l (omega arith),
    attach_from-attachable (suc count) l (omega arith),
  )

  -- Whatever libbpf finds and can attach, exactly those probes of the table are attached: a failure of one
  -- does not stop the others, and the array of links never runs full.
  pub attach_probes-attachable : attach_probes finds attaches ≡ attachable cuda_funcs
  unfolding attach_probes cuda_funcs
  attach_probes-attachable = attach_from-attachable 0 cuda_funcs (omega arith)

-- The name of the program in src/bpf/trace_cuda.bpf.c, without its ending.
abbrev pub probe_stem : CudaOpType → Bytes
probe_stem malloc = codes "malloc"
probe_stem free = codes "free"
probe_stem memcpy = codes "memcpy"
probe_stem launch_kernel = codes "launch"
probe_stem sync = codes "sync"
probe_stem memcpy_async = codes "memcpy_async"
probe_stem stream_sync = codes "stream_sync"
probe_stem stream_create = codes "stream_create"
probe_stem stream_destroy = codes "stream_destroy"
probe_stem event_record = codes "event_record"
probe_stem event_sync = codes "event_sync"
probe_stem event_query = codes "event_query"
probe_stem launch_kernel_ex = codes "launch_ex"
probe_stem graph_launch = codes "graph_launch"

abbrev pub same_kind : Bool → Bool → Bool
same_kind true b = b
same_kind false b = not b

-- Whether the program is linked to the function, at its entry or (`ret`) its return.
abbrev pub has_link : Bytes → Bytes → Bool → List (CudaFunc × Bool) → Bool
has_link func probe ret [] = false
has_link func probe ret ((f, r) ∷ l) =
    (same_text (func_name f) func && (same_text (probe_name f) probe && same_kind r ret))
    || has_link func probe ret l

abbrev with_kind : List CudaFunc → List (CudaFunc × Bool)
with_kind [] = []
with_kind (f ∷ l) = (f, is_retprobe f) ∷ with_kind l

attachable_all :
    (finds : Bytes → Bool) (attaches : CudaFunc → Bool → Bool) (l : List CudaFunc)
    → ((p : Bytes) → finds p ≡ true)
    → ((f : CudaFunc) (r : Bool) → attaches f r ≡ true)
    → attachable finds attaches l ≡ with_kind l
attachable_all finds attaches [] h k = refl
attachable_all finds attaches (f ∷ l) h k =
    rw (h (probe_name f), k f (is_retprobe f), attachable_all finds attaches l h k) refl

covers :
    (t : CudaOpType)
    → (has_link
          (cuda_op_name (op_code t))
          (codes "trace_cuda_" ++ (probe_stem t ++ codes "_entry"))
          false
          (with_kind cuda_funcs)
        ≡ true)
      × (has_link
            (cuda_op_name (op_code t))
            (codes "trace_cuda_" ++ (probe_stem t ++ codes "_return"))
            true
            (with_kind cuda_funcs)
          ≡ true)
unfolding cuda_funcs cuda_op_name
covers malloc = (refl, refl)
covers _ = (refl, refl)

-- If libbpf finds every program and attaches it, each traced operation has its entry program on the entry and
-- its return program on the return of the function that the trace names it after.
pub attach_probes-covers :
    (finds : Bytes → Bool) (attaches : CudaFunc → Bool → Bool) (t : CudaOpType)
    → ((p : Bytes) → finds p ≡ true)
    → ((f : CudaFunc) (r : Bool) → attaches f r ≡ true)
    → let links = attach_probes finds attaches in
      (has_link
          (cuda_op_name (op_code t))
          (codes "trace_cuda_" ++ (probe_stem t ++ codes "_entry"))
          false
          links
        ≡ true)
      × (has_link
            (cuda_op_name (op_code t))
            (codes "trace_cuda_" ++ (probe_stem t ++ codes "_return"))
            true
            links
          ≡ true)
attach_probes-covers finds attaches t h k =
    rw (attach_probes-attachable finds attaches, attachable_all finds attaches cuda_funcs h k)
      (covers t)
