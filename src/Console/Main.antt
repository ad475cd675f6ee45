-- ===== src/Console/Main.antt =====
-- src/user/trace_cuda.c, main. What its calls return is a record. The variables cuda_lib_path, obj and rb
-- have the numbers 0, 1 and 34, and links[i] has 2 + i.  The messages that main
-- prints before the heading are left out.
pub mod Runs
use local_ai_perf_analysis.Prelude.{
  ℕ, ℤ, Bool, true, false, not, ◌&&◌, List, [], ◌∷◌, ◌++◌, codes, Option, none, some, Bytes, null,
  if◌then◌else◌,
}
use local_ai_perf_analysis.Events.{CudaEvent}
use local_ai_perf_analysis.Printf.{FloatPrint, pad_right}
use local_ai_perf_analysis.Attach.{CudaFunc, cuda_func, probe_name, is_retprobe}
use local_ai_perf_analysis.Console.{find_cuda_library, handle_event}
use local_ai_perf_analysis.Process.{
  Process, new_process, go_on, cleanup, return, Step, ◌>>◌, take_hold, acquire, acquire_each,
  require, checked, release, release_range, release_all, Round, poll_loop, Outcome, finish,
}

-- The arguments and what the calls of main return, up to the loop.
pub record CudaCalls : Type 0 where
  pub argument : Option Bytes
  pub access : Bytes → Bool
  pub strdup_works : Bool
  pub opens : Bool
  pub loaded : ℤ
  pub finds : Bytes → Bool
  pub attaches : CudaFunc → Bool → Bool
  pub has_map : Bool
  pub makes_ring : Bool

-- The path to the library, unless none is given and none of the usual ones is there.
unfoldable pub library_of : CudaCalls → Option Bytes
library_of a = elim a.argument [ some path ↦ some path | none ↦ find_cuda_library a.access ]

abbrev pub is_some : {A : Type 0} → Option A → Bool
is_some none = false
is_some (some a) = true

-- The table of the uprobes.
unfoldable pub cuda_funcs : List CudaFunc
cuda_funcs =
    cuda_func (codes "cudaMalloc") (codes "trace_cuda_malloc_entry")
    ∷ cuda_func (codes "cudaMalloc") (codes "trace_cuda_malloc_return")
    ∷ cuda_func (codes "cudaFree") (codes "trace_cuda_free_entry")
    ∷ cuda_func (codes "cudaFree") (codes "trace_cuda_free_return")
    ∷ cuda_func (codes "cudaMemcpy") (codes "trace_cuda_memcpy_entry")
    ∷ cuda_func (codes "cudaMemcpy") (codes "trace_cuda_memcpy_return")
    ∷ cuda_func (codes "cudaLaunchKernel") (codes "trace_cuda_launch_entry")
    ∷ cuda_func (codes "cudaLaunchKernel") (codes "trace_cuda_launch_return")
    ∷ cuda_func (codes "cudaDeviceSynchronize") (codes "trace_cuda_sync_entry")
    ∷ cuda_func (codes "cudaDeviceSynchronize") (codes "trace_cuda_sync_return")
    ∷ cuda_func (codes "cudaMemcpyAsync") (codes "trace_cuda_memcpy_async_entry")
    ∷ cuda_func (codes "cudaMemcpyAsync") (codes "trace_cuda_memcpy_async_return")
    ∷ cuda_func (codes "cudaStreamSynchronize") (codes "trace_cuda_stream_sync_entry")
    ∷ cuda_func (codes "cudaStreamSynchronize") (codes "trace_cuda_stream_sync_return")
    ∷ cuda_func (codes "cudaStreamCreate") (codes "trace_cuda_stream_create_entry")
    ∷ cuda_func (codes "cudaStreamCreate") (codes "trace_cuda_stream_create_return")
    ∷ cuda_func (codes "cudaStreamDestroy") (codes "trace_cuda_stream_destroy_entry")
    ∷ cuda_func (codes "cudaStreamDestroy") (codes "trace_cuda_stream_destroy_return")
    ∷ cuda_func (codes "cudaEventRecord") (codes "trace_cuda_event_record_entry")
    ∷ cuda_func (codes "cudaEventRecord") (codes "trace_cuda_event_record_return")
    ∷ cuda_func (codes "cudaEventSynchronize") (codes "trace_cuda_event_sync_entry")
    ∷ cuda_func (codes "cudaEventSynchronize") (codes "trace_cuda_event_sync_return")
    ∷ cuda_func (codes "cudaEventQuery") (codes "trace_cuda_event_query_entry")
    ∷ cuda_func (codes "cudaEventQuery") (codes "trace_cuda_event_query_return")
    ∷ cuda_func (codes "cudaLaunchKernelExC") (codes "trace_cuda_launch_ex_entry")
    ∷ cuda_func (codes "cudaLaunchKernelExC") (codes "trace_cuda_launch_ex_return")
    ∷ cuda_func (codes "cudaGraphLaunch") (codes "trace_cuda_graph_launch_entry")
    ∷ cuda_func (codes "cudaGraphLaunch") (codes "trace_cuda_graph_launch_return")
    ∷ []

-- The loop over the table: the links that are made.
unfoldable pub attach_links :
    (Bytes → Bool) → (CudaFunc → Bool → Bool) → List CudaFunc → List (CudaFunc × Bool)
attach_links finds attaches [] = []
attach_links finds attaches (f ∷ l) =
    let rest = attach_links finds attaches l in
    if not (finds (probe_name f))
    then rest
    else if not (attaches f (is_retprobe f))
    then rest
    else (f, is_retprobe f) ∷ rest

abbrev pub links_of : CudaCalls → List (CudaFunc × Bool)
links_of a = attach_links a.finds a.attaches cuda_funcs

-- `if (libbpf_get_error(obj)) { free(cuda_lib_path); return 1; }`
unfoldable pub open_object : Bool → Step
unfolding release
open_object opens p = if opens then (go_on, take_hold 1 p) else (return 1, release 0 p)

unfoldable pub setup : CudaCalls → Step
unfolding acquire acquire_each require checked open_object
setup a =
    acquire 0 (is_some (library_of a) && a.strdup_works) (return 1)
    >> open_object a.opens
    >> checked a.loaded
    >> acquire_each 2 (links_of a)
    >> require (not (null (links_of a))) cleanup
    >> require a.has_map cleanup
    >> acquire 34 a.makes_ring cleanup

unfoldable pub close : Process → Process
unfolding release_all release_range release
close p = release_all (1 ∷ 0 ∷ []) (release_range 2 32 (release 34 p))

-- The heading of the lines.
abbrev pub heading : Bytes
heading =
    codes "\nTracing CUDA operations... Press Ctrl+C to exit.\n\n"
    ++ (pad_right 19 (codes "TIMESTAMP")
        ++ (codes " "
            ++ (pad_right 7 (codes "PID")
                ++ (codes " "
                    ++ (pad_right 7 (codes "TID")
                        ++ (codes " "
                            ++ (pad_right 16 (codes "COMM")
                                ++ (codes " "
                                    ++ (pad_right 22 (codes "OPERATION")
                                        ++ codes " DETAILS\n")))))))))

-- The exit status, the last state and what is printed from the heading on, if the fuel is enough for the rounds of the
-- loop.
unfoldable pub main :
    FloatPrint → (ℕ → Bytes) → (ℕ → Round CudaEvent) → ℕ → CudaCalls → Option Outcome
unfolding setup close finish poll_loop
main P millis rounds fuel a =
    finish heading (poll_loop (handle_event P millis) rounds fuel 0) close (setup a new_process)
