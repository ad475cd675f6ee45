-- ===== src/UnifiedTrace/Config.antt =====
-- src/user/unified_trace.c, main: the constants of the two BPF objects that it sets before it loads them. What
-- bpf_object__find_map_by_name, bpf_map__name and bpf_map__set_initial_value return is in UnifiedCalls. A constant that
-- is not set keeps its initial value.
use local_ai_perf_analysis.Prelude.{
  ℕ, Bool, false, not, ◌&&◌, ◌||◌, List, [], ◌∷◌, Option, none, some, Bytes, codes, if◌then◌else◌,
}
use local_ai_perf_analysis.Attach.{contains}
use local_ai_perf_analysis.Cuda.{CudaTracerCfg, default_cfg}
use local_ai_perf_analysis.Options.{Options, word32, gpu_cfg}
use local_ai_perf_analysis.Process.{is_zero}
use local_ai_perf_analysis.UnifiedTrace.{UnifiedCalls}

-- The process id that the scheduler's tracepoints compare with; 0 for all.
unfoldable pub cpu_target : Options → UnifiedCalls → ℕ
cpu_target o a =
    if not (is_zero o.target_pid) && (a.cpu_rodata && a.cpu_rodata_set)
    then word32 o.target_pid
    else 0

-- The scan for a map whose name contains ".rodata".
unfoldable pub has_rodata : List (Option Bytes) → Bool
has_rodata [] = false
has_rodata (none ∷ l) = has_rodata l
has_rodata (some name ∷ l) = contains (codes ".rodata") name || has_rodata l

-- The configuration of the CUDA probes.
unfoldable pub cfg_of : Options → UnifiedCalls → CudaTracerCfg
unfolding has_rodata
cfg_of o a =
    if (a.gpu_rodata || has_rodata a.gpu_map_names) && a.gpu_rodata_set
    then gpu_cfg o
    else default_cfg
