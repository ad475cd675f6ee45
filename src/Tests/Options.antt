-- ===== src/Tests/Options.antt =====
-- The command line and the attaching of probes of src/user/unified_trace.c on concrete arguments.
use local_ai_perf_analysis.Prelude.{
  ℕ, zero, suc, ◌==◌, if◌then◌else◌, ℤ, pos, negsuc, Bool, true, false, not, List, [], ◌∷◌, ◌≡◌,
  refl, arith, none, some, Bytes, codes, ◌-◌, ◌*◌, ◌+◌,
}
use local_ai_perf_analysis.Events.{graph_launch, cuda_ev_flag_async}
use local_ai_perf_analysis.Cuda.{sample_period}
use local_ai_perf_analysis.CudaOps.{cuda_op_name}
use local_ai_perf_analysis.Options.{
  Options, default_options, same_text, parse_args, read_option, read_flag, gpu_cfg, choose_library,
  first_present,
}
use local_ai_perf_analysis.Options.Parse.{IsUsable, parse_args-IsUsable, sample_period-gpu_cfg}
use local_ai_perf_analysis.Attach.{CudaFunc, func_name, cuda_funcs, attach_probes}
use local_ai_perf_analysis.Attach.Table.{
  attachable, attach_probes-attachable, attach_probes-covers, has_link,
}

-- An atoi for digits and a sign.
abbrev pub number : ℕ → Bytes → ℕ
number n [] = n
number n (c ∷ l) = number (n * 10 + (c - b'0')) l

abbrev pub minus_number : ℕ → ℤ
minus_number zero = pos 0
minus_number (suc n) = negsuc n

abbrev pub atoi : Bytes → ℤ
atoi [] = pos 0
atoi (c ∷ l) = if c == b'-' then minus_number (number 0 l) else pos (number 0 (c ∷ l))

abbrev arguments : List Bytes
arguments =
    codes "--no-stacks"
    ∷ codes "--stack-sample-async"
    ∷ codes "-4"
    ∷ codes "--pid"
    ∷ codes "77"
    ∷ []

abbrev chosen : Options
chosen = record default_options {
  capture_stacks_cli = false;
  sample_period_async = pos 1;
  target_pid = pos 77;
}

-- The period is not positive, and 1 stands for it.
arguments_read : parse_args atoi arguments default_options ≡ some chosen
unfolding parse_args read_option read_flag
arguments_read = refl

-- An option whose value is missing.
no_value : parse_args atoi (codes "--pid" ∷ []) default_options ≡ none
unfolding parse_args read_flag
no_value = refl

-- The second path is there.
second_library :
    choose_library
      (λ p. not (same_text p (codes "/usr/local/cuda/lib64/libcudart.so")))
      default_options
    ≡ some (codes "/usr/local/cuda-12.6/targets/x86_64-linux/lib/libcudart.so.12")
unfolding choose_library first_present
second_library = refl

chosen-IsUsable : IsUsable chosen
chosen-IsUsable = parse_args-IsUsable atoi arguments chosen arguments_read

parse_args-IsUsable_example : IsUsable chosen
parse_args-IsUsable_example = parse_args-IsUsable atoi arguments chosen arguments_read

sample_period-gpu_cfg_example :
    (pos (sample_period (gpu_cfg chosen) cuda_ev_flag_async) ≡ pos 1)
    × (pos (sample_period (gpu_cfg chosen) 0) ≡ pos 1)
sample_period-gpu_cfg_example =
    sample_period-gpu_cfg chosen chosen-IsUsable (omega arith) (omega arith)

-- A library without cudaGraphLaunch.
abbrev older : CudaFunc → Bool → Bool
older f ret = not (same_text (func_name f) (codes "cudaGraphLaunch"))

attach_probes-attachable_example :
    attach_probes (λ p. true) older ≡ attachable (λ p. true) older cuda_funcs
attach_probes-attachable_example = attach_probes-attachable (λ p. true) older

attach_probes-covers_example :
    (has_link
        (codes "cudaGraphLaunch")
        (codes "trace_cuda_graph_launch_entry")
        false
        (attach_probes (λ p. true) (λ f r. true))
      ≡ true)
    × (has_link
          (codes "cudaGraphLaunch")
          (codes "trace_cuda_graph_launch_return")
          true
          (attach_probes (λ p. true) (λ f r. true))
        ≡ true)
unfolding cuda_op_name
attach_probes-covers_example =
    attach_probes-covers (λ p. true) (λ f r. true) graph_launch (λ p. refl) (λ f r. refl)
