-- ===== src/Options.antt =====
-- src/user/unified_trace.c, main: the command line, the CUDA library that is chosen, and the
-- configuration that is given to the CUDA probes. The arguments are argv without the program's name;
-- atoi of the C library and access are parameters.
pub mod Parse
use local_ai_perf_analysis.Prelude.{
  ℕ, ◌-◌, ◌%◌, ◌^◌, ℤ, pos, negsuc, Bool, true, false, List, [], ◌∷◌, Option, none, some, Bytes,
  codes, ◌==◌, ◌&&◌, if◌then◌else◌, nonpos,
}
use local_ai_perf_analysis.Cuda.{CudaTracerCfg}

-- The variables that the options set.
pub record Options : Type 0 where
  pub target_pid : ℤ
  pub duration : ℤ
  pub output_file : Bytes
  pub cuda_lib_path : Option Bytes
  pub capture_stacks_cli : Bool
  pub symbolize_cli : Bool
  pub sample_period_async : ℤ
  pub sample_period_sync : ℤ
  pub max_stack_frames_in_json : ℤ

abbrev pub default_options : Options
default_options = record {
  target_pid = pos 0;
  duration = pos 10;
  output_file = codes "trace.json";
  cuda_lib_path = none;
  capture_stacks_cli = true;
  symbolize_cli = true;
  sample_period_async = pos 8;
  sample_period_sync = pos 1;
  max_stack_frames_in_json = pos 12;
}

-- strcmp(a, b) == 0
abbrev pub same_text : Bytes → Bytes → Bool
same_text [] [] = true
same_text [] (c ∷ b) = false
same_text (c ∷ a) [] = false
same_text (c ∷ a) (d ∷ b) = c == d && same_text a b

-- `if (n <= 0) n = d;`
abbrev pub positive_or : ℤ → ℤ → ℤ
positive_or d n = if nonpos n then d else n

-- An option without a value.
unfoldable pub read_flag : Bytes → Options → Option Options
read_flag a o =
    if same_text a (codes "--no-stacks")
    then some (record o { capture_stacks_cli = false })
    else if same_text a (codes "--no-symbolize")
    then some (record o { symbolize_cli = false })
    else none

module _ (atoi : Bytes → ℤ) where
  -- An option with its value.
  unfoldable pub read_option : Bytes → Bytes → Options → Option Options
  read_option a v o =
      if same_text a (codes "--pid")
      then some (record o { target_pid = atoi v })
      else if same_text a (codes "--duration")
      then some (record o { duration = atoi v })
      else if same_text a (codes "--output")
      then some (record o { output_file = v })
      else if same_text a (codes "--cuda-lib")
      then some (record o { cuda_lib_path = some v })
      else if same_text a (codes "--stack-sample-async")
      then some (record o { sample_period_async = positive_or (pos 1) (atoi v) })
      else if same_text a (codes "--stack-sample-sync")
      then some (record o { sample_period_sync = positive_or (pos 1) (atoi v) })
      else if same_text a (codes "--max-stack-frames")
      then some (record o { max_stack_frames_in_json = positive_or (pos 12) (atoi v) })
      else none

  -- The loop over the arguments; `none` for the usage message and exit status 1. An option that takes a
  -- value is one only if an argument follows.
  unfoldable pub parse_args : List Bytes → Options → Option Options
  unfolding read_option read_flag
  parse_args [] o = some o
  parse_args (a ∷ []) o = read_flag a o
  parse_args (a ∷ v ∷ rest) o = elim (read_option a v o) [
    | some p ↦ parse_args rest p
    | none ↦ elim (read_flag a o) [ some p ↦ parse_args (v ∷ rest) p | none ↦ none ]
  ]

-- The paths tried without --cuda-lib.
abbrev pub cuda_paths : List Bytes
cuda_paths =
    codes "/usr/local/cuda/lib64/libcudart.so"
    ∷ codes "/usr/local/cuda-12.6/targets/x86_64-linux/lib/libcudart.so.12"
    ∷ []

unfoldable pub first_present : (Bytes → Bool) → List Bytes → Option Bytes
first_present access [] = none
first_present access (p ∷ paths) =
    let later = first_present access paths in if access p then some p else later

-- `none` for the error message and exit status 1.
unfoldable pub choose_library : (Bytes → Bool) → Options → Option Bytes
unfolding first_present
choose_library access o = elim o.cuda_lib_path [
  | some p ↦ some p
  | none ↦ first_present access cuda_paths
]

-- An int cast to __u32.
abbrev pub word32 : ℤ → ℕ
word32 (pos n) = n % 2 ^ 32
word32 (negsuc n) = 2 ^ 32 - 1 - n % 2 ^ 32

abbrev pub gpu_cfg : Options → CudaTracerCfg
gpu_cfg o = record {
  target_pid = word32 o.target_pid;
  sample_period_sync = word32 o.sample_period_sync;
  sample_period_async = word32 o.sample_period_async;
  capture_stacks = if o.capture_stacks_cli then 1 else 0;
}
