-- ===== src/StackMap.antt =====
-- include/maps.h: the map of stack traces that the BPF programs of trace_cpu_sched.bpf.c and trace_cuda.bpf.c and
-- src/user/unified_trace.c share. bpf_get_stackid and bpf_map_lookup_elem on it are the kernel's, a parameter with what the
-- manual of bpf-helpers says: an entry holds the addresses and then zeros, and is not replaced without
-- BPF_F_REUSE_STACKID. With BPF_F_FAST_STACK_CMP stacks are compared by hash only, so that the entry of an id may be that of
-- another stack.
pub mod Table
pub mod Resolve
use local_ai_perf_analysis.Prelude.{
  ℕ, zero, suc, ◌-◌, ◌≤◌, ℤ, Bool, false, List, [], ◌∷◌, ◌++◌, Option, some, ◌≡◌, true, length,
  nonneg,
}
use local_ai_perf_analysis.Events.{perf_max_stack_depth}

-- max_entries
abbrev pub stack_traces_entries : ℕ
stack_traces_entries = 10000

abbrev pub zeros : ℕ → List ℕ
zeros zero = []
zeros (suc n) = 0 ∷ zeros n

-- The value of an entry, PERF_MAX_STACK_DEPTH addresses.
abbrev pub entry : List ℕ → List ℕ
entry stack = stack ++ zeros (perf_max_stack_depth - length stack)

pub record StackMap : Type 1 where
  pub Map : Type 0
  -- The id and the map after a call on a stack; the flag stands for BPF_F_FAST_STACK_CMP.
  pub get_stackid : Bool → List ℕ → Map → ℤ × Map
  pub lookup : Map → ℤ → Option (List ℕ)
  pub lookup-get_stackid :
      (m : Map) (stack : List ℕ)
      → length stack ≤ perf_max_stack_depth
      → nonneg (get_stackid false stack m).0 ≡ true
      → lookup (get_stackid false stack m).1 (get_stackid false stack m).0 ≡ some (entry stack)
  pub lookup_kept :
      (m : Map) (fast : Bool) (stack v : List ℕ) (id : ℤ)
      → lookup m id ≡ some v
      → lookup (get_stackid fast stack m).1 id ≡ some v

-- A stack that is captured, by either program.
pub record Capture : Type 0 where
  pub fast : Bool
  pub stack : List ℕ

module _ (S : StackMap) where
  open S use {Map, get_stackid}

  unfoldable pub capture_all : List Capture → Map → Map
  capture_all [] m = m
  capture_all (c ∷ l) m = capture_all l (get_stackid c.fast c.stack m).1
