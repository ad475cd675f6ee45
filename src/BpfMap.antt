-- ===== src/BpfMap.antt =====
-- The hash maps of the kernel, which the BPF programs reach through bpf_map_lookup_elem,
-- bpf_map_update_elem with BPF_ANY, and bpf_map_delete_elem. The kernel is not part of the
-- repository, so a map is a parameter: operations with their documented behaviour. An update may be
-- refused (a full map and a new key); a key that is present is always replaced.
pub mod Bounded
use local_ai_perf_analysis.Prelude.{
  ℕ, Bool, true, ◌&&◌, ◌≡◌, Option, none, some, ◌==◌, if◌then◌else◌,
}

pub record BpfMap (V : Type 0) : Type 1 where
  pub Map : Type 0
  pub lookup : Map → ℕ → Option V
  pub update : Map → ℕ → V → Map
  pub delete : Map → ℕ → Map
  -- Whether an update of the key succeeds.
  pub accepts : Map → ℕ → Bool
  pub lookup-update :
      (m : Map) (k : ℕ) (v : V) (j : ℕ)
      → lookup (update m k v) j ≡ (if (k == j) && accepts m k then some v else lookup m j)
  pub lookup-delete :
      (m : Map) (k j : ℕ) → lookup (delete m k) j ≡ (if k == j then none else lookup m j)
  pub accepts_present : (m : Map) (k : ℕ) (v : V) → lookup m k ≡ some v → accepts m k ≡ true
