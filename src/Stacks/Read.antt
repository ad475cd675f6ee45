-- ===== src/Stacks/Read.antt =====
-- src/user/unified_trace.c: what read_stack_addrs returns.
use local_ai_perf_analysis.Prelude.{
  ℕ, zero, suc, ℤ, true, List, [], ◌∷◌, ◌≡◌, refl, arith, some, take, nonneg,
}
use local_ai_perf_analysis.Events.{perf_max_stack_depth}
use local_ai_perf_analysis.Stacks.{Tool, copy_addrs, read_stack_addrs}

-- The addresses before the first zero.
abbrev pub before_zero : List ℕ → List ℕ
before_zero [] = []
before_zero (zero ∷ l) = []
before_zero (suc a ∷ l) = suc a ∷ before_zero l

copy_addrs_lem : (room : ℕ) (stack : List ℕ) → copy_addrs room stack ≡ take room (before_zero stack)
unfolding copy_addrs
copy_addrs_lem zero stack = refl
copy_addrs_lem (suc room) [] = refl
copy_addrs_lem (suc room) (zero ∷ stack) = refl
copy_addrs_lem (suc room) (suc a ∷ stack) = ground (arith, copy_addrs_lem room stack)

-- For an id whose entry the stack map has, the addresses are those of the entry before the first
-- zero, as many as fit.
pub read_stack_addrs_found :
    (t : Tool) (stack_id : ℤ) (out_cap : ℕ) (stack : List ℕ)
    → nonneg stack_id ≡ true
    → nonneg t.stack_map_fd ≡ true
    → t.stack_map stack_id ≡ some stack
    → read_stack_addrs t stack_id out_cap
      ≡ take out_cap (before_zero (take perf_max_stack_depth stack))
unfolding read_stack_addrs
read_stack_addrs_found t stack_id out_cap stack id fd e =
    rw (id, fd, e) (copy_addrs_lem out_cap (take perf_max_stack_depth stack))
