-- ===== src/Cuda/Sampling.antt =====
-- src/bpf/trace_cuda.bpf.c: how often maybe_capture_stack captures a stack. The counter of a CPU is
-- shared by the asynchronous and the other calls, and each class has its own period.
use native.Mathlib.Nat.{add-div_right, div-add-mod', mul-add-div_right, div-eq_of_lt, mod-lt}
use local_ai_perf_analysis.Prelude.{
  ℕ, ℤ, pos, negsuc, Bool, true, false, List, [], ◌∷◌, ◌≡◌, ◌≢◌, refl, arith, ◌+◌, ◌-◌, ◌*◌, ◌/◌,
  ◌%◌, ◌<◌, ◌!=◌, ◌==◌, if◌then◌else◌, nonneg, All, u64_mod, suc, length,
}
use local_ai_perf_analysis.Events.{cuda_ev_flag_async}
use local_ai_perf_analysis.Cuda.{
  CudaTracerCfg, Firing, Counters, bump, sample_period, maybe_capture_stack,
}

-- The stack ids of a sequence of captures, each with the flags of its call.
unfoldable pub capture_all : CudaTracerCfg → List (Firing × ℕ) → Counters → List ℤ
capture_all cfg [] n = []
capture_all cfg ((fr, flags) ∷ l) n =
    let r = maybe_capture_stack cfg fr flags n in r.0 ∷ capture_all cfg l r.1

-- How many of the ids stand for a captured stack.
abbrev pub captured : List ℤ → ℕ
captured [] = 0
captured (pos n ∷ l) = suc (captured l)
captured (negsuc n ∷ l) = captured l

abbrev one_if : Bool → ℕ
one_if true = 1
one_if false = 0

-- A capture on the CPU, of a call with the flags, where the helpers succeed.
abbrev pub Samples : ℕ → ℕ → Firing × ℕ → Type 0
Samples cpu flags (fr, g) =
    (g ≡ flags) × (fr.processor ≡ cpu) × (fr.slot ≡ true) × (nonneg fr.stackid ≡ true)

capture_step :
    (cfg : CudaTracerCfg) (fr : Firing) (flags : ℕ) (n : Counters)
    → cfg.capture_stacks ≢ 0
    → fr.slot ≡ true
    → maybe_capture_stack cfg fr flags n ≡ (
        if n fr.processor % sample_period cfg flags != 0
        then (negsuc 0, bump n fr.processor)
        else (fr.stackid, bump n fr.processor))
unfolding maybe_capture_stack
capture_step cfg fr flags n on slot = ground arith

-- n / p, rounded up, and how it grows with n.
unfoldable pub ceil_div : ℕ → ℕ → ℕ
ceil_div n p = (n + (p - 1)) / p

next_div : (c p : ℕ) → 0 < p → (c + 1 + (p - 1)) / p ≡ c / p + 1
next_div c p h =
    let regroup : c + 1 + (p - 1) ≡ c + p = omega arith in rw regroup (add-div_right c h)

ceil_hit : (c p : ℕ) → 0 < p → c % p ≡ 0 → (c + (p - 1)) / p ≡ c / p
ceil_hit c p h e =
    let split : c + (p - 1) ≡ c / p * p + (p - 1) = omega (arith, div-add-mod' c p) in
    let small : (p - 1) / p ≡ 0 = div-eq_of_lt (omega arith) in
    rw split (omega (arith, mul-add-div_right h (c / p) (p - 1)))

ceil_miss : (c p : ℕ) → 0 < p → c % p ≢ 0 → (c + (p - 1)) / p ≡ c / p + 1
ceil_miss c p h e =
    let r = c % p in
    let below : r < p = mod-lt c h in
    let split : c + (p - 1) ≡ c / p * p + (r - 1 + p) = omega (arith, div-add-mod' c p) in
    let small : (r - 1) / p ≡ 0 = div-eq_of_lt (omega arith) in
    let over : (r - 1 + p) / p ≡ (r - 1) / p + 1 = add-div_right (r - 1) h in
    rw split (omega (arith, mul-add-div_right h (c / p) (r - 1 + p)))

ceil_div-next : (c p : ℕ) → 0 < p → ceil_div (c + 1) p ≡ ceil_div c p + one_if (c % p == 0)
unfolding ceil_div
ceil_div-next c p h = ground (arith, next_div c p h, ceil_hit c p h, ceil_miss c p h)

captured-cons : (a : ℤ) (l : List ℤ) → captured (a ∷ l) ≡ captured l + one_if (nonneg a)
captured-cons (pos n) l = omega arith
captured-cons (negsuc n) l = omega arith

bump_lem : (n : Counters) (cpu c : ℕ) → n cpu ≡ c → c + 1 < u64_mod → bump n cpu cpu ≡ c + 1
bump_lem n cpu c e h = ground arith

sample_period-pos : (cfg : CudaTracerCfg) (flags : ℕ) → 0 < sample_period cfg flags
unfolding sample_period
sample_period-pos cfg flags = ground arith

capture_result :
    (cfg : CudaTracerCfg) (cpu flags : ℕ) (c : Firing × ℕ) (n : Counters)
    → cfg.capture_stacks ≢ 0
    → Samples cpu flags c
    → let r = maybe_capture_stack cfg c.0 c.1 n in
      (r.1 ≡ bump n cpu) × (one_if (nonneg r.0) ≡ one_if (n cpu % sample_period cfg flags == 0))
capture_result cfg cpu flags (fr, g) n on (e, here, slot, got) =
    rw (capture_step cfg fr g n on slot, here, e) (ground arith, ground arith)

-- Among captures of one class on one CPU, with stacks enabled, the helpers succeeding and no wrap of the
-- counter, the stacks captured are those at the multiples of the class's period: their number is the
-- difference of the rounded-up quotients.
pub captured-capture_all :
    (cfg : CudaTracerCfg) (cpu flags : ℕ) (l : List (Firing × ℕ)) (n : Counters)
    → cfg.capture_stacks ≢ 0
    → All (Samples cpu flags) l
    → n cpu + length l < u64_mod
    → captured (capture_all cfg l n) + ceil_div (n cpu) (sample_period cfg flags)
      ≡ ceil_div (n cpu + length l) (sample_period cfg flags)
unfolding capture_all
captured-capture_all cfg cpu flags [] n on h lt =
    let e : n cpu + 0 ≡ n cpu = omega arith in rw e (omega arith)
captured-capture_all cfg cpu flags (c ∷ l) n on (s, h) lt =
    let (counters, sampled) = capture_result cfg cpu flags c n on s in
    let next : bump n cpu cpu ≡ n cpu + 1 = bump_lem n cpu (n cpu) refl (omega arith) in
    let regroup : n cpu + 1 + length l ≡ n cpu + suc (length l) = omega arith in
    let rest = captured-capture_all cfg cpu flags l (bump n cpu) on h (omega arith) in
    rw (captured-cons, sampled, counters)
      (omega (
        arith,
        ceil_div-next (n cpu) (sample_period cfg flags) (sample_period-pos cfg flags),
        (rw (next, regroup) at rest),
      ))

-- A synchronous call before each asynchronous one.
abbrev pub alternate : List (Firing × Firing) → List (Firing × ℕ)
alternate [] = []
alternate ((s, a) ∷ l) = (s, 0) ∷ (a, cuda_ev_flag_async) ∷ alternate l

abbrev pub seconds : List ℤ → List ℤ
seconds (a ∷ b ∷ l) = b ∷ seconds l
seconds _ = []

abbrev pub OnCpu : ℕ → Firing × Firing → Type 0
OnCpu cpu (s, a) = (s.processor ≡ cpu) × (s.slot ≡ true) × (a.processor ≡ cpu) × (a.slot ≡ true)

odd-mod : (c q : ℕ) → c % 2 ≡ 1 → c % (2 * q) ≢ 0
odd-mod c q odd e = omega (arith, div-add-mod' c (2 * q))

even_bump :
    (n : Counters) (cpu : ℕ)
    → n cpu % 2 ≡ 0
    → (bump n cpu cpu % 2 ≡ 1) × (bump (bump n cpu) cpu cpu % 2 ≡ 0)
even_bump n cpu e = (ground arith, ground arith)

capture_counters :
    (cfg : CudaTracerCfg) (fr : Firing) (flags : ℕ) (n : Counters)
    → cfg.capture_stacks ≢ 0
    → fr.slot ≡ true
    → (maybe_capture_stack cfg fr flags n).1 ≡ bump n fr.processor
capture_counters cfg fr flags n on slot = rw (capture_step cfg fr flags n on slot) (ground arith)

capture_miss :
    (cfg : CudaTracerCfg) (fr : Firing) (n : Counters)
    → cfg.capture_stacks ≢ 0
    → fr.slot ≡ true
    → n fr.processor % sample_period cfg cuda_ev_flag_async ≢ 0
    → maybe_capture_stack cfg fr cuda_ev_flag_async n ≡ (negsuc 0, bump n fr.processor)
capture_miss cfg fr n on slot miss =
    rw (capture_step cfg fr cuda_ev_flag_async n on slot) (ground arith)

async_period :
    (cfg : CudaTracerCfg) (q : ℕ)
    → cfg.sample_period_async ≡ 2 * q
    → 0 < q
    → sample_period cfg cuda_ev_flag_async ≡ 2 * q
unfolding sample_period
async_period cfg q e h = ground arith

-- If synchronous and asynchronous calls alternate on one CPU, the asynchronous period is even and the counter
-- starts even, no asynchronous call gets a stack, since both classes share the counter.
pub async_never_sampled :
    (cfg : CudaTracerCfg) (cpu q : ℕ) (l : List (Firing × Firing)) (n : Counters)
    → cfg.capture_stacks ≢ 0
    → cfg.sample_period_async ≡ 2 * q
    → 0 < q
    → n cpu % 2 ≡ 0
    → All (OnCpu cpu) l
    → All (λ a. a ≡ negsuc 0) (seconds (capture_all cfg (alternate l) n))
unfolding capture_all
async_never_sampled cfg cpu q [] n on period some_q even h = tt
async_never_sampled cfg cpu q ((s, a) ∷ l) n on period some_q even ((cs, ss, ca, sa), h) =
    let first = capture_counters cfg s 0 n on ss in
    let (odd, again) = even_bump n cpu even in
    let second =
      capture_miss cfg a (bump n cpu) on sa
        (rw (ca, async_period cfg q period some_q) (odd-mod _ q odd)) in
    rw (first, cs, second, ca)
      (refl, async_never_sampled cfg cpu q l (bump (bump n cpu) cpu) on period some_q again h)
