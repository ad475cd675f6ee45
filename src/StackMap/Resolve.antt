-- ===== src/StackMap/Resolve.antt =====
-- A captured stack, from bpf_get_stackid to the JSON text of src/user/unified_trace.c.
use local_ai_perf_analysis.Prelude.{
  ℕ, zero, suc, ◌-◌, ◌≤◌, ℤ, true, false, List, [], ◌∷◌, ◌++◌, some, ◌≡◌, ◌≢◌, refl, ap, ◌∙◌, arith,
  length, length-append, nonneg, take, take_all, All,
}
use local_ai_perf_analysis.Events.{perf_max_stack_depth}
use local_ai_perf_analysis.Stacks.{Tool, emit_addr_stack, emit_stack_json}
use local_ai_perf_analysis.Stacks.Read.{before_zero, read_stack_addrs_found}
use local_ai_perf_analysis.StackMap.{StackMap, zeros, entry, Capture, capture_all}

length-zeros : (n : ℕ) → length (zeros n) ≡ n
length-zeros zero = refl
length-zeros (suc n) = ap suc (length-zeros n)

before_zero-entry : (l : List ℕ) (n : ℕ) → All (λ a. a ≢ 0) l → before_zero (l ++ zeros n) ≡ l
before_zero-entry [] zero h = refl
before_zero-entry [] (suc n) h = refl
before_zero-entry (zero ∷ l) n (ha, h) = absurd (ha refl)
before_zero-entry (suc a ∷ l) n (ha, h) = ap (◌∷◌ (suc a)) (before_zero-entry l n h)

-- The addresses of an entry are those of the stack.
entry_addrs :
    (stack : List ℕ)
    → length stack ≤ perf_max_stack_depth
    → All (λ a. a ≢ 0) stack
    → take perf_max_stack_depth (before_zero (take perf_max_stack_depth (entry stack))) ≡ stack
entry_addrs stack fits live =
    let n = perf_max_stack_depth - length stack in
    let whole : take perf_max_stack_depth (entry stack) ≡ entry stack =
      take_all perf_max_stack_depth (entry stack)
        (omega (arith, length-append stack (zeros n), length-zeros n)) in
    ap (λ x. take perf_max_stack_depth (before_zero x)) whole
    ∙ ap (take perf_max_stack_depth) (before_zero-entry stack n live)
    ∙ take_all perf_max_stack_depth stack fits

module _ (S : StackMap) where
  open S use {Map, get_stackid, lookup, lookup-get_stackid, lookup_kept}

  lookup-capture_all :
      (l : List Capture) (m : Map) (id : ℤ) (v : List ℕ)
      → lookup m id ≡ some v
      → lookup (capture_all S l m) id ≡ some v
  unfolding capture_all
  lookup-capture_all [] m id v h = h
  lookup-capture_all (c ∷ l) m id v h =
      lookup-capture_all l (get_stackid c.fast c.stack m).1 id v
        (lookup_kept m c.fast c.stack v id h)

  -- A stack of at most PERF_MAX_STACK_DEPTH addresses, none of them 0, that is captured in the shared map
  -- without the fast comparison is the one that emit_stack_json writes for its id, whatever stacks are
  -- captured later, if the tool has the map open.
  pub emit_stack_json-get_stackid :
      (t : Tool) (m : Map) (stack : List ℕ) (later : List Capture) (pid : ℕ)
      → length stack ≤ perf_max_stack_depth
      → All (λ a. a ≢ 0) stack
      → nonneg (get_stackid false stack m).0 ≡ true
      → nonneg t.stack_map_fd ≡ true
      → t.stack_map ≡ lookup (capture_all S later (get_stackid false stack m).1)
      → emit_stack_json t (get_stackid false stack m).0 pid ≡ emit_addr_stack t pid stack
  unfolding emit_stack_json
  emit_stack_json-get_stackid t m stack later pid fits live got fd shared =
      let id = (get_stackid false stack m).0 in
      let after = (get_stackid false stack m).1 in
      let held : t.stack_map id ≡ some (entry stack) =
        ap (λ f. f id) shared
        ∙ lookup-capture_all later after id (entry stack) (lookup-get_stackid m stack fits got) in
      ap (emit_addr_stack t pid) (
        read_stack_addrs_found t id perf_max_stack_depth (entry stack) got fd held
        ∙ entry_addrs stack fits live)
