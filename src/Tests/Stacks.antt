-- ===== src/Tests/Stacks.antt =====
-- Stacks in the shared map, with two more captured later.
use local_ai_perf_analysis.Prelude.{ℕ, pos, true, false, List, [], ◌∷◌, ◌≡◌, refl, arith}
use local_ai_perf_analysis.Stacks.{Tool, emit_stack_json, emit_addr_stack}
use local_ai_perf_analysis.StackMap.{StackMap, Capture, capture_all, stack_traces_entries}
use local_ai_perf_analysis.StackMap.Table.{table, insert, place}
use local_ai_perf_analysis.StackMap.Resolve.{emit_stack_json-get_stackid}
use local_ai_perf_analysis.Tests.Output.{tool}

abbrev kernel_map : StackMap
kernel_map = table stack_traces_entries

abbrev first_stack : List ℕ
first_stack = 0x401000 ∷ 0x402000 ∷ []

abbrev captures : List Capture
captures =
    record { fast = true; stack = 0x403000 ∷ [] }
    ∷ record { fast = false; stack = first_stack }
    ∷ []

abbrev raw_tool : Tool
raw_tool = record tool {
  stack_map_fd = pos 3;
  stack_map =
      kernel_map.lookup
        (capture_all kernel_map captures (kernel_map.get_stackid false first_stack []).1);
}

emit_stack_json-get_stackid_example :
    emit_stack_json raw_tool (kernel_map.get_stackid false first_stack []).0 7
    ≡ emit_addr_stack raw_tool 7 first_stack
unfolding insert place
emit_stack_json-get_stackid_example =
    emit_stack_json-get_stackid kernel_map raw_tool [] first_stack captures 7 (omega arith)
      ((λ e. omega arith), ((λ e. omega arith), tt)) refl refl refl
