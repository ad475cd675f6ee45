-- ===== src/Chrome/Rows.antt =====
-- src/user/unified_trace.c: the row of the trace on which a CUDA event is drawn.
use local_ai_perf_analysis.Prelude.{ℕ, ◌+◌, ◌≡◌, ◌<◌, ◌≤◌, ◌↔◌, arith, u32_mod}
use local_ai_perf_analysis.Events.{CudaEvent}
use local_ai_perf_analysis.Entry.{stream_offset, gpu_virtual_tid}

-- The offset of a stream is a byte, and only the default stream has offset 0.
pub stream_offset-byte : (s : ℕ) → (stream_offset s < 256) × ((stream_offset s ≡ 0) ↔ (s ≡ 0))
unfolding stream_offset
stream_offset-byte s = (ground arith, ground arith)

-- For thread ids that leave room below 2^32, the events of a thread lie on its 256 rows from tid + 1000000 on,
-- those of the default stream and no others on the first.
pub gpu_virtual_tid-rows :
    (g : CudaEvent)
    → g.tid + 1000256 < u32_mod
    → (g.tid + 1000000 ≤ gpu_virtual_tid g)
      × (gpu_virtual_tid g < g.tid + 1000256)
      × ((gpu_virtual_tid g ≡ g.tid + 1000000) ↔ (g.stream_id ≡ 0))
unfolding gpu_virtual_tid
gpu_virtual_tid-rows g lt =
    let (byte, zero_iff) = stream_offset-byte g.stream_id in
    (ground arith, ground arith, ground arith)
