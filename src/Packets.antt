-- ===== src/Packets.antt =====
-- src/bpf/count_packets.bpf.c: the XDP program that counts packets. The array map is its one slot; `none` stands for a failed lookup.
use local_ai_perf_analysis.Prelude.{
  ℕ, zero, suc, Option, none, some, ◌≡◌, ◌+◌, ◌%◌, ◌<◌, arith, u64_mod,
}

-- enum xdp_action
pub data XdpAction : Type 0 where
  aborted drop pass tx redirect : XdpAction

-- __sync_fetch_and_add(count, 1) on a __u64.
pub xdp_count_packets : Option ℕ → XdpAction × Option ℕ
xdp_count_packets none = (pass, none)
xdp_count_packets (some count) = (pass, some ((count + 1) % u64_mod))

-- The slot after a number of packets in a row.
pub count_all : ℕ → Option ℕ → Option ℕ
count_all zero slot = slot
count_all (suc n) slot = count_all n (xdp_count_packets slot).1

-- After n packets the counter has grown by n, modulo 2^64, and every packet was passed on.
pub count_all_lem :
    (n count : ℕ)
    → count < u64_mod
    → (count_all n (some count) ≡ some ((count + n) % u64_mod))
      × ((xdp_count_packets (count_all n (some count))).0 ≡ pass)
unfolding count_all xdp_count_packets
count_all_lem zero count h = ground arith
count_all_lem (suc n) count h = ground (arith, count_all_lem n ((count + 1) % u64_mod))
