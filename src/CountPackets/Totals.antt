-- ===== src/CountPackets/Totals.antt =====
-- src/bpf/count_packets.bpf.c and src/user/count_packets.c together: the numbers that are printed for the packets that
-- arrive.
use local_ai_perf_analysis.Prelude.{
  ℕ, zero, suc, ◌+◌, ◌%◌, ◌<◌, true, [], ◌++◌, Option, some, ◌≡◌, refl, ap, ◌∙◌, ◌==◌, ==_self, ap₂,
  arith, Bytes, codes, nonneg, u64_mod,
}
use local_ai_perf_analysis.Printf.{show_dec}
use local_ai_perf_analysis.Packets.{count_all, count_all_lem}
use local_ai_perf_analysis.Process.{Process}
use local_ai_perf_analysis.CountPackets.{CountRound, CountCalls, count_line, main}
use local_ai_perf_analysis.CountPackets.Runs.{lines_of, Attached, count_main_detaches}

-- The packets that arrive up to the end of round i, n of them in each round.
abbrev pub arrivals : (ℕ → ℕ) → ℕ → ℕ
arrivals n zero = n 0
arrivals n (suc i) = arrivals n i + n (suc i)

-- The slot of the map at the end of round i, 0 at first.
unfoldable pub slot_at : (ℕ → ℕ) → ℕ → Option ℕ
slot_at n zero = count_all (n 0) (some 0)
slot_at n (suc i) = count_all (n (suc i)) (slot_at n i)

-- Rounds in which the lookup reads the slot that the XDP program has left, and the flag is set in round k.
abbrev pub counting_rounds : (ℕ → ℕ) → ℕ → ℕ → CountRound
counting_rounds n k i = record { exiting = i == k; lookup = slot_at n i }

-- One line with the total for each of m rounds from round i on.
abbrev pub total_lines : (ℕ → ℕ) → ℕ → ℕ → Bytes
total_lines n zero i = []
total_lines n (suc m) i =
    (codes "Packets: " ++ (show_dec (arrivals n i % u64_mod) ++ codes "\n"))
    ++ total_lines n m (suc i)

slot_at_lem : (n : ℕ → ℕ) (i : ℕ) → slot_at n i ≡ some (arrivals n i % u64_mod)
unfolding slot_at
slot_at_lem n zero = (count_all_lem (n 0) 0 (omega arith)).0 ∙ ap some (omega arith)
slot_at_lem n (suc i) =
    ap (count_all (n (suc i))) (slot_at_lem n i)
    ∙ (count_all_lem (n (suc i)) (arrivals n i % u64_mod) (omega arith)).0
    ∙ ap some (omega arith)

lines_of-counting_rounds :
    (n : ℕ → ℕ) (k m i : ℕ) → lines_of (counting_rounds n k) m i ≡ total_lines n m i
lines_of-counting_rounds n k zero i = refl
lines_of-counting_rounds n k (suc m) i =
    ap₂ (λ x y. count_line x ++ y) (slot_at_lem n i) (lines_of-counting_rounds n k m (suc i))

-- From the packets to the output: if count_packets attaches its program and finds the map, the counter is 0 at
-- first, n i packets arrive in round i, the lookup succeeds in each and the flag is seen in round k, then main
-- returns 0 and has printed, for each round before, how many packets had arrived by its end, modulo 2^64.
pub count_main-totals :
    (n : ℕ → ℕ) (fuel k : ℕ) (a : CountCalls)
    → Attached a
    → nonneg a.map_fd ≡ true
    → k < fuel
    → (p : Process) × (main (counting_rounds n k) fuel a ≡ some (0, p, total_lines n k 0))
count_main-totals n fuel k a attached mapped lt =
    let (p, e, closed, left) =
      count_main_detaches (counting_rounds n k) fuel k a attached (λ j below. ground arith)
        (==_self k) lt in
    (p, e ∙ rw mapped (ap (λ x. some (0, p, x)) (lines_of-counting_rounds n k k 0)))
