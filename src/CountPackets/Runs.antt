-- ===== src/CountPackets/Runs.antt =====
-- src/user/count_packets.c, main: what it prints, its exit status, and what becomes of the attachment to
-- the interface.
use local_ai_perf_analysis.Prelude.{
  ℕ, zero, suc, ◌+◌, ◌<◌, ◌≤◌, ℤ, pos, negsuc, true, false, [], ◌++◌, none, some, ◌≡◌, refl, arith,
  Bytes, nonneg, nonpos, if◌then◌else◌, Bool-cases, inl, inr,
}
use local_ai_perf_analysis.Process.{
  Process, new_process, go_on, cleanup, take_hold, acquire, require, checked, release, is_zero,
}
use local_ai_perf_analysis.Process.Tracking.{outstanding}
use local_ai_perf_analysis.CountPackets.{
  cleanup_xdp, detach, CountRound, count_line, poll_counts, CountCalls, setup, close, conclude,
  main,
}

-- The lines of n rounds from round i on.
abbrev pub lines_of : (ℕ → CountRound) → ℕ → ℕ → Bytes
lines_of rounds zero i = []
lines_of rounds (suc n) i = count_line (rounds i).lookup ++ lines_of rounds n (suc i)

poll_counts_lem :
    (rounds : ℕ → CountRound) (n fuel i : ℕ)
    → ((j : ℕ) → i ≤ j → j < i + n → (rounds j).exiting ≡ false)
    → (rounds (i + n)).exiting ≡ true
    → n < fuel
    → poll_counts rounds fuel i ≡ some (lines_of rounds n i)
unfolding poll_counts
poll_counts_lem rounds n zero i on off lt = absurd (omega arith)
poll_counts_lem rounds zero (suc fuel) i on off lt =
    let same : i + 0 ≡ i = omega arith in rw (poll_counts, rw same at off) refl
poll_counts_lem rounds (suc n) (suc fuel) i on off lt =
    let shift : i + suc n ≡ suc i + n = omega arith in
    rw
      (
        poll_counts,
        on i (omega arith) (omega arith),
        poll_counts_lem rounds n fuel (suc i) (λ j le below. on j (omega arith) (omega arith))
            (rw shift at off) (omega arith),
      )
      refl

-- The calls up to the attachment succeed.
abbrev pub Attached : CountCalls → Type 0
Attached a =
    (nonpos a.ifindex ≡ false)
    × (a.opens ≡ true)
    × (a.loaded ≡ pos 0)
    × (a.has_program ≡ true)
    × (nonneg a.prog_fd ≡ true)
    × (a.attached ≡ pos 0)

positive_nonzero : (i : ℤ) → nonpos i ≡ false → is_zero i ≡ false
positive_nonzero (pos zero) h = absurd (cc h)
positive_nonzero (pos (suc n)) h = ground arith
positive_nonzero (negsuc n) h = refl

attached_process : Process
attached_process = take_hold 1 (take_hold 0 new_process)

setup-Attached :
    (a : CountCalls)
    → Attached a
    → setup a new_process ≡ (if nonneg a.map_fd then go_on else cleanup, attached_process)
unfolding setup acquire require checked attached_process
setup-Attached a (index, opens, loaded, program, fd, attached) =
    rw (positive_nonzero a.ifindex index, opens, loaded, program, fd, attached) refl

-- If the program is attached and the map is not found, the exit status is 0, the object is given back,
-- and the program stays attached to the interface.
count_main_unmapped :
    (rounds : ℕ → CountRound) (fuel : ℕ) (a : CountCalls)
    → Attached a
    → nonneg a.map_fd ≡ false
    → (p : Process) × (main rounds fuel a ≡ some (0, p, []))
      × (outstanding 0 p.calls ≡ some false)
      × (outstanding 1 p.calls ≡ some true)
unfolding main conclude close cleanup_xdp release attached_process
count_main_unmapped rounds fuel a attached unmapped =
    (release 0 attached_process, rw (setup-Attached a attached, unmapped) refl, refl, refl)

-- If the setup succeeds and the flag is first seen in round k, main returns 0, and prints a line for each
-- earlier round whose lookup finds the count. It has given back the object and detached the program, each once, and
-- then detaches the program again.
count_main_detaches_twice :
    (rounds : ℕ → CountRound) (fuel k : ℕ) (a : CountCalls)
    → Attached a
    → nonneg a.map_fd ≡ true
    → ((j : ℕ) → j < k → (rounds j).exiting ≡ false)
    → (rounds k).exiting ≡ true
    → k < fuel
    → (p : Process) × (main rounds fuel a ≡ some (0, detach p, lines_of rounds k 0))
      × (outstanding 0 p.calls ≡ some false)
      × (outstanding 1 p.calls ≡ some false)
      × (outstanding 1 (detach p).calls ≡ none)
unfolding main conclude close cleanup_xdp release attached_process
count_main_detaches_twice rounds fuel k a (index, opens, loaded, program, fd, attached) mapped on
      off lt =
    let start : 0 + k ≡ k = omega arith in
    let looped : poll_counts rounds fuel 0 ≡ some (lines_of rounds k 0) =
      poll_counts_lem rounds k fuel 0 (λ j le below. on j (omega arith)) (rw start off) lt in
    (
      release 0 (detach attached_process),
      rw (setup-Attached a (index, opens, loaded, program, fd, attached), mapped, index, fd, looped)
          refl,
      refl,
      refl,
      refl,
    )

pub count_main_detaches :
    (rounds : ℕ → CountRound) (fuel k : ℕ) (a : CountCalls)
    → Attached a
    → ((j : ℕ) → j < k → (rounds j).exiting ≡ false)
    → (rounds k).exiting ≡ true
    → k < fuel
    → (p : Process) × (main rounds fuel a
        ≡ some (0, p, if nonneg a.map_fd then lines_of rounds k 0 else []))
      × (outstanding 0 p.calls ≡ some false)
      × (outstanding 1 p.calls ≡ (if nonneg a.map_fd then none else some true))
count_main_detaches rounds fuel k a attached on off lt = elim (Bool-cases (nonneg a.map_fd)) [
  | inl mapped ↦
      let (p, e, closed, once, twice) =
        count_main_detaches_twice rounds fuel k a attached mapped on off lt in
      rw mapped (detach p, e, closed, twice)
  | inr unmapped ↦ rw unmapped (count_main_unmapped rounds fuel a attached unmapped)
]
