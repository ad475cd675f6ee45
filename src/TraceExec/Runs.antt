-- ===== src/TraceExec/Runs.antt =====
-- src/user/trace_exec.c, main: its exit status, its end, and the resources that it takes and gives back.
use mathlib.Core.Option
use local_ai_perf_analysis.Prelude.{
  ◌∙◌, null, nonneg, if◌then◌else◌, none, List, ℕ, suc, pos, true, false, [], ◌∷◌, Option, some, ap,
  Bytes, ◌≡◌, ◌≤◌, ◌<◌, refl, arith, ◌&&◌,
}
use local_ai_perf_analysis.Events.{ExecEvent}
use local_ai_perf_analysis.Process.{
  Process, new_process, go_on, cleanup, return, acquire, require, checked, Round, poll_result,
  poll_loop, finish, failed, Outcome,
}
use local_ai_perf_analysis.Process.Tracking.{
  IsClean, Advances, Closes, >>-Advances, acquire-Advances, require-Advances, checked-Advances,
  release_all-Frees, Frees-Closes,
}
use local_ai_perf_analysis.Process.Returns.{
  ReturnsClean, finish_returns, finish-go_on, first-ReturnsClean, >>-Stays, acquire-Stays,
  require-Stays, checked-Stays,
}
use local_ai_perf_analysis.Process.Polling.{Ends, GoesOn, poll_loop-Ends, poll_loop_flag}
use local_ai_perf_analysis.TraceExec.{handle_event, ExecCalls, heading, setup, close, main}

setup-Advances : (a : ExecCalls) → Advances 0 3 (setup a)
unfolding setup
setup-Advances a = >>-Advances (acquire-Advances 0 0 a.opens (return 1) (omega arith)) (
    >>-Advances (checked-Advances 1 a.loaded) (
      >>-Advances (require-Advances 1 a.has_program cleanup) (
        >>-Advances (acquire-Advances 1 1 a.attaches cleanup (omega arith)) (
          >>-Advances (require-Advances 2 a.has_map cleanup)
            (acquire-Advances 2 2 a.makes_ring cleanup (omega arith))))))

close-Closes : Closes 3 close
unfolding close
close-Closes = Frees-Closes (λ s. ground arith) (release_all-Frees (2 ∷ 1 ∷ 0 ∷ []) refl)

setup-ReturnsClean : (a : ExecCalls) → ReturnsClean (setup a new_process)
unfolding setup
setup-ReturnsClean a = first-ReturnsClean 0 1 a.opens (
    >>-Stays (checked-Stays a.loaded) (
      >>-Stays (require-Stays a.has_program) (
        >>-Stays (acquire-Stays 1 a.attaches)
          (>>-Stays (require-Stays a.has_map) (acquire-Stays 2 a.makes_ring)))))

-- However its calls turn out, if a round of the polling loop ends it, by the signal or by an error,
-- main returns, and it has given back everything that it was handed, each thing once.
pub exec_main_returns :
    (rounds : ℕ → Round ExecEvent) (fuel k : ℕ) (a : ExecCalls)
    → Ends (rounds k)
    → k < fuel
    → (n : ℕ) × (p : Process) × (out : Bytes) × (main rounds fuel a ≡ some (n, p, out)) × IsClean p
unfolding main
exec_main_returns rounds fuel k a h lt =
    finish_returns heading (poll_loop handle_event rounds fuel 0) (setup-Advances a) close-Closes
      (setup-ReturnsClean a)
      (λ err. poll_loop-Ends handle_event rounds fuel 0 k err h (omega arith) (omega arith))

-- The exit status.
abbrev pub status_of : Option Outcome → Option ℕ
status_of = Option.map (λ r. r.0)

-- If the object is loaded and a later call of the setup fails, nothing is traced and the exit status is 0.
pub exec_main_unattached :
    (rounds : ℕ → Round ExecEvent) (fuel : ℕ) (a : ExecCalls)
    → a.opens ≡ true
    → a.loaded ≡ pos 0
    → (a.has_program && (a.attaches && (a.has_map && a.makes_ring))) ≡ false
    → status_of (main rounds fuel a) ≡ some 0
unfolding main setup acquire require checked finish
exec_main_unattached rounds fuel a opens loaded misses = rw (opens, loaded) (ground arith)

-- Every call of the setup succeeds.
abbrev pub SetUp : ExecCalls → Type 0
SetUp a =
    (a.opens ≡ true)
    × (a.loaded ≡ pos 0)
    × (a.has_program ≡ true)
    × (a.attaches ≡ true)
    × (a.has_map ≡ true)
    × (a.makes_ring ≡ true)

pub setup_done :
    (a : ExecCalls)
    → SetUp a
    → ((setup a new_process).0 ≡ go_on) × ((setup a new_process).1.err ≡ pos 0)
unfolding setup acquire require checked
setup_done a (opens, loaded, program, attached, map, ring) =
    rw (opens, loaded, program, attached, map, ring) (refl, refl)

-- The number of events in err fails the test if there are any.
failed-poll_result :
    (error : Option ℕ) (batch : List ExecEvent)
    → nonneg (poll_result error batch) ≡ true
    → failed (poll_result error batch) ≡ (if null batch then 0 else 1)
failed-poll_result none [] h = refl
failed-poll_result none (e ∷ batch) h = ground arith
failed-poll_result (some n) batch h = absurd (cc h)

-- If every call of the setup of trace_exec succeeds, no poll fails up to some round, and the flag is set at
-- the test of the next, the exit status is 1 if the poll of that round delivered events and 0 if not.
pub exec_main_signalled :
    (rounds : ℕ → Round ExecEvent) (fuel last : ℕ) (a : ExecCalls)
    → SetUp a
    → ((j : ℕ) → j ≤ last → GoesOn (rounds j))
    → (rounds (suc last)).exiting ≡ true
    → suc last < fuel
    → status_of (main rounds fuel a) ≡ some (if null (rounds last).batch then 0 else 1)
unfolding main
exec_main_signalled rounds fuel last a set on off lt =
    let (through, zero_err) = setup_done a set in
    let (out, ended) =
      poll_loop_flag handle_event rounds last fuel 0 last _ (omega arith) (λ j le. on j) off lt in
    let (p, e) =
      finish-go_on heading (poll_loop handle_event rounds fuel 0) close (setup a new_process)
        through ended in
    ap status_of e
    ∙ ap some (failed-poll_result (rounds last).error (rounds last).batch (on last (omega arith)).1)
