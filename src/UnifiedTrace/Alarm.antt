-- ===== src/UnifiedTrace/Alarm.antt =====
-- src/user/unified_trace.c: sig_handler, and the call of alarm in main. Whether the signal of alarm has been delivered
-- some seconds after the call is a parameter, with what the manual of alarm says.
use local_ai_perf_analysis.Prelude.{
  ℕ, zero, suc, ◌≤◌, ◌<◌, ℤ, Bool, true, false, ◌||◌, List, Option, none, some, ◌≡◌, ◌≢◌, refl, ap,
  ◌∙◌, arith, Bytes, inl, if◌then◌else◌,
}
use local_ai_perf_analysis.Collector.{UnifiedEvent, Collected, nothing_yet}
use local_ai_perf_analysis.Collector.Qsort.{Qsort}
use local_ai_perf_analysis.Printf.{FloatPrint}
use local_ai_perf_analysis.Options.{Options, default_options, parse_args, choose_library, word32}
use local_ai_perf_analysis.Process.{Process, new_process, Flow, go_on, cleanup, return, interrupted}
use local_ai_perf_analysis.Process.Tracking.{IsClean}
use local_ai_perf_analysis.Process.Ready.{flow_if}
use local_ai_perf_analysis.UnifiedTrace.{PollRound, poll_both, UnifiedCalls, setup, conclude, main}
use local_ai_perf_analysis.UnifiedTrace.Setup.{ready, setup-Needs}
use local_ai_perf_analysis.UnifiedTrace.Runs.{main-conclude, unified_main_returns}

-- alarm(s): no signal for 0, and otherwise one as soon as s seconds have passed.
pub record Alarm : Type 0 where
  pub delivered : ℕ → ℕ → Bool
  pub never : (t : ℕ) → delivered 0 t ≡ false
  pub after : (s t : ℕ) → s ≢ 0 → s ≤ t → delivered s t ≡ true
  pub before : (s t : ℕ) → t < s → delivered s t ≡ false

-- What the handler makes of the flag.
abbrev pub sig_handler : Bool → Bool
sig_handler exiting = true

-- The seconds since the call of alarm at the test of each round, and whether SIGINT or SIGTERM has been delivered by then.
pub record Clock : Type 0 where
  pub now : ℕ → ℕ
  pub killed : ℕ → Bool

module _ (al : Alarm) (o : Options) (c : Clock) where
  -- The flag at the test of round i.
  unfoldable pub exiting_at : ℕ → Bool
  exiting_at i =
      if c.killed i || al.delivered (word32 o.duration) (c.now i) then sig_handler false else false

  -- The rounds with that flag.
  abbrev pub with_signals : (ℕ → PollRound) → ℕ → PollRound
  with_signals rounds i = record (rounds i) { exiting = exiting_at i }

module _ (atoi : Bytes → ℤ) (q : Qsort UnifiedEvent) (P : FloatPrint) (al : Alarm) where
  -- If the arguments of unified_trace are understood and the duration, as the unsigned number that alarm is
  -- given, is not 0, then main returns as soon as a round of the loop starts that many seconds after the call
  -- of alarm, whatever else happens, and it has given back all that it took, each thing once.
  pub unified_main-after :
      (rounds : ℕ → PollRound) (c : Clock) (fuel k : ℕ) (args : List Bytes) (a : UnifiedCalls)
      (o : Options)
      → parse_args atoi args default_options ≡ some o
      → word32 o.duration ≢ 0
      → word32 o.duration ≤ c.now k
      → k < fuel
      → (n : ℕ) × (p : Process) × (f : Option Bytes) × (main atoi q P args a
            (with_signals al o c rounds)
            fuel
          ≡ some (n, p, f))
        × IsClean p
  unfolding exiting_at
  unified_main-after rounds c fuel k args a o parsed set late lt =
      unified_main_returns atoi q P (with_signals al o c rounds) fuel k args a
        (inl (rw (al.after (word32 o.duration) (c.now k) set late) (ground arith))) lt

  never_ends :
      (rounds : ℕ → PollRound) (c : Clock) (o : Options)
      → word32 o.duration ≡ 0
      → ((j : ℕ) → c.killed j ≡ false)
      → ((j : ℕ) → interrupted (rounds j).cpu_polled ≡ false)
      → ((j : ℕ) → interrupted (rounds j).gpu_polled ≡ false)
      → (fuel i : ℕ) (d : Collected) → poll_both (with_signals al o c rounds) fuel i d ≡ none
  unfolding poll_both exiting_at
  never_ends rounds c o off alive calm still zero i d = refl
  never_ends rounds c o off alive calm still (suc fuel) i d =
      rw (poll_both, alive i, off, al.never (c.now i), calm i, still i)
        (never_ends rounds c o off alive calm still fuel (suc i) _)

  conclude-none :
      (o : Options) (a : UnifiedCalls) (r : Flow × Process)
      → r.0 ≡ go_on
      → conclude atoi q P o a none r ≡ none
  unfolding conclude
  conclude-none o a (go_on, p) h = refl
  conclude-none o a (cleanup, p) h = absurd (cc h)
  conclude-none o a (return n, p) h = absurd (cc h)

  -- If the arguments of unified_trace are understood and a library is found, every call succeeds without which
  -- nothing is traced, the duration is 0 for alarm, no other signal arrives and none interrupts a poll, then
  -- main does not return within any number of rounds.
  pub unified_main_endless :
      (rounds : ℕ → PollRound) (c : Clock) (fuel : ℕ) (args : List Bytes) (a : UnifiedCalls)
      (o : Options) (path : Bytes)
      → parse_args atoi args default_options ≡ some o
      → choose_library a.access o ≡ some path
      → ready a ≡ true
      → word32 o.duration ≡ 0
      → ((j : ℕ) → c.killed j ≡ false)
      → ((j : ℕ) → interrupted (rounds j).cpu_polled ≡ false)
      → ((j : ℕ) → interrupted (rounds j).gpu_polled ≡ false)
      → main atoi q P args a (with_signals al o c rounds) fuel ≡ none
  unified_main_endless rounds c fuel args a o path parsed found works off alive calm still =
      main-conclude atoi q P (with_signals al o c rounds) fuel args a parsed found
      ∙ ap (λ d. conclude atoi q P o a d (setup o a new_process))
          (never_ends rounds c o off alive calm still fuel 0 nothing_yet)
      ∙ conclude-none o a (setup o a new_process)
          ((setup-Needs o a).flows new_process ∙ ap flow_if works)
