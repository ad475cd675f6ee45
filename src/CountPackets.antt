-- ===== src/CountPackets.antt =====
-- src/user/count_packets.c: the two globals, cleanup_xdp, and main. What the system returns is a record.
-- The object has the number 0; the number 1 stands for the attachment of the program to the interface,
-- which bpf_xdp_detach gives back. The sleep is left out.
pub mod Runs
pub mod Totals
use mathlib.Core.Option
use local_ai_perf_analysis.Prelude.{
  ℕ, zero, suc, ℤ, pos, negsuc, Bool, true, false, not, ◌&&◌, [], ◌∷◌, ◌++◌, Option, none, some,
  Bytes, codes, nonneg, nonpos, if◌then◌else◌,
}
use local_ai_perf_analysis.Printf.{show_dec}
use local_ai_perf_analysis.Process.{
  Process, new_process, Flow, go_on, cleanup, return, Step, ◌>>◌, freed, acquire, require, checked,
  release, failed, is_zero,
}

pub record Globals : Type 0 where
  pub ifindex_global : ℤ
  pub prog_fd_global : ℤ

abbrev pub no_globals : Globals
no_globals = record { ifindex_global = pos 0; prog_fd_global = negsuc 0 }

-- The call is made whatever is attached.
abbrev pub detach : Process → Process
detach p = record p { calls = freed 1 ∷ p.calls }

unfoldable pub cleanup_xdp : Globals → Process → Process
cleanup_xdp g p = if not (nonpos g.ifindex_global) && nonneg g.prog_fd_global then detach p else p

-- One round of the loop: the flag as the test sees it, and what the lookup finds.
pub record CountRound : Type 0 where
  pub exiting : Bool
  pub lookup : Option ℕ

abbrev pub count_line : Option ℕ → Bytes
count_line none = []
count_line (some count) = codes "Packets: " ++ (show_dec count ++ codes "\n")

-- What the loop prints from round i on; `none` if the fuel is too small.
unfoldable pub poll_counts : (ℕ → CountRound) → ℕ → ℕ → Option Bytes
poll_counts rounds zero i = none
poll_counts rounds (suc fuel) i =
    let rest = poll_counts rounds fuel (suc i) in
    elim (rounds i).exiting [
      | true ↦ some []
      | false ↦ Option.map (λ out. count_line (rounds i).lookup ++ out) rest
    ]

-- What the calls of main return, up to the loop.
pub record CountCalls : Type 0 where
  pub ifindex : ℤ
  pub opens : Bool
  pub loaded : ℤ
  pub has_program : Bool
  pub prog_fd : ℤ
  pub attached : ℤ
  pub map_fd : ℤ

unfoldable pub setup : CountCalls → Step
unfolding acquire require checked
setup a =
    require (not (is_zero a.ifindex)) (return 1)
    >> acquire 0 a.opens (return 1)
    >> checked a.loaded
    >> require a.has_program cleanup
    >> require (nonneg a.prog_fd) cleanup
    >> checked a.attached
    >> acquire 1 true cleanup
    >> require (nonneg a.map_fd) cleanup

-- The label `cleanup`.
unfoldable pub close : Globals → Process → Process
unfolding cleanup_xdp release
close g p = release 0 (cleanup_xdp g p)

-- The exit status, the last state, and what the loop printed.
abbrev pub CountOutcome : Type 0
CountOutcome = ℕ × Process × Bytes

-- The globals are set and cleanup_xdp is registered with atexit once the map is found.
unfoldable pub conclude : CountCalls → Option Bytes → Flow × Process → Option CountOutcome
unfolding cleanup_xdp close
conclude a loop (go_on, p) =
    let g : Globals = record { ifindex_global = a.ifindex; prog_fd_global = a.prog_fd } in
    Option.map (λ out. (failed p.err, cleanup_xdp g (close g p), out)) loop
conclude a loop (cleanup, p) = some (failed p.err, close no_globals p, [])
conclude a loop (return n, p) = some (n, p, [])

unfoldable pub main : (ℕ → CountRound) → ℕ → CountCalls → Option CountOutcome
unfolding setup conclude
main rounds fuel a = conclude a (poll_counts rounds fuel 0) (setup a new_process)
