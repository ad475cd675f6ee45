-- ===== src/TraceExec.antt =====
-- src/user/trace_exec.c: the line that is printed for an execve, and main. What libbpf returns is a
-- record; the variables obj, link and rb have the numbers 0, 1 and 2.
pub mod Runs
pub mod Text
pub mod Execves
use local_ai_perf_analysis.Prelude.{ℕ, ℤ, Bool, [], ◌∷◌, ◌++◌, Option, Bytes, codes, signed32}
use local_ai_perf_analysis.Events.{ExecEvent}
use local_ai_perf_analysis.Printf.{show_int, pad_right}
use local_ai_perf_analysis.Process.{
  Process, new_process, cleanup, return, Step, ◌>>◌, acquire, require, checked, release_all, Round,
  poll_loop, Outcome, finish,
}

unfoldable pub handle_event : ExecEvent → Bytes
unfolding pad_right
handle_event e =
    codes "PID: "
    ++ (pad_right 7 (show_int (signed32 e.pid))
        ++ (codes " UID: "
            ++ (pad_right 7 (show_int (signed32 e.uid))
                ++ (codes " COMM: "
                    ++ (pad_right 16 e.comm
                        ++ (codes " FILENAME: " ++ (e.filename ++ codes "\n")))))))

-- What the calls of main return, up to the loop.
pub record ExecCalls : Type 0 where
  pub opens : Bool
  pub loaded : ℤ
  pub has_program : Bool
  pub attaches : Bool
  pub has_map : Bool
  pub makes_ring : Bool

unfoldable pub setup : ExecCalls → Step
unfolding acquire require checked
setup a =
    acquire 0 a.opens (return 1)
    >> checked a.loaded
    >> require a.has_program cleanup
    >> acquire 1 a.attaches cleanup
    >> require a.has_map cleanup
    >> acquire 2 a.makes_ring cleanup

unfoldable pub close : Process → Process
unfolding release_all
close = release_all (2 ∷ 1 ∷ 0 ∷ [])

-- The heading of the lines.
abbrev pub heading : Bytes
heading =
    codes "Tracing execve() calls... Press Ctrl+C to exit.\n"
    ++ (pad_right 7 (codes "PID")
        ++ (codes " "
            ++ (pad_right 7 (codes "UID")
                ++ (codes " " ++ (pad_right 16 (codes "COMM") ++ codes " FILENAME\n")))))

-- The exit status, the last state and what is printed, if the fuel is enough for the rounds of the loop.
unfoldable pub main : (ℕ → Round ExecEvent) → ℕ → ExecCalls → Option Outcome
unfolding setup close finish poll_loop
main rounds fuel a =
    finish heading (poll_loop handle_event rounds fuel 0) close (setup a new_process)
