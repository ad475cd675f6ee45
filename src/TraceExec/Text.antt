-- ===== src/TraceExec/Text.antt =====
-- src/bpf/trace_exec.bpf.c and src/user/trace_exec.c together: what is printed for an execve.
use local_ai_perf_analysis.Prelude.{
  ℕ, ◌+◌, ◌*◌, ◌/◌, ◌%◌, ◌^◌, ◌<◌, pos, true, List, [], ◌∷◌, ◌++◌, ◌≡◌, refl, Bytes, codes, All,
  arith, signed32,
}
use local_ai_perf_analysis.Events.{ExecEvent}
use local_ai_perf_analysis.Json.Runs.{IsPlain}
use local_ai_perf_analysis.Printf.{show_int, show_dec, pad_right}
use local_ai_perf_analysis.Printf.Plain.{
  show_int-PlainText, pad_right-PlainText, IsLine, newline-IsLine, append-IsLine,
}
use local_ai_perf_analysis.Exec.{trace_execve}
use local_ai_perf_analysis.TraceExec.{handle_event}

pub exec_handle_event-IsLine :
    (e : ExecEvent) → All IsPlain e.comm → All IsPlain e.filename → IsLine (handle_event e)
unfolding handle_event
exec_handle_event-IsLine e comm filename = append-IsLine {x = codes "PID: "} (omega arith) (
    append-IsLine (pad_right-PlainText 7 _ (show_int-PlainText (signed32 e.pid))) (
      append-IsLine {x = codes " UID: "} (omega arith) (
        append-IsLine (pad_right-PlainText 7 _ (show_int-PlainText (signed32 e.uid))) (
          append-IsLine {x = codes " COMM: "} (omega arith) (
            append-IsLine (pad_right-PlainText 16 e.comm (record { plain = comm })) (
              append-IsLine {x = codes " FILENAME: "} (omega arith)
                (append-IsLine {x = e.filename} (record { plain = filename }) newline-IsLine)))))))

upper_half :
    (high low : ℕ) → high < 2 ^ 31 → low < 2 ^ 32 → (high * 2 ^ 32 + low) / 2 ^ 32 % 2 ^ 32 ≡ high
upper_half high low h k = omega arith

lower_half : (high low : ℕ) → low < 2 ^ 32 → (high * 2 ^ 32 + low) % 2 ^ 32 ≡ low
lower_half high low h = omega arith

pub signed32_small : (n : ℕ) → n < 2 ^ 31 → signed32 n ≡ pos n
signed32_small n h = ground arith

-- With room in the ring buffer, an execve by a process whose id is below 2^31 and whose command name holds no
-- quote, no backslash and no control character submits one event, and trace_exec prints one line for it: the
-- id of the process (not that of the thread), the user id as a signed number, the command name, and no file
-- name.
pub trace_execve-handle_event :
    (tgid tid gid uid : ℕ) (comm : Bytes) (ring : List ExecEvent)
    → tgid < 2 ^ 31
    → tid < 2 ^ 32
    → uid < 2 ^ 32
    → All IsPlain comm
    → (e : ExecEvent) × (trace_execve
          (record {
            pid_tgid = tgid * 2 ^ 32 + tid;
            uid_gid = gid * 2 ^ 32 + uid;
            current_comm = comm;
            room = true;
          })
          ring
        ≡ ring ++ e ∷ [])
      × IsLine (handle_event e)
      × (handle_event e
          ≡ codes "PID: "
            ++ (pad_right 7 (show_dec tgid)
                ++ (codes " UID: "
                    ++ (pad_right 7 (show_int (signed32 uid))
                        ++ (codes " COMM: " ++ (pad_right 16 comm ++ codes " FILENAME: \n"))))))
unfolding trace_execve handle_event show_int
trace_execve-handle_event tgid tid gid uid comm ring h k m clean =
    let e : ExecEvent = record { pid = tgid; ppid = 0; uid = uid; comm = comm; filename = [] } in
    (
      e,
      rw (upper_half tgid tid h k, lower_half gid uid m) refl,
      exec_handle_event-IsLine e clean tt,
      rw (signed32_small tgid h) refl,
    )
