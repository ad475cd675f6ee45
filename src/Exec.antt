-- ===== src/Exec.antt =====
-- src/bpf/trace_exec.bpf.c: the handler of sys_enter_execve.
use local_ai_perf_analysis.Prelude.{
  ℕ, Bool, List, [], ◌∷◌, ◌++◌, ◌/◌, ◌%◌, ◌^◌, Bytes, if◌then◌else◌,
}
use local_ai_perf_analysis.Events.{ExecEvent}

-- What the kernel answers: bpf_get_current_pid_tgid, bpf_get_current_uid_gid,
-- bpf_get_current_comm, and whether the reservation succeeds.
pub record ExecAnswers : Type 0 where
  pub pid_tgid : ℕ
  pub uid_gid : ℕ
  pub current_comm : Bytes
  pub room : Bool

-- The ring buffer is the list of the submitted events, oldest first.
unfoldable pub trace_execve : ExecAnswers → List ExecEvent → List ExecEvent
trace_execve an ring =
    let event : ExecEvent = record {
      pid = an.pid_tgid / 2 ^ 32 % 2 ^ 32;
      ppid = 0;
      uid = an.uid_gid % 2 ^ 32;
      comm = an.current_comm;
      filename = [];
    } in
    if an.room then ring ++ event ∷ [] else ring
