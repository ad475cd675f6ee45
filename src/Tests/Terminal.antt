-- ===== src/Tests/Terminal.antt =====
-- trace_exec on three execves, and trace_cuda on a copy, from the BPF programs to the terminal.
use local_ai_perf_analysis.Prelude.{
  none, map, ℕ, ◌==◌, ◌+◌, ◌*◌, ◌^◌, ◌<◌, Bool, true, false, List, [], ◌∷◌, ◌++◌, ◌≡◌, refl, arith,
  some, Bytes, codes, inl, if◌then◌else◌, All,
}
use local_ai_perf_analysis.Events.{CudaEvent, memcpy_async}
use local_ai_perf_analysis.BpfMap.Bounded.{find, remove, has, fits, put}
use local_ai_perf_analysis.Printf.{show_dec, show_int, pad_right, repeat, digit, digits}
use local_ai_perf_analysis.Printf.Decimal.{show_dec-IsPlain}
use local_ai_perf_analysis.Printf.Plain.{IsLine}
use local_ai_perf_analysis.Exec.{ExecAnswers}
use local_ai_perf_analysis.Cuda.{
  record_entry, submit_event, event_of, maybe_capture_stack, sample_period, default_cfg,
}
use local_ai_perf_analysis.Cuda.Probes.{Fire, enter, leave, fire, run, entry_probe, return_probe}
use local_ai_perf_analysis.Cuda.Pairing.{call_event}
use local_ai_perf_analysis.Attach.{contains}
use local_ai_perf_analysis.Process.{Process, print_each}
use local_ai_perf_analysis.Process.Ring.{state_behind, Turn, fired, fire_each, state_at, rounds_of}
use local_ai_perf_analysis.TraceExec
use local_ai_perf_analysis.TraceExec.{heading}
use local_ai_perf_analysis.TraceExec.Execves.{
  exec_ring, execve_event, with_room, execve_line, IsOrdinary, exec_rounds, exec_main-execve_line,
}
use local_ai_perf_analysis.Console.{handle_event}
use local_ai_perf_analysis.Console.Main
use local_ai_perf_analysis.Console.Main.{library_of, attach_links, cuda_funcs}
use local_ai_perf_analysis.Console.Delivery.{cuda_ring, SetUp, cuda_rounds}
use local_ai_perf_analysis.Console.Calls.{cuda_main-handle_event, cuda_main-call_event}
use local_ai_perf_analysis.Tests.Output.{agent-IsPlain, cut_print}
use local_ai_perf_analysis.Tests.Cuda.{calls_map, empty_kernel, copy_start, copy_end, elsewhere}
use local_ai_perf_analysis.Tests.Tools.{exec_calls, cuda_calls}

abbrev execve : ℕ → Bool → ExecAnswers
execve pid room = record {
  pid_tgid = pid * 2 ^ 32 + pid;
  uid_gid = 100 * 2 ^ 32 + 4294967294;
  current_comm = codes "agent";
  room = room;
}

-- Two execves before the first poll, the second of them without room, and one before the second poll; then the flag.
abbrev execves : ℕ → Turn ExecAnswers
execves i = record {
  exiting = i == 2;
  before = if i == 0 then execve 77 true ∷ execve 78 false ∷ [] else execve 79 true ∷ [];
  taken = 1;
  error = none;
}

execve-IsOrdinary : (pid : ℕ) {room : Bool} → pid < 2 ^ 30 → IsOrdinary (execve pid room)
execve-IsOrdinary pid h = record { pid_fits = omega arith; name = agent-IsPlain }

exec_main-execve_line_example :
    (n : ℕ) × (p : Process) × (printed left : List ExecAnswers) × (TraceExec.main
        (exec_rounds execves)
        5
        exec_calls
      ≡ some (n, p, heading ++ print_each execve_line printed))
    × (with_room (fired execves 2 0) ≡ printed ++ left)
    × (state_behind exec_ring execves [] 2 ≡ map execve_event left)
    × All (λ an. IsLine (execve_line an)) printed
unfolding rounds_of
exec_main-execve_line_example =
    exec_main-execve_line execves 5 2 exec_calls (refl, refl, refl, refl, refl, refl)
      (λ j lt. (ground arith, refl)) (inl refl) (omega arith)
      (
        execve-IsOrdinary 77 (omega arith),
        (execve-IsOrdinary 78 (omega arith), (execve-IsOrdinary 79 (omega arith), tt)),
      )

-- The user id is printed as -2.
one_line :
    execve_line (execve 77 true)
    ≡ codes "PID: 77      UID: -2      COMM: agent            FILENAME: \n"
unfolding pad_right repeat show_int show_dec digits digit
one_line = refl

-- The copy and a call of another thread, then the flag.
abbrev copying : ℕ → Turn Fire
copying i = record {
  exiting = i == 1;
  before = enter memcpy_async copy_start ∷ (elsewhere ++ leave memcpy_async copy_end ∷ []);
  taken = 2;
  error = none;
}

cuda_calls-SetUp : SetUp cuda_calls
unfolding library_of attach_links cuda_funcs
cuda_calls-SetUp = record { found = refl; opens = refl; ready = refl }

cuda_main-handle_event_example :
    (n : ℕ) × (p : Process) × (printed : List CudaEvent) × (Main.main cut_print show_dec
        (cuda_rounds cut_print show_dec calls_map copying empty_kernel)
        5
        cuda_calls
      ≡ some (n, p, Main.heading ++ print_each (handle_event cut_print show_dec) printed))
    × (printed ++ (state_behind (cuda_ring calls_map) copying empty_kernel 1).cuda_events
        ≡ (run calls_map default_cfg (fired copying 1 0) empty_kernel).cuda_events)
    × All (λ g. IsLine (handle_event cut_print show_dec g)) printed
unfolding rounds_of state_at run fire entry_probe return_probe record_entry submit_event
    maybe_capture_stack sample_period event_of find put remove has fits
cuda_main-handle_event_example =
    cuda_main-handle_event cut_print show_dec calls_map copying empty_kernel 5 1 cuda_calls
      cuda_calls-SetUp (λ j lt. (ground arith, refl)) (inl refl) (omega arith) show_dec-IsPlain
      (agent-IsPlain, (agent-IsPlain, tt))

cuda_main-call_event_example :
    (n : ℕ) × (p : Process) × (out : Bytes) × (Main.main cut_print show_dec
        (cuda_rounds cut_print show_dec calls_map copying empty_kernel)
        5
        cuda_calls
      ≡ some (n, p, out))
    × (contains
          (handle_event cut_print show_dec
            (call_event default_cfg memcpy_async copy_start copy_end (λ cpu. 0)))
          out
        ≡ true)
unfolding rounds_of state_at fire_each run fire entry_probe return_probe record_entry submit_event
    maybe_capture_stack sample_period event_of find put remove has fits
cuda_main-call_event_example =
    cuda_main-call_event cut_print show_dec calls_map copying empty_kernel 5 1 cuda_calls []
      elsewhere [] memcpy_async copy_start copy_end cuda_calls-SetUp (λ j lt. (ground arith, refl))
      (inl refl) (omega arith) refl refl ((λ e. omega arith), ((λ e. omega arith), tt)) refl refl
      (omega arith) (omega arith) (omega arith)
