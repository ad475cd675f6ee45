-- ===== src/TraceExec/Execves.antt =====
-- src/bpf/trace_exec.bpf.c and src/user/trace_exec.c, main, together: the execves that reach the terminal.
use local_ai_perf_analysis.Prelude.{
  ℕ, ◌+◌, ◌/◌, ◌%◌, ◌^◌, ◌<◌, Bool, true, false, List, [], ◌∷◌, ◌++◌, append-nil, append_assoc, map,
  some, ◌≡◌, refl, sym, ap, ap₂, ◌∙◌, arith, Bytes, codes, All, All-front, subst, signed32,
  if◌then◌else◌, Bool-cases, inl, inr,
}
use local_ai_perf_analysis.Events.{ExecEvent}
use local_ai_perf_analysis.Json.Runs.{IsPlain}
use local_ai_perf_analysis.Printf.{show_int, show_dec, pad_right}
use local_ai_perf_analysis.Printf.Plain.{IsLine}
use local_ai_perf_analysis.Exec.{ExecAnswers, trace_execve}
use local_ai_perf_analysis.Process.{Process, new_process, Round, print_each, poll_loop, failed}
use local_ai_perf_analysis.Process.Returns.{finish-go_on}
use local_ai_perf_analysis.Process.Polling.{GoesOn, Ends, delivered, poll_loop-delivered}
use local_ai_perf_analysis.Process.Ring.{
  Producer, Turn, fired, fire_each, rounds_of, state_behind, pending-fired,
}
use local_ai_perf_analysis.TraceExec.{handle_event, ExecCalls, heading, setup, close, main}
use local_ai_perf_analysis.TraceExec.Text.{signed32_small, exec_handle_event-IsLine}
use local_ai_perf_analysis.TraceExec.Runs.{SetUp, setup_done}

-- The execves whose reservation succeeds.
abbrev pub with_room : List ExecAnswers → List ExecAnswers
with_room [] = []
with_room (an ∷ l) = if an.room then an ∷ with_room l else with_room l

-- The line for an execve: the upper half of pid_tgid, the lower half of uid_gid as a signed number, the command name.
abbrev pub execve_line : ExecAnswers → Bytes
execve_line an =
    codes "PID: "
    ++ (pad_right 7 (show_dec (an.pid_tgid / 2 ^ 32))
        ++ (codes " UID: "
            ++ (pad_right 7 (show_int (signed32 (an.uid_gid % 2 ^ 32)))
                ++ (codes " COMM: " ++ (pad_right 16 an.current_comm ++ codes " FILENAME: \n")))))

-- An id of a process below 2^31, and a command name that is printed as it is.
pub record IsOrdinary (an : ExecAnswers) : Type 0 where
  pub pid_fits : an.pid_tgid < 2 ^ 63
  pub name : All IsPlain an.current_comm

abbrev pub execve_event : ExecAnswers → ExecEvent
execve_event an = record {
  pid = an.pid_tgid / 2 ^ 32 % 2 ^ 32;
  ppid = 0;
  uid = an.uid_gid % 2 ^ 32;
  comm = an.current_comm;
  filename = [];
}

pub trace_execve-append :
    (an : ExecAnswers) (l ring : List ExecEvent)
    → trace_execve an (l ++ ring) ≡ l ++ trace_execve an ring
unfolding trace_execve
trace_execve-append an l ring = elim (Bool-cases an.room) [
  | inl room ↦ simp room (append_assoc l ring (execve_event an ∷ []))
  | inr full ↦ simp full refl
]

-- The BPF program and its ring buffer.
abbrev pub exec_ring : Producer ExecAnswers (List ExecEvent) ExecEvent
exec_ring = record {
  fires = trace_execve;
  pending = λ ring. ring;
  with_pending = λ l ring. l;
  pending-with_pending = λ l ring. refl;
  with_pending_again = λ l m ring. refl;
  with_own = λ ring. refl;
  fires-behind = trace_execve-append;
}

abbrev pub exec_rounds : (ℕ → Turn ExecAnswers) → ℕ → Round ExecEvent
exec_rounds h = rounds_of exec_ring h []

fire_each-exec_ring :
    (l : List ExecAnswers) (ring : List ExecEvent)
    → fire_each exec_ring l ring ≡ ring ++ map execve_event (with_room l)
unfolding fire_each trace_execve
fire_each-exec_ring [] ring = sym (append-nil ring)
fire_each-exec_ring (an ∷ l) ring = elim (Bool-cases an.room) [
  | inl room ↦ simp room (
      fire_each-exec_ring l (ring ++ execve_event an ∷ [])
      ∙ append_assoc ring (execve_event an ∷ []) (map execve_event (with_room l)))
  | inr full ↦ simp full (fire_each-exec_ring l ring)
]

-- What a function makes of a list, cut in two, is what it makes of the two parts of the list.
map_split :
    {A B : Type 0} (f : A → B) (l m : List B) (xs : List A)
    → map f xs ≡ l ++ m
    → (ys : List A) × (zs : List A) × (xs ≡ ys ++ zs) × (l ≡ map f ys) × (m ≡ map f zs)
map_split f [] m xs e = ([], xs, refl, refl, sym e)
map_split f (b ∷ l) m [] e = absurd (cc e)
map_split f (b ∷ l) m (x ∷ xs) e =
    let rest : map f xs ≡ l ++ m = cc in
    let head : b ≡ f x = cc in
    let (ys, zs, split, same, behind) = map_split f l m xs rest in
    (x ∷ ys, zs, ap (◌∷◌ x) split, ap₂ (λ y t. y ∷ t) head same, behind)

with_room-IsOrdinary : (l : List ExecAnswers) → All IsOrdinary l → All IsOrdinary (with_room l)
with_room-IsOrdinary [] h = tt
with_room-IsOrdinary (an ∷ l) (hx, h) = either an.room (with_room l) (with_room-IsOrdinary l h)
  where
    either :
        (b : Bool) (m : List ExecAnswers)
        → All IsOrdinary m
        → All IsOrdinary (if b then an ∷ m else m)
    either true m all = (hx, all)
    either false m all = all

execve_line_lem :
    (an : ExecAnswers) → IsOrdinary an → handle_event (execve_event an) ≡ execve_line an
unfolding handle_event show_int
execve_line_lem an h =
    let fits = h.pid_fits in
    let same : an.pid_tgid / 2 ^ 32 % 2 ^ 32 ≡ an.pid_tgid / 2 ^ 32 = omega arith in
    rw (same, signed32_small (an.pid_tgid / 2 ^ 32) (omega arith)) refl

print_each-execve_line :
    (l : List ExecAnswers)
    → All IsOrdinary l
    → print_each handle_event (map execve_event l) ≡ print_each execve_line l
unfolding print_each
print_each-execve_line [] h = refl
print_each-execve_line (an ∷ l) (hx, h) =
    ap₂ (λ x y. x ++ y) (execve_line_lem an hx) (print_each-execve_line l h)

execve_line-IsLine :
    (l : List ExecAnswers) → All IsOrdinary l → All (λ an. IsLine (execve_line an)) l
execve_line-IsLine [] h = tt
execve_line-IsLine (an ∷ l) (hx, h) = (
  subst IsLine (execve_line_lem an hx) (exec_handle_event-IsLine (execve_event an) hx.name tt),
  execve_line-IsLine l h,
)

-- From the execves to the terminal: if every call of the setup of trace_exec succeeds, round k is the first
-- that ends the polling loop, and every execve is by a process whose id is below 2^31 and whose command name
-- holds no quote, no backslash and no control character, then main prints its heading and one line for each of
-- the first of the execves whose reservation succeeds, in order, the events of the others being still in the
-- ring buffer: the id of the process (not that of the thread), the user id as a signed number, the command
-- name, and no file name.
pub exec_main-execve_line :
    (h : ℕ → Turn ExecAnswers) (fuel k : ℕ) (a : ExecCalls)
    → SetUp a
    → ((j : ℕ) → j < k → GoesOn (exec_rounds h j))
    → Ends (exec_rounds h k)
    → k < fuel
    → All IsOrdinary (fired h k 0)
    → (n : ℕ) × (p : Process) × (printed left : List ExecAnswers) × (main (exec_rounds h) fuel a
        ≡ some (n, p, heading ++ print_each execve_line printed))
      × (with_room (fired h k 0) ≡ printed ++ left)
      × (state_behind exec_ring h [] k ≡ map execve_event left)
      × All (λ an. IsLine (execve_line an)) printed
unfolding main
exec_main-execve_line h fuel k a set on off lt ordinary =
    let rounds = exec_rounds h in
    let events = delivered rounds k 0 in
    let (through, zero_err) = setup_done a set in
    let same : 0 + k ≡ k = omega arith in
    let (err, ended) =
      poll_loop-delivered handle_event rounds k fuel 0 (setup a new_process).1.err
        (λ j le below. on j (omega arith)) (subst (λ j. Ends (rounds j)) (sym same) off) lt in
    let (p, e) =
      finish-go_on heading (poll_loop handle_event rounds fuel 0) close (setup a new_process)
        through ended in
    let (printed, left, split, shown, pending) =
      map_split execve_event events (state_behind exec_ring h [] k) (with_room (fired h k 0))
        (sym (fire_each-exec_ring (fired h k 0) []) ∙ pending-fired exec_ring h [] k) in
    let clean =
      All-front IsOrdinary printed left
        (subst (All IsOrdinary) split (with_room-IsOrdinary (fired h k 0) ordinary)) in
    (
      failed err,
      p,
      printed,
      left,
      e
          ∙ ap (λ x. some (failed err, p, heading ++ x))
              (ap (print_each handle_event) shown ∙ print_each-execve_line printed clean),
      split,
      pending,
      execve_line-IsLine printed clean,
    )
