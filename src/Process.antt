-- ===== src/Process.antt =====
-- How the command-line tools of src/user run: steps that may `goto cleanup` or return, the resources that
-- the libraries hand out and take back, and the polling loop of trace_cuda.c and trace_exec.c.
-- A resource is known by the variable that holds its pointer, a number. What libbpf returns is an
-- argument. Its destructors do nothing for NULL and for the pointer of a failed call, as documented.
pub mod Tracking
pub mod Returns
pub mod Polling
pub mod Ready
pub mod Ring
use mathlib.Core.Option
use local_ai_perf_analysis.Prelude.{
  ℕ, zero, suc, ℤ, pos, negsuc, Bool, true, false, List, [], ◌∷◌, ◌++◌, Bytes, Option, none, some,
  ◌==◌, if◌then◌else◌, nonneg, length,
}

-- A resource that is handed out, or given back.
pub data LibCall : Type 0 where
  got freed : ℕ → LibCall

-- The variables: which of them hold a pointer, the calls so far (the last one first), and `err`.
pub record Process : Type 0 where
  pub held : ℕ → Bool
  pub calls : List LibCall
  pub err : ℤ

abbrev pub new_process : Process
new_process = record { held = λ s. false; calls = []; err = pos 0 }

-- How a step ends: the next one follows, or `goto cleanup`, or main returns.
pub data Flow : Type 0 where
  go_on cleanup : Flow
  return : ℕ → Flow

abbrev pub Step : Type 0
Step = Process → Flow × Process

abbrev pub and_then : Flow × Process → Step → Flow × Process
and_then (go_on, p) k = k p
and_then (cleanup, p) k = (cleanup, p)
and_then (return n, p) k = (return n, p)

infixr 5 ◌>>◌
abbrev pub ◌>>◌ : Step → Step → Step
m >> k = λ p. and_then (m p) k

abbrev pub set_held : (ℕ → Bool) → ℕ → Bool → ℕ → Bool
set_held f s b i = if i == s then b else f i

abbrev pub take_hold : ℕ → Process → Process
take_hold s p = record p { held = set_held p.held s true; calls = got s ∷ p.calls }

-- A call that may fail, with the exit taken if it does.
unfoldable pub acquire : ℕ → Bool → Flow → Step
acquire s works otherwise p = if works then (go_on, take_hold s p) else (otherwise, p)

-- One resource for each entry of a list, in consecutive variables.
unfoldable pub acquire_each : {A : Type 0} → ℕ → List A → Step
unfolding acquire
acquire_each s [] p = (go_on, p)
acquire_each s (a ∷ l) p = acquire_each (suc s) l (take_hold s p)

-- A condition without which the tool goes on to `exit`.
unfoldable pub require : Bool → Flow → Step
require holds otherwise p = (if holds then go_on else otherwise, p)

-- `err = e; if (err) goto cleanup;`
unfoldable pub checked : ℤ → Step
checked e p = (
  elim e [ pos n ↦ if n == 0 then go_on else cleanup | negsuc n ↦ cleanup ],
  record p { err = e },
)

-- A destructor. The variable keeps its pointer: a second destructor gives the resource back again.
unfoldable pub release : ℕ → Process → Process
release s p = if p.held s then record p { calls = freed s ∷ p.calls } else p

-- `s = NULL;`
abbrev pub forget : ℕ → Process → Process
forget s p = record p { held = set_held p.held s false }

-- A destructor for each of n consecutive variables.
unfoldable pub release_range : ℕ → ℕ → Process → Process
unfolding release
release_range s zero p = p
release_range s (suc n) p = release_range (suc s) n (release s p)

-- A sequence of destructors.
unfoldable pub release_all : List ℕ → Process → Process
unfolding release
release_all [] p = p
release_all (s ∷ l) p = release_all l (release s p)

-- One round of a polling loop: the flag that the signal handler sets, as the test of the loop sees it,
-- and, if the round gets that far, the events for which ring_buffer__poll calls the callback, and whether it
-- fails, n with the code -(n + 1). A batch has fewer than 2^31 events.
pub record Round (E : Type 0) : Type 0 where
  pub exiting : Bool
  pub batch : List E
  pub error : Option ℕ

-- What ring_buffer__poll returns: the code of the failure, or the number of events.
abbrev pub poll_result : {E : Type 0} → Option ℕ → List E → ℤ
poll_result none batch = pos (length batch)
poll_result (some n) batch = negsuc n

abbrev pub polled : {E : Type 0} → Round E → ℤ
polled r = poll_result r.error r.batch

-- -EINTR
abbrev pub interrupted : ℤ → Bool
interrupted (pos n) = false
interrupted (negsuc n) = n == 3

-- What the callback prints for a list of events.
unfoldable pub print_each : {E : Type 0} → (E → Bytes) → List E → Bytes
print_each handle_event [] = []
print_each handle_event (e ∷ l) = handle_event e ++ print_each handle_event l

module _ {E : Type 0} (handle_event : E → Bytes) (rounds : ℕ → Round E) where
  -- The loop from round i on, with `err` so far: the `err` that it ends with, and what is printed; `none` if the
  -- fuel is too small for the rounds.
  unfoldable pub poll_loop : ℕ → ℕ → ℤ → Option (ℤ × Bytes)
  poll_loop zero i err = none
  poll_loop (suc fuel) i err = elim (rounds i).exiting [
    | true ↦ some (err, [])
    | false ↦ elim (interrupted (polled (rounds i))) [
      | true ↦ some (pos 0, print_each handle_event (rounds i).batch)
      | false ↦ elim (nonneg (polled (rounds i))) [
        | false ↦ some (polled (rounds i), print_each handle_event (rounds i).batch)
        | true ↦
            Option.map (λ r. (r.0, print_each handle_event (rounds i).batch ++ r.1))
              (poll_loop fuel (suc i) (polled (rounds i)))
      ]
    ]
  ]

-- The test `!e`.
abbrev pub is_zero : ℤ → Bool
is_zero (pos n) = n == 0
is_zero (negsuc n) = false

-- `return err != 0;`
abbrev pub failed : ℤ → ℕ
failed (pos n) = if n == 0 then 0 else 1
failed (negsuc n) = 1

-- The exit status, the last state, and what is printed from the heading on.
abbrev pub Outcome : Type 0
Outcome = ℕ × Process × Bytes

-- The end of a main, behind its setup: the heading and the loop if they are reached, the label `cleanup`, the status.
unfoldable pub finish :
    Bytes → (ℤ → Option (ℤ × Bytes)) → (Process → Process) → Flow × Process → Option Outcome
finish heading loop close (go_on, p) =
    Option.map (λ r. (failed r.0, close (record p { err = r.0 }), heading ++ r.1)) (loop p.err)
finish heading loop close (cleanup, p) = some (failed p.err, close p, [])
finish heading loop close (return n, p) = some (n, p, [])
