-- ===== src/Process/Ready.antt =====
-- Setups that go on exactly if certain calls succeed, and go to the cleanup otherwise.
use local_ai_perf_analysis.Prelude.{
  ℕ, zero, suc, ℤ, pos, negsuc, Bool, true, false, List, [], ◌∷◌, ◌≡◌, refl, arith, ◌&&◌,
}
use local_ai_perf_analysis.Process.{
  Process, Flow, go_on, cleanup, return, Step, and_then, ◌>>◌, take_hold, acquire, acquire_each,
  require, checked, is_zero,
}

abbrev pub flow_if : Bool → Flow
flow_if true = go_on
flow_if false = cleanup

pub record Needs (b : Bool) (m : Step) : Type 0 where
  pub flows : (p : Process) → (m p).0 ≡ flow_if b

pub >>-Needs : {b c : Bool} {m n : Step} → Needs b m → Needs c n → Needs (b && c) (m >> n)
>>-Needs {b} {c} {m} {n} x y = record { flows = λ p. go b (m p) (x.flows p) }
  where
    go : (b : Bool) (r : Flow × Process) → r.0 ≡ flow_if b → (and_then r n).0 ≡ flow_if (b && c)
    go true (go_on, p) h = y.flows p
    go true (cleanup, p) h = absurd (cc h)
    go true (return i, p) h = absurd (cc h)
    go false (go_on, p) h = absurd (cc h)
    go false (cleanup, p) h = refl
    go false (return i, p) h = absurd (cc h)

pub acquire-Needs : (s : ℕ) (works : Bool) → Needs works (acquire s works cleanup)
unfolding acquire
acquire-Needs s true = record { flows = λ p. refl }
acquire-Needs s false = record { flows = λ p. refl }

-- A call whose failure is a warning.
pub optional-Needs : (s : ℕ) (works : Bool) → Needs true (acquire s works go_on)
unfolding acquire
optional-Needs s true = record { flows = λ p. refl }
optional-Needs s false = record { flows = λ p. refl }

pub acquire_each-Needs : {A : Type 0} (s : ℕ) (l : List A) → Needs true (acquire_each s l)
unfolding acquire_each
acquire_each-Needs s [] = record { flows = λ p. refl }
acquire_each-Needs s (a ∷ l) = record {
  flows = λ p. (acquire_each-Needs (suc s) l).flows (take_hold s p);
}

pub require-Needs : (holds : Bool) → Needs holds (require holds cleanup)
unfolding require
require-Needs true = record { flows = λ p. refl }
require-Needs false = record { flows = λ p. refl }

pub checked-Needs : (e : ℤ) → Needs (is_zero e) (checked e)
unfolding checked
checked-Needs (pos zero) = record { flows = λ p. refl }
checked-Needs (pos (suc n)) = record { flows = λ p. ground arith }
checked-Needs (negsuc n) = record { flows = λ p. refl }
