-- ===== src/Process/Returns.antt =====
-- Mains behind a setup that accounts for its resources: they return, with everything given back.
use mathlib.Core.Option
use local_ai_perf_analysis.Prelude.{
  ℕ, zero, suc, ℤ, pos, negsuc, Bool, true, false, List, [], ◌∷◌, ◌++◌, Bytes, Option, none, some,
  ◌≡◌, arith, refl, ap, subst,
}
use local_ai_perf_analysis.Process.{
  Process, new_process, Flow, go_on, cleanup, return, Step, and_then, ◌>>◌, take_hold, acquire,
  acquire_each, require, checked, finish, failed, Outcome,
}
use local_ai_perf_analysis.Process.Tracking.{
  IsClean, IsTracked, Tracks, Advances, Closes, close-IsClean, new_process-IsTracked,
}

-- A setup that returns has given back what it took.
abbrev pub ReturnsClean : Flow × Process → Type 0
ReturnsClean (return i, p) = IsClean p
ReturnsClean (go_on, p) = Unit {0}
ReturnsClean (cleanup, p) = Unit {0}

result_of :
    {x : Outcome} (o : Option (ℤ × Bytes)) (f : ℤ × Bytes → Outcome)
    → Option.map f o ≡ some x
    → (r : ℤ × Bytes) × (f r ≡ x)
result_of none f h = cc
result_of (some r) f h = (r, cc)

end-IsClean :
    {k n : ℕ} {close : Process → Process} {q : Process} {out : Bytes} (heading : Bytes)
    (loop : ℤ → Option (ℤ × Bytes)) (r : Flow × Process)
    → Tracks k r
    → Closes k close
    → ReturnsClean r
    → finish heading loop close r ≡ some (n, q, out)
    → IsClean q
unfolding finish
end-IsClean {close} heading loop (go_on, p) t c early h =
    let (r, same) =
      result_of (loop p.err) (λ r. (failed r.0, close (record p { err = r.0 }), heading ++ r.1))
        h in
    let t' : IsTracked _ (record p { err = r.0 }) = record { known = t.known; fresh = t.fresh } in
    subst IsClean (ap (λ x. x.1) same) (close-IsClean (record p { err = r.0 }) c t')
end-IsClean {close} {q} heading loop (cleanup, p) t c early h =
    let same : close p ≡ q = cc in subst IsClean same (close-IsClean p c t)
end-IsClean {q} heading loop (return i, p) t c early h =
    let same : p ≡ q = cc in subst IsClean same early

-- Behind a setup that accounts for its resources, and returns only when it has given them back, a main that ends has
-- given all of them back.
pub finish-IsClean :
    {k n : ℕ} {setup : Step} {close : Process → Process} {q : Process} {out : Bytes}
    (heading : Bytes) (loop : ℤ → Option (ℤ × Bytes))
    → Advances 0 k setup
    → Closes k close
    → ReturnsClean (setup new_process)
    → finish heading loop close (setup new_process) ≡ some (n, q, out)
    → IsClean q
finish-IsClean {setup} heading loop a c early =
    end-IsClean heading loop (setup new_process) (a.keeps new_process new_process-IsTracked) c early

-- And if the loop ends, main does.
pub finish_returns :
    {k : ℕ} {setup : Step} {close : Process → Process} (heading : Bytes)
    (loop : ℤ → Option (ℤ × Bytes))
    → Advances 0 k setup
    → Closes k close
    → ReturnsClean (setup new_process)
    → ((err : ℤ) → (r : ℤ × Bytes) × (loop err ≡ some r))
    → (n : ℕ) × (p : Process) × (out : Bytes) × (finish heading loop close (setup new_process)
        ≡ some (n, p, out))
      × IsClean p
finish_returns {setup} {close} heading loop a c early ends =
    let ((n, p, out), e) = some_result (setup new_process) in
    (n, p, out, e, finish-IsClean heading loop a c early e)
  where
    some_result : (r : Flow × Process) → (x : Outcome) × (finish heading loop close r ≡ some x)
    some_result (go_on, p) =
        let (r, ended) = ends p.err in
        (
          (failed r.0, close (record p { err = r.0 }), heading ++ r.1),
          unfold finish in rw ended refl,
        )
    some_result (cleanup, p) = ((failed p.err, close p, []), unfold finish in refl)
    some_result (return n, p) = ((n, p, []), unfold finish in refl)

-- Behind a setup that succeeds, main ends as its loop does, and has printed the heading and what the loop prints.
pub finish-go_on :
    (heading : Bytes) (loop : ℤ → Option (ℤ × Bytes)) (close : Process → Process)
    (r : Flow × Process) {err : ℤ} {out : Bytes}
    → r.0 ≡ go_on
    → loop r.1.err ≡ some (err, out)
    → (p : Process) × (finish heading loop close r ≡ some (failed err, p, heading ++ out))
unfolding finish
finish-go_on heading loop close (go_on, p) {err} h e = (close (record p { err = err }), rw e refl)
finish-go_on heading loop close (cleanup, p) h e = absurd (cc h)
finish-go_on heading loop close (return n, p) h e = absurd (cc h)

abbrev returns : Flow → Bool
returns (return i) = true
returns go_on = false
returns cleanup = false

-- A step behind which main does not return at once.
pub record Stays (m : Step) : Type 0 where
  pub stays : (p : Process) → returns (m p).0 ≡ false

pub >>-Stays : {m n : Step} → Stays m → Stays n → Stays (m >> n)
>>-Stays {m} {n} a b = record { stays = λ p. go (m p) (a.stays p) }
  where
    go : (r : Flow × Process) → returns r.0 ≡ false → returns (and_then r n).0 ≡ false
    go (go_on, q) h = b.stays q
    go (cleanup, q) h = refl
    go (return i, q) h = h

pub acquire-Stays : (s : ℕ) (works : Bool) → Stays (acquire s works cleanup)
unfolding acquire
acquire-Stays s true = record { stays = λ p. refl }
acquire-Stays s false = record { stays = λ p. refl }

pub acquire_each-Stays : {A : Type 0} (s : ℕ) (l : List A) → Stays (acquire_each s l)
unfolding acquire_each
acquire_each-Stays s [] = record { stays = λ p. refl }
acquire_each-Stays s (a ∷ l) = record {
  stays = λ p. (acquire_each-Stays (suc s) l).stays (take_hold s p);
}

pub require-Stays : (holds : Bool) → Stays (require holds cleanup)
unfolding require
require-Stays true = record { stays = λ p. refl }
require-Stays false = record { stays = λ p. refl }

pub checked-Stays : (e : ℤ) → Stays (checked e)
unfolding checked
checked-Stays (pos zero) = record { stays = λ p. refl }
checked-Stays (pos (suc n)) = record { stays = λ p. ground arith }
checked-Stays (negsuc n) = record { stays = λ p. refl }

pub stays-ReturnsClean : (r : Flow × Process) → returns r.0 ≡ false → ReturnsClean r
stays-ReturnsClean (go_on, p) h = tt
stays-ReturnsClean (cleanup, p) h = tt
stays-ReturnsClean (return i, p) h = absurd (cc h)

-- A setup that may return only at its first call.
pub first-ReturnsClean :
    {m : Step} (s n : ℕ) (works : Bool)
    → Stays m
    → ReturnsClean ((acquire s works (return n) >> m) new_process)
unfolding acquire
first-ReturnsClean s n false a = λ i. refl
first-ReturnsClean {m} s n true a =
    stays-ReturnsClean (m (take_hold s new_process)) (a.stays (take_hold s new_process))
