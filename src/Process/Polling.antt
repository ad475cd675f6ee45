-- ===== src/Process/Polling.antt =====
-- The polling loop of src/user/trace_cuda.c and src/user/trace_exec.c: when it ends, with which
-- `err`, and what it prints.
use mathlib.Core.Option
use local_ai_perf_analysis.Prelude.{
  List, [], ◌∷◌, ◌++◌, append_assoc, Bytes, sym, ap, if◌then◌else◌, ℕ, zero, suc, ◌+◌, ℤ, pos,
  negsuc, true, false, some, ◌≡◌, ◌≤◌, ◌<◌, ◌⊎◌, inl, inr, refl, arith, nonneg, Bool-cases, dec_lt,
  subst, ◌∙◌,
}
use local_ai_perf_analysis.Process.{Round, polled, interrupted, print_each, poll_loop}

module _ {E : Type 0} where
  -- A round that polls, and goes on.
  abbrev pub GoesOn : Round E → Type 0
  GoesOn r = (r.exiting ≡ false) × (nonneg (polled r) ≡ true)

  -- A round that ends the loop: the flag is set, or the poll fails.
  abbrev pub Ends : Round E → Type 0
  Ends r = (r.exiting ≡ true) ⊎ (nonneg (polled r) ≡ false)

  -- The events of a round that ends the loop.
  abbrev pub last_batch : Round E → List E
  last_batch r = if r.exiting then [] else r.batch

  -- The events of n rounds from round i on, and of the one behind them.
  abbrev pub delivered : (ℕ → Round E) → ℕ → ℕ → List E
  delivered rounds zero i = last_batch (rounds i)
  delivered rounds (suc n) i = (rounds i).batch ++ delivered rounds n (suc i)

nonneg_not_interrupted : (e : ℤ) → nonneg e ≡ true → interrupted e ≡ false
nonneg_not_interrupted (pos n) h = refl
nonneg_not_interrupted (negsuc n) h = cc

pub print_each-append :
    {E : Type 0} (f : E → Bytes) (l m : List E)
    → print_each f (l ++ m) ≡ print_each f l ++ print_each f m
unfolding print_each
print_each-append f [] m = refl
print_each-append f (e ∷ l) m =
    ap (λ x. f e ++ x) (print_each-append f l m)
    ∙ sym (append_assoc (f e) (print_each f l) (print_each f m))

module _ {E : Type 0} (f : E → Bytes) (rounds : ℕ → Round E) where
  go_round :
      (fuel i : ℕ) (err : ℤ)
      → GoesOn (rounds i)
      → poll_loop f rounds (suc fuel) i err
        ≡ Option.map
            (λ r. (r.0, print_each f (rounds i).batch ++ r.1))
            (poll_loop f rounds fuel (suc i) (polled (rounds i)))
  unfolding poll_loop
  go_round fuel i err (unset, good) =
      rw (poll_loop, unset, nonneg_not_interrupted (polled (rounds i)) good, good) refl

  stop_round :
      (fuel i : ℕ) (err : ℤ)
      → (rounds i).exiting ≡ true
      → poll_loop f rounds (suc fuel) i err ≡ some (err, [])
  unfolding poll_loop
  stop_round fuel i err set = rw (poll_loop, set) refl

  -- A round that ends the loop prints its events, if it polls.
  last_round :
      (fuel i : ℕ) (err : ℤ)
      → Ends (rounds i)
      → (e : ℤ) × (poll_loop f rounds (suc fuel) i err
          ≡ some (e, print_each f (last_batch (rounds i))))
  unfolding poll_loop print_each
  last_round fuel i err h = elim (Bool-cases (rounds i).exiting) [
    | inl set ↦ (err, rw (poll_loop, set) refl)
    | inr unset ↦ elim (Bool-cases (interrupted (polled (rounds i)))) [
      | inl eintr ↦ (pos 0, rw (poll_loop, unset, eintr) refl)
      | inr other ↦ ((polled (rounds i)), rw (poll_loop, unset, other, bad unset) refl)
    ]
  ]
    where
      bad : (rounds i).exiting ≡ false → nonneg (polled (rounds i)) ≡ false
      bad unset = elim h [ inl set ↦ cc | inr e ↦ e ]

  -- With fuel beyond a round that ends the loop, the loop ends.
  pub poll_loop-Ends :
      (fuel i k : ℕ) (err : ℤ)
      → Ends (rounds k)
      → i ≤ k
      → k < i + fuel
      → (r : ℤ × Bytes) × (poll_loop f rounds fuel i err ≡ some r)
  poll_loop-Ends zero i k err h le lt = absurd (omega arith)
  poll_loop-Ends (suc fuel) i k err h le lt = elim (dec_Ends (rounds i)) [
    | inl ends ↦ let (e, last) = last_round fuel i err ends in ((e, _), last)
    | inr on ↦
        let (r, rest) =
          poll_loop-Ends fuel (suc i) k (polled (rounds i)) h (later on) (omega arith) in
        ((r.0, print_each f (rounds i).batch ++ r.1), rw (go_round fuel i err on, rest) refl)
  ]
    where
      dec_Ends : (r : Round E) → Ends r ⊎ GoesOn r
      dec_Ends r = elim (Bool-cases r.exiting) [
        | inl set ↦ inl (inl set)
        | inr unset ↦ elim (Bool-cases (nonneg (polled r))) [
          | inl good ↦ inr (unset, good)
          | inr bad ↦ inl (inr bad)
        ]
      ]

      later : GoesOn (rounds i) → suc i ≤ k
      later on = elim (dec_lt i k) [
        | yes below ↦ below
        | no above ↦
            let same : k ≡ i = omega arith in
            elim (subst (λ j. Ends (rounds j)) same h) [ inl e ↦ cc | inr e ↦ cc ]
      ]

  -- What is printed up to the first round that ends the loop.
  pub poll_loop-delivered :
      (n fuel i : ℕ) (err : ℤ)
      → ((j : ℕ) → i ≤ j → j < i + n → GoesOn (rounds j))
      → Ends (rounds (i + n))
      → n < fuel
      → (e : ℤ) × (poll_loop f rounds fuel i err ≡ some (e, print_each f (delivered rounds n i)))
  poll_loop-delivered n zero i err on off lt = absurd (omega arith)
  poll_loop-delivered zero (suc fuel) i err on off lt =
      let same : i + 0 ≡ i = omega arith in
      last_round fuel i err (subst (λ j. Ends (rounds j)) same off)
  poll_loop-delivered (suc n) (suc fuel) i err on off lt =
      let next : i + suc n ≡ suc i + n = omega arith in
      let (e, rest) =
        poll_loop-delivered n fuel (suc i) (polled (rounds i))
          (λ j le below. on j (omega arith) (omega arith)) (subst (λ j. Ends (rounds j)) next off)
          (omega arith) in
      (
        e,
        go_round fuel i err (on i (omega arith) (omega arith))
            ∙ rw rest (
                ap (λ x. some (e, x))
                  (sym (print_each-append f (rounds i).batch (delivered rounds n (suc i))))),
      )

  -- After rounds that go on, a set flag leaves the result of the last poll in `err`.
  pub poll_loop_flag :
      (n fuel i last : ℕ) (err : ℤ)
      → i + n ≡ last
      → ((j : ℕ) → i ≤ j → j ≤ last → GoesOn (rounds j))
      → (rounds (suc last)).exiting ≡ true
      → suc n < fuel
      → (out : Bytes) × (poll_loop f rounds fuel i err ≡ some ((polled (rounds last)), out))
  poll_loop_flag n zero i last err e on off lt = absurd (omega arith)
  poll_loop_flag zero (suc zero) i last err e on off lt = absurd (omega arith)
  poll_loop_flag zero (suc (suc fuel)) i last err e on off lt =
      let same : i ≡ last = omega arith in
      (
        print_each f (rounds i).batch ++ [],
        go_round (suc fuel) i err (on i (omega arith) (omega arith))
            ∙ rw (same, stop_round fuel (suc last) (polled (rounds last)) off) refl,
      )
  poll_loop_flag (suc n) (suc fuel) i last err e on off lt =
      let (out, rest) =
        poll_loop_flag n fuel (suc i) last (polled (rounds i)) (omega arith)
          (λ j le. on j (omega arith)) off (omega arith) in
      (
        print_each f (rounds i).batch ++ out,
        go_round fuel i err (on i (omega arith) (omega arith)) ∙ rw rest refl,
      )
