-- ===== src/Process/Ring.antt =====
-- The polling loop of src/user/trace_cuda.c and src/user/trace_exec.c on a BPF program at work, with one ring buffer
-- between them: what the program submits before each poll, and what the polls take out.
use local_ai_perf_analysis.Prelude.{
  Option, ℕ, zero, suc, ◌+◌, Bool, List, [], ◌∷◌, ◌++◌, append_assoc, ◌≡◌, refl, sym, ap, ◌∙◌,
  arith, take, drop, take-drop, if◌then◌else◌, Bool-cases, inl, inr,
}
use local_ai_perf_analysis.Process.{Round}
use local_ai_perf_analysis.Process.Polling.{delivered}

-- A BPF program that submits to a ring buffer: its state holds the pending events, and a firing neither reads nor
-- changes those that are there.
pub record Producer (S W E : Type 0) : Type 0 where
  pub fires : S → W → W
  pub pending : W → List E
  pub with_pending : List E → W → W
  pub pending-with_pending : (l : List E) (w : W) → pending (with_pending l w) ≡ l
  pub with_pending_again :
      (l m : List E) (w : W) → with_pending l (with_pending m w) ≡ with_pending l w
  pub with_own : (w : W) → with_pending (pending w) w ≡ w
  pub fires-behind :
      (s : S) (l : List E) (w : W)
      → fires s (with_pending (l ++ pending w) w)
        ≡ with_pending (l ++ pending (fires s w)) (fires s w)

-- One round of the loop: what fires before the poll, how many of the pending events it takes, oldest first, and whether
-- it fails.
pub record Turn (S : Type 0) : Type 0 where
  pub exiting : Bool
  pub before : List S
  pub taken : ℕ
  pub error : Option ℕ

-- What fires in n rounds from round i on, and in the one behind them if it polls.
abbrev pub fired : {S : Type 0} → (ℕ → Turn S) → ℕ → ℕ → List S
fired h zero i = if (h i).exiting then [] else (h i).before
fired h (suc n) i = (h i).before ++ fired h n (suc i)

module _ {S W E : Type 0} (D : Producer S W E) where
  open D use {
    fires, pending, with_pending, pending-with_pending, with_pending_again, with_own, fires-behind,
  }

  unfoldable pub fire_each : List S → W → W
  fire_each [] w = w
  fire_each (s ∷ l) w = fire_each l (fires s w)

  abbrev pub after_poll : ℕ → W → W
  after_poll n w = with_pending (drop n (pending w)) w

  module _ (h : ℕ → Turn S) (start : W) where
    -- The state at the beginning of a round.
    unfoldable pub state_at : ℕ → W
    unfolding fire_each
    state_at zero = start
    state_at (suc i) = after_poll (h i).taken (fire_each (h i).before (state_at i))

    -- What the loop sees of a round.
    unfoldable pub rounds_of : ℕ → Round E
    unfolding state_at
    rounds_of i = record {
      exiting = (h i).exiting;
      batch = take (h i).taken (pending (fire_each (h i).before (state_at i)));
      error = (h i).error;
    }

  behind : List E → W → W
  behind l w = with_pending (l ++ pending w) w

  fire_each-behind :
      (s : List S) (l : List E) (w : W) → fire_each s (behind l w) ≡ behind l (fire_each s w)
  unfolding fire_each behind
  fire_each-behind [] l w = refl
  fire_each-behind (s ∷ t) l w =
      ap (fire_each t) (fires-behind s l w) ∙ fire_each-behind t l (fires s w)

  fire_each-append : (s t : List S) (w : W) → fire_each (s ++ t) w ≡ fire_each t (fire_each s w)
  unfolding fire_each
  fire_each-append [] t w = refl
  fire_each-append (x ∷ s) t w = fire_each-append s t (fires x w)

  behind-behind : (l m : List E) (w : W) → behind l (behind m w) ≡ behind (l ++ m) w
  unfolding behind
  behind-behind l m w =
      with_pending_again (l ++ pending (with_pending (m ++ pending w) w)) (m ++ pending w) w
      ∙ ap (λ x. with_pending x w)
          (ap (λ x. l ++ x) (pending-with_pending (m ++ pending w) w)
            ∙ sym (append_assoc l m (pending w)))

  -- A poll takes what was pending first.
  after_poll-behind : (n : ℕ) (w : W) → w ≡ behind (take n (pending w)) (after_poll n w)
  unfolding behind
  after_poll-behind n w = sym (
      with_pending_again _ (drop n (pending w)) w
      ∙ ap (λ x. with_pending x w)
          (ap (λ x. take n (pending w) ++ x) (pending-with_pending (drop n (pending w)) w)
            ∙ take-drop n (pending w))
      ∙ with_own w)

  behind_nothing : (w : W) → behind [] w ≡ w
  unfolding behind
  behind_nothing w = with_own w

  module _ (h : ℕ → Turn S) (start : W) where
    -- The state when the loop has ended in round k.
    abbrev pub state_behind : ℕ → W
    state_behind k = if (h k).exiting then state_at h start k else state_at h start (suc k)

    fire_each-delivered :
        (n i : ℕ)
        → fire_each (fired h n i) (state_at h start i)
          ≡ behind (delivered (rounds_of h start) n i) (state_behind (i + n))
    unfolding rounds_of
    fire_each-delivered zero i =
        let same : i + 0 ≡ i = omega arith in
        rw same (elim (Bool-cases (h i).exiting) [
          | inl set ↦ rw set (unfold fire_each in sym (behind_nothing (state_at h start i)))
          | inr unset ↦ rw unset (
              unfold state_at in
              after_poll-behind (h i).taken (fire_each (h i).before (state_at h start i)))
        ])
    fire_each-delivered (suc n) i =
        let next : i + suc n ≡ suc i + n = omega arith in
        let first = fire_each (h i).before (state_at h start i) in
        let batch = take (h i).taken (pending first) in
        fire_each-append (h i).before (fired h n (suc i)) (state_at h start i)
        ∙ ap (fire_each (fired h n (suc i))) (after_poll-behind (h i).taken first)
        ∙ fire_each-behind (fired h n (suc i)) batch (after_poll (h i).taken first)
        ∙ ap (behind batch) (unfold state_at in fire_each-delivered n (suc i))
        ∙ behind-behind batch (delivered (rounds_of h start) n (suc i)) (state_behind (suc i + n))
        ∙ ap (λ j. behind (batch ++ delivered (rounds_of h start) n (suc i)) (state_behind j))
            (sym next)

    -- The events that the loop takes up to its end in round k and those that are then pending are, in order, all that
    -- the program has submitted.
    pub pending-fired :
        (k : ℕ)
        → pending (fire_each (fired h k 0) start)
          ≡ delivered (rounds_of h start) k 0 ++ pending (state_behind k)
    unfolding state_at
    pending-fired k =
        let same : 0 + k ≡ k = omega arith in
        let taken = delivered (rounds_of h start) k 0 in
        ap pending (fire_each-delivered k 0 ∙ ap (λ j. behind taken (state_behind j)) same)
        ∙ unfold behind in pending-with_pending (taken ++ pending (state_behind k)) (state_behind k)
