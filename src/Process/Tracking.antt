-- ===== src/Process/Tracking.antt =====
-- The resources of a run: which are out after a sequence of calls, and how the steps account for them.
use local_ai_perf_analysis.Prelude.{
  ℕ, suc, ◌+◌, ℤ, Bool, true, false, List, [], ◌∷◌, Option, none, some, ◌≡◌, ◌≤◌, ◌<◌, ◌==◌, arith,
  refl, if◌then◌else◌, length, Bool-cases, inl, inr, ◌&&◌, ◌||◌, not, pos, negsuc, zero, leb, ltb,
  ◌∙◌, dec_lt,
}
use local_ai_perf_analysis.Process.{
  LibCall, got, freed, Process, new_process, Flow, go_on, cleanup, return, Step, and_then, ◌>>◌,
  take_hold, acquire, acquire_each, require, checked, release, release_range, release_all,
}

-- Whether the resource of a variable is out after the calls; `none` if it was handed out while the last
-- one was not given back, or given back while none was out.
abbrev pub out_now : Option Bool → Option Bool
out_now (some false) = some true
out_now (some true) = none
out_now none = none

abbrev pub back_now : Option Bool → Option Bool
back_now (some true) = some false
back_now (some false) = none
back_now none = none

abbrev pub outstanding : ℕ → List LibCall → Option Bool
outstanding s [] = some false
outstanding s (got r ∷ l) = if r == s then out_now (outstanding s l) else outstanding s l
outstanding s (freed r ∷ l) = if r == s then back_now (outstanding s l) else outstanding s l

-- Every resource was given back, none twice, and no variable was overwritten while it held one.
abbrev pub IsClean : Process → Type 0
IsClean p = (s : ℕ) → outstanding s p.calls ≡ some false

-- The variables tell what is out, and those from k on hold nothing.
pub record IsTracked (k : ℕ) (p : Process) : Type 0 where
  pub known : (s : ℕ) → outstanding s p.calls ≡ some (p.held s)
  pub fresh : (s : ℕ) → k ≤ s → p.held s ≡ false

pub new_process-IsTracked : IsTracked 0 new_process
new_process-IsTracked = record { known = λ s. refl; fresh = λ s h. refl }

weaken : {j k : ℕ} {p : Process} → j ≤ k → IsTracked j p → IsTracked k p
weaken le t = record { known = t.known; fresh = λ s h. t.fresh s (omega arith) }

-- What is tracked unless main has returned.
abbrev pub Tracks : ℕ → Flow × Process → Type 0
Tracks k (go_on, p) = IsTracked k p
Tracks k (cleanup, p) = IsTracked k p
Tracks k (return n, p) = Unit {0}

tracks : {k : ℕ} {p : Process} (x : Flow) → IsTracked k p → Tracks k (x, p)
tracks go_on t = t
tracks cleanup t = t
tracks (return n) t = tt

-- A step that uses no variable below j, and none from k on, unless main returns.
pub record Advances (j k : ℕ) (m : Step) : Type 0 where
  pub ordered : j ≤ k
  pub keeps : (p : Process) → IsTracked j p → Tracks k (m p)

take_hold-IsTracked :
    (s k : ℕ) (p : Process) → k ≤ s → IsTracked k p → IsTracked (suc s) (take_hold s p)
take_hold-IsTracked s k p le t = record {
  known = λ r. ground (arith, t.known r, t.fresh s le);
  fresh = λ r h. ground (arith, t.fresh r (omega arith));
}

pub >>-Advances : {j k l : ℕ} {m n : Step} → Advances j k m → Advances k l n → Advances j l (m >> n)
>>-Advances {j} {k} {l} {m} {n} a b = record {
  ordered = omega (arith, a.ordered, b.ordered);
  keeps = λ p t. go (m p) (a.keeps p t);
}
  where
    go : (r : Flow × Process) → Tracks k r → Tracks l (and_then r n)
    go (go_on, q) t = b.keeps q t
    go (cleanup, q) t = weaken b.ordered t
    go (return i, q) t = tt

pub acquire-Advances :
    (s j : ℕ) (works : Bool) (x : Flow) → j ≤ s → Advances j (suc s) (acquire s works x)
unfolding acquire
acquire-Advances s j true x le = record {
  ordered = omega arith;
  keeps = λ p t. take_hold-IsTracked s j p le t;
}
acquire-Advances s j false x le = record {
  ordered = omega arith;
  keeps = λ p t. tracks x (weaken (omega arith) t);
}

pub require-Advances : (j : ℕ) (holds : Bool) (x : Flow) → Advances j j (require holds x)
unfolding require
require-Advances j holds x = record {
  ordered = omega arith;
  keeps = λ p t. tracks (if holds then go_on else x) t;
}

pub checked-Advances : (j : ℕ) (e : ℤ) → Advances j j (checked e)
unfolding checked
checked-Advances j e = record {
  ordered = omega arith;
  keeps = λ p t.
      tracks (elim e [ pos n ↦ if n == 0 then go_on else cleanup | negsuc n ↦ cleanup ])
        (record { known = t.known; fresh = t.fresh });
}

pub acquire_each-Advances :
    {A : Type 0} (s j : ℕ) (l : List A) → j ≤ s → Advances j (s + length l) (acquire_each s l)
unfolding acquire_each
acquire_each-Advances s j [] le = record {
  ordered = omega arith;
  keeps = λ p t. weaken (omega arith) t;
}
acquire_each-Advances s j (a ∷ l) le =
    let rest = acquire_each-Advances (suc s) (suc s) l (omega arith) in
    let shift : suc s + length l ≡ s + suc (length l) = omega arith in
    record {
      ordered = omega arith;
      keeps = λ p t. rw shift at (rest.keeps (take_hold s p) (take_hold-IsTracked s j p le t));
    }

-- A cleanup that gives back, once, what each of certain variables holds, and nothing else.
pub record Frees (given : ℕ → Bool) (m : Process → Process) : Type 0 where
  pub frees :
      (p : Process) (s : ℕ)
      → outstanding s (m p).calls
        ≡ (if given s && p.held s then back_now (outstanding s p.calls) else outstanding s p.calls)
  pub keeps : (p : Process) (s : ℕ) → (m p).held s ≡ p.held s

pub release-Frees : (s : ℕ) → Frees (λ r. s == r) (release s)
unfolding release
release-Frees s = record {
  frees = λ p r. elim (Bool-cases (p.held s)) [
    | inl live ↦ rw live (ground (arith, live))
    | inr null ↦ rw null (ground (arith, null))
  ];
  keeps = λ p r. ground arith;
}

-- One after the other, if no variable is given back by both.
pub then-Frees :
    {f g : ℕ → Bool} {m n : Process → Process}
    → Frees f m
    → Frees g n
    → ((s : ℕ) → (f s && g s) ≡ false)
    → Frees (λ s. f s || g s) (λ p. n (m p))
then-Frees {f} {g} {m} {n} a b apart = record {
  frees = λ p s. ground (arith, b.frees (m p) s, a.keeps p s, a.frees p s, apart s);
  keeps = λ p s. b.keeps (m p) s ∙ a.keeps p s;
}

same-Frees :
    {f g : ℕ → Bool} {m : Process → Process} → ((s : ℕ) → f s ≡ g s) → Frees f m → Frees g m
same-Frees {f} {g} {m} same a = record {
  frees = λ p s. rw⁻¹ (same s) (a.frees p s);
  keeps = a.keeps;
}

pub release_range-Frees : (s n : ℕ) → Frees (λ r. leb s r && ltb r (s + n)) (release_range s n)
unfolding release_range
release_range-Frees s zero = record { frees = λ p r. ground arith; keeps = λ p r. refl }
release_range-Frees s (suc n) =
    same-Frees (λ r. ground arith)
      (then-Frees (release-Frees s) (release_range-Frees (suc s) n) (λ r. ground arith))

abbrev pub among : ℕ → List ℕ → Bool
among s [] = false
among s (r ∷ l) = r == s || among s l

-- No variable occurs twice.
abbrev pub distinct : List ℕ → Bool
distinct [] = true
distinct (s ∷ l) = not (among s l) && distinct l

pub release_all-Frees : (l : List ℕ) → distinct l ≡ true → Frees (λ r. among r l) (release_all l)
unfolding release_all
release_all-Frees [] h = record { frees = λ p r. refl; keeps = λ p r. refl }
release_all-Frees (s ∷ l) h =
    then-Frees (release-Frees s) (release_all-Frees l (ground (arith, h))) (λ r. ground (arith, h))

-- A cleanup that gives back, once, what the variables below k hold, and nothing else.
pub record Closes (k : ℕ) (close : Process → Process) : Type 0 where
  pub closes :
      (p : Process) (s : ℕ)
      → outstanding s (close p).calls
        ≡ (if ltb s k && p.held s then back_now (outstanding s p.calls) else outstanding s p.calls)

pub Frees-Closes :
    {k : ℕ} {given : ℕ → Bool} {m : Process → Process}
    → ((s : ℕ) → given s ≡ ltb s k)
    → Frees given m
    → Closes k m
Frees-Closes same a = record { closes = (same-Frees same a).frees }

pub close-IsClean :
    {k : ℕ} {close : Process → Process} (p : Process)
    → Closes k close
    → IsTracked k p
    → IsClean (close p)
close-IsClean {k} p c t s = elim (Bool-cases (p.held s)) [
  | inl live ↦
      let below : s < k = elim (dec_lt s k) [
        | yes lt ↦ lt
        | no above ↦ absurd (ground (arith, live, t.fresh s (omega arith)))
      ] in
      c.closes p s ∙ ground (arith, live, t.known s)
  | inr null ↦ c.closes p s ∙ ground (arith, null, t.known s)
]
