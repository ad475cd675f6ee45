-- ===== src/Collector/Qsort.antt =====
-- qsort of the C library, which src/user/unified_trace.c calls with compare_events: a parameter, with
-- what the C standard promises of it for a comparison that is consistent.
use local_ai_perf_analysis.Prelude.{ℤ, true, List, [], ◌∷◌, ◌≡◌, Perm, All, nonpos, nonneg}

-- The sign changes with the order of the arguments, and "not greater" is transitive.
pub record IsConsistent {A : Type 0} (cmp : A → A → ℤ) : Type 0 where
  pub total : (a b : A) → nonpos (cmp a b) ≡ nonneg (cmp b a)
  pub trans :
      (a b c : A) → nonpos (cmp a b) ≡ true → nonpos (cmp b c) ≡ true → nonpos (cmp a c) ≡ true

-- No entry is greater than a later one.
abbrev pub IsSortedBy : {A : Type 0} → (A → A → ℤ) → List A → Type 0
IsSortedBy cmp [] = Unit {0}
IsSortedBy cmp (x ∷ l) = All (λ y. nonpos (cmp x y) ≡ true) l × IsSortedBy cmp l

pub record Qsort (A : Type 0) : Type 0 where
  pub qsort : (A → A → ℤ) → List A → List A
  pub qsort-perm : (cmp : A → A → ℤ) (l : List A) → Perm (qsort cmp l) l
  pub qsort-IsSortedBy :
      (cmp : A → A → ℤ) (l : List A) → IsConsistent cmp → IsSortedBy cmp (qsort cmp l)
