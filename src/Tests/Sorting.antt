-- ===== src/Tests/Sorting.antt =====
-- A sort that keeps the promises of the C library's qsort, for the tests of src/user/unified_trace.c.
use mathlib.Core.List.Perm
use local_ai_perf_analysis.Prelude.{
  ℤ, true, false, List, [], ◌∷◌, ◌≡◌, ◌∙◌, refl, Perm, All, nonpos, nonneg, negsuc, pos,
  if◌then◌else◌, Bool-cases, inl, inr,
}
use local_ai_perf_analysis.Collector.Qsort.{Qsort, IsConsistent, IsSortedBy}

module _ {A : Type 0} (cmp : A → A → ℤ) where
  insert : A → List A → List A
  insert x [] = x ∷ []
  insert x (y ∷ l) = let rest = insert x l in if nonpos (cmp x y) then x ∷ y ∷ l else y ∷ rest

  sort_by : List A → List A
  sort_by [] = []
  sort_by (x ∷ l) = insert x (sort_by l)

  insert-perm : (x : A) (l : List A) → Perm (insert x l) (x ∷ l)
  unfolding insert
  insert-perm x [] = Perm.rfl
  insert-perm x (y ∷ l) = elim (Bool-cases (nonpos (cmp x y))) [
    | inl here ↦ rw here Perm.rfl
    | inr later ↦ rw later (Perm.trans (Perm.cons y (insert-perm x l)) (Perm.swap x y l))
  ]

  sort_by-perm : (l : List A) → Perm (sort_by l) l
  unfolding sort_by
  sort_by-perm [] = Perm.rfl
  sort_by-perm (x ∷ l) = Perm.trans (insert-perm x (sort_by l)) (Perm.cons x (sort_by-perm l))

  insert-All : (P : A → Type 0) (x : A) (l : List A) → P x → All P l → All P (insert x l)
  unfolding insert
  insert-All P x [] p h = (p, h)
  insert-All P x (y ∷ l) p (q, h) = elim (Bool-cases (nonpos (cmp x y))) [
    | inl here ↦ rw here (p, (q, h))
    | inr later ↦ rw later (q, insert-All P x l p h)
  ]

  All-map : {P Q : A → Type 0} → ((a : A) → P a → Q a) → (l : List A) → All P l → All Q l
  All-map f [] h = tt
  All-map f (x ∷ l) (p, h) = (f x p, All-map f l h)

  nonneg_of : (a : ℤ) → nonpos a ≡ false → nonneg a ≡ true
  nonneg_of (pos n) h = refl
  nonneg_of (negsuc n) h = cc

  module _ (c : IsConsistent cmp) where
    insert-IsSortedBy : (x : A) (l : List A) → IsSortedBy cmp l → IsSortedBy cmp (insert x l)
    unfolding insert
    insert-IsSortedBy x [] h = (tt, tt)
    insert-IsSortedBy x (y ∷ l) (hy, h) = elim (Bool-cases (nonpos (cmp x y))) [
      | inl here ↦ rw here ((here, All-map (λ a k. c.trans x y a here k) l hy), (hy, h))
      | inr later ↦ rw later (
        insert-All (λ a. nonpos (cmp y a) ≡ true) x l (c.total y x ∙ nonneg_of (cmp x y) later) hy,
        insert-IsSortedBy x l h,
      )
    ]

    sort_by-IsSortedBy : (l : List A) → IsSortedBy cmp (sort_by l)
    unfolding sort_by
    sort_by-IsSortedBy [] = tt
    sort_by-IsSortedBy (x ∷ l) = insert-IsSortedBy x (sort_by l) (sort_by-IsSortedBy l)

pub insertion_sort : {A : Type 0} → Qsort A
insertion_sort = record {
  qsort = sort_by;
  qsort-perm = sort_by-perm;
  qsort-IsSortedBy = λ cmp l c. sort_by-IsSortedBy cmp c l;
}
