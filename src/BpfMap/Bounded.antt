-- ===== src/BpfMap/Bounded.antt =====
-- A map that meets the interface: an association list with at most `cap` entries.
use local_ai_perf_analysis.Prelude.{
  ℕ, Bool, true, false, ◌&&◌, ◌||◌, ◌≡◌, Option, none, some, List, [], ◌∷◌, arith, ltb, ◌==◌,
  if◌then◌else◌, length,
}
use local_ai_perf_analysis.BpfMap.{BpfMap}

module _ {V : Type 0} where
  unfoldable pub find : List (ℕ × V) → ℕ → Option V
  find [] j = none
  find ((k, v) ∷ m) j = if k == j then some v else find m j

  unfoldable pub remove : List (ℕ × V) → ℕ → List (ℕ × V)
  remove [] j = []
  remove ((k, v) ∷ m) j = if k == j then remove m j else (k, v) ∷ remove m j

  unfoldable pub has : List (ℕ × V) → ℕ → Bool
  has [] j = false
  has ((k, v) ∷ m) j = (k == j) || has m j

  unfoldable pub fits : ℕ → List (ℕ × V) → ℕ → Bool
  fits cap m k = has m k || ltb (length m) cap

  unfoldable pub put : ℕ → List (ℕ × V) → ℕ → V → List (ℕ × V)
  put cap m k v = if fits cap m k then (k, v) ∷ remove m k else m

  pub find-remove :
      (m : List (ℕ × V)) (k j : ℕ) → find (remove m k) j ≡ (if k == j then none else find m j)
  unfolding find remove
  find-remove [] k j = ground arith
  find-remove ((i, v) ∷ m) k j = ground (arith, find-remove m k j)

  pub find-put :
      (cap : ℕ) (m : List (ℕ × V)) (k : ℕ) (v : V) (j : ℕ)
      → find (put cap m k v) j ≡ (if (k == j) && fits cap m k then some v else find m j)
  unfolding put find
  find-put cap m k v j = ground (arith, find-remove m k j)

  find-has : (m : List (ℕ × V)) (k : ℕ) (v : V) → find m k ≡ some v → has m k ≡ true
  unfolding find has
  find-has [] k v h = ground arith
  find-has ((i, w) ∷ m) k v h = ground (arith, find-has m k v)

  pub fits_present :
      (cap : ℕ) (m : List (ℕ × V)) (k : ℕ) (v : V) → find m k ≡ some v → fits cap m k ≡ true
  unfolding fits
  fits_present cap m k v h = ground (arith, find-has m k v h)

abbrev pub bounded : (V : Type 0) → ℕ → BpfMap V
bounded V cap = record {
  Map = List (ℕ × V);
  lookup = find;
  update = put cap;
  delete = remove;
  accepts = fits cap;
  lookup-update = find-put cap;
  lookup-delete = find-remove;
  accepts_present = fits_present cap;
}
