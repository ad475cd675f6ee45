-- ===== src/StackMap/Table.antt =====
-- A map that meets the interface: a table of nth most so many different stacks, whose place is their id.
use local_ai_perf_analysis.Prelude.{
  ℕ, zero, suc, ◌<◌, ℤ, pos, negsuc, Bool, true, false, ◌&&◌, ◌==◌, List, [], ◌∷◌, ◌++◌, Option,
  none, some, ◌≡◌, refl, ap, arith, length, nonneg, ltb, ltb→lt, if◌then◌else◌, Bool-cases, inl,
  inr,
}
use local_ai_perf_analysis.StackMap.{StackMap, entry}

unfoldable pub nth : List (List ℕ) → ℕ → Option (List ℕ)
nth [] i = none
nth (x ∷ l) zero = some x
nth (x ∷ l) (suc i) = nth l i

abbrev pub same_list : List ℕ → List ℕ → Bool
same_list [] [] = true
same_list [] (y ∷ m) = false
same_list (x ∷ l) [] = false
same_list (x ∷ l) (y ∷ m) = x == y && same_list l m

-- The place of a list in the table, or the place behind it.
unfoldable pub place : List (List ℕ) → List ℕ → ℕ
place [] v = 0
place (x ∷ l) v = let rest = suc (place l v) in if same_list x v then 0 else rest

-- The table behind a call.
unfoldable pub insert : ℕ → List (List ℕ) → List ℕ → ℤ × List (List ℕ)
unfolding place
insert cap l v =
    if ltb (place l v) (length l)
    then (pos (place l v), l)
    else if ltb (length l) cap
    then (pos (length l), l ++ v ∷ [])
    else (negsuc 11, l)

abbrev pub lookup_id : List (List ℕ) → ℤ → Option (List ℕ)
lookup_id l (pos n) = nth l n
lookup_id l (negsuc n) = none

same_list-eq : (l m : List ℕ) → same_list l m ≡ true → l ≡ m
same_list-eq [] [] h = refl
same_list-eq [] (y ∷ m) h = absurd (cc h)
same_list-eq (x ∷ l) [] h = absurd (cc h)
same_list-eq (x ∷ l) (y ∷ m) h = ground (arith, same_list-eq l m)

nth-place : (l : List (List ℕ)) (v : List ℕ) → place l v < length l → nth l (place l v) ≡ some v
unfolding nth place
nth-place [] v h = absurd (omega arith)
nth-place (x ∷ l) v h = elim (Bool-cases (same_list x v)) [
  | inl same ↦ rw same (ap some (same_list-eq x v same))
  | inr other ↦
      let less : suc (place l v) < suc (length l) = rw other at h in
      rw other (nth-place l v (omega arith))
]

nth-last : (l : List (List ℕ)) (v : List ℕ) → nth (l ++ v ∷ []) (length l) ≡ some v
unfolding nth
nth-last [] v = refl
nth-last (x ∷ l) v = nth-last l v

nth-front : (l m : List (List ℕ)) (i : ℕ) (w : List ℕ) → nth l i ≡ some w → nth (l ++ m) i ≡ some w
unfolding nth
nth-front [] m i w h = absurd (cc h)
nth-front (x ∷ l) m zero w h = h
nth-front (x ∷ l) m (suc i) w h = nth-front l m i w h

pub lookup-insert :
    (cap : ℕ) (l : List (List ℕ)) (v : List ℕ)
    → nonneg (insert cap l v).0 ≡ true
    → lookup_id (insert cap l v).1 (insert cap l v).0 ≡ some v
unfolding insert
lookup-insert cap l v h = elim (Bool-cases (ltb (place l v) (length l))) [
  | inl there ↦ rw there (nth-place l v (ltb→lt _ _ there))
  | inr new ↦ elim (Bool-cases (ltb (length l) cap)) [
    | inl room ↦ rw (new, room) (nth-last l v)
    | inr full ↦ absurd (cc (rw (new, full) at h))
  ]
]

pub insert_kept :
    (cap : ℕ) (l : List (List ℕ)) (v w : List ℕ) (id : ℤ)
    → lookup_id l id ≡ some w
    → lookup_id (insert cap l v).1 id ≡ some w
unfolding insert
insert_kept cap l v w (negsuc n) h = absurd (cc h)
insert_kept cap l v w (pos n) h = elim (Bool-cases (ltb (place l v) (length l))) [
  | inl there ↦ rw there h
  | inr new ↦ elim (Bool-cases (ltb (length l) cap)) [
    | inl room ↦ rw (new, room) (nth-front l (v ∷ []) n w h)
    | inr full ↦ rw (new, full) h
  ]
]

abbrev pub table : ℕ → StackMap
table cap = record {
  Map = List (List ℕ);
  get_stackid = λ fast stack m. insert cap m (entry stack);
  lookup = lookup_id;
  lookup-get_stackid = λ m stack fits h. lookup-insert cap m (entry stack) h;
  lookup_kept = λ m fast stack v id h. insert_kept cap m (entry stack) v id h;
}
