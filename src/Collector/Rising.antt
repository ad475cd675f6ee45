-- ===== src/Collector/Rising.antt =====
-- qsort with compare_events on events whose timestamps are all different and already in order.
use mathlib.Core.Logic.{∥∥₁_elim}
use mathlib.Core.List.Permᴰ
use mathlib.Core.List.Perm
use mathlib.Core.List.{Permᴰ}
use local_ai_perf_analysis.Prelude.{
  List, [], ◌∷◌, ◌≡◌, ◌≤◌, ◌<◌, ◌⊎◌, inl, inr, refl, subst, ap₂, arith, Perm, All,
}
use local_ai_perf_analysis.Collector.{UnifiedEvent, timestamp, compare_events}
use local_ai_perf_analysis.Collector.Qsort.{Qsort}
use local_ai_perf_analysis.Collector.Order.{IsAscending, qsort_events}

-- The timestamps rise along the list.
abbrev pub IsRising : List UnifiedEvent → Type 0
IsRising [] = Unit {0}
IsRising (x ∷ l) = All (λ y. timestamp x < timestamp y) l × IsRising l

-- A predicate on all members goes with them.
pub All-perm : {A : Type 0} (Q : A → Type 0) {l m : List A} → Permᴰ l m → All Q l → All Q m
All-perm Q Permᴰ.nil h = h
All-perm Q (Permᴰ.cons e d) (x, h) = (subst Q e x, All-perm Q d h)
All-perm Q (Permᴰ.swap e f) (x, (y, h)) = (subst Q f y, (subst Q e x, h))
All-perm Q (Permᴰ.trans d e) h = All-perm Q e (All-perm Q d h)

back : (Q : UnifiedEvent → Type 0) {l m : List UnifiedEvent} → Permᴰ l m → All Q m → All Q l
back Q d = All-perm Q (Permᴰ.symm d)

-- The heads of an ascending list and of a rising one with the same members are the same.
same_head :
    {x y : UnifiedEvent} {l m : List UnifiedEvent}
    → IsRising (x ∷ l)
    → IsAscending (y ∷ m)
    → Permᴰ (y ∷ m) (x ∷ l)
    → y ≡ x
same_head {x} {y} {l} {m} r a d =
    let Q : UnifiedEvent → Type 0 = λ z. (z ≡ x) ⊎ (timestamp x < timestamp z) in
    let above : All Q l → (y ≡ x) ⊎ (timestamp x < timestamp y) = λ h. (back Q d (inl refl, h)).0 in
    let low : timestamp y ≤ timestamp x =
      (All-perm (λ z. timestamp y ≤ timestamp z) d (omega arith, a.0)).0 in
    elim (above (weaken l r.0)) [ inl e ↦ e | inr lt ↦ absurd (omega arith) ]
  where
    weaken :
        (k : List UnifiedEvent)
        → All (λ z. timestamp x < timestamp z) k
        → All (λ z. (z ≡ x) ⊎ (timestamp x < timestamp z)) k
    weaken [] h = tt
    weaken (z ∷ k) (hz, h) = (inr hz, weaken k h)

empty_perm : {y : UnifiedEvent} {m : List UnifiedEvent} → Permᴰ (y ∷ m) [] → ⊥
empty_perm d = (back (λ z. ⊥) d tt).0

same_members : (l m : List UnifiedEvent) → IsRising l → IsAscending m → Perm m l → m ≡ l
same_members [] [] r a p = refl
same_members [] (y ∷ m) r a p = ∥∥₁_elim p (hlevel) (λ d. absurd (empty_perm d))
same_members (x ∷ l) [] r a p = ∥∥₁_elim p (hlevel) (λ d. absurd (empty_perm (Permᴰ.symm d)))
same_members (x ∷ l) (y ∷ m) r a p =
    let head : y ≡ x = ∥∥₁_elim p (hlevel) (same_head r a) in
    let rest : Perm m l = Perm.cons_inv (subst (λ z. Perm (z ∷ m) (x ∷ l)) head p) in
    ap₂ (λ z k. z ∷ k) head (same_members l m r.1 a.1 rest)

-- Whatever qsort the C library has, it leaves events as they are whose timestamps rise along the array.
pub qsort-IsRising :
    (q : Qsort UnifiedEvent) (l : List UnifiedEvent) → IsRising l → q.qsort compare_events l ≡ l
qsort-IsRising q l r =
    let (perm, ascending) = qsort_events q l in
    same_members l (q.qsort compare_events l) r ascending perm
