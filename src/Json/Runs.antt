-- ===== src/Json/Runs.antt =====
-- Runs of the JSON recogniser over joined texts, strings and numbers.
use local_ai_perf_analysis.Prelude.{
  ℕ, Bool, true, false, List, [], ◌∷◌, ◌++◌, ◌||◌, ◌≡◌, ◌≢◌, ◌≤◌, refl, ap, ◌∙◌, arith, Bytes, All,
  ◌==◌, not,
}
use local_ai_perf_analysis.Json.{
  Frame, Place, Config, value, first_value, after, text, nought, int, frac, step, run, ends,
  is_digit,
}

pub run-append : (p : Config) (x y : Bytes) → run p (x ++ y) ≡ run (run p x) y
run-append p [] y = refl
run-append p (c ∷ x) y = run-append (step p c) x y

-- To run a text that continues: first the one part, then the other.
pub run_then :
    (p : Config) (x : Bytes) {q r : Config} (y : Bytes)
    → run p x ≡ q
    → run q y ≡ r
    → run p (x ++ y) ≡ r
run_then p x y h k = run-append p x y ∙ ap (λ q. run q y) h ∙ k

-- A byte that stands for itself in a string.
abbrev pub IsPlain : ℕ → Type 0
IsPlain c = (c ≢ b'"') × (c ≢ b'\\') × (32 ≤ c)

step_plain : (s : List Frame) (k : Bool) (c : ℕ) → IsPlain c → step (s, text k) c ≡ (s, text k)
step_plain s k c h = ground arith

pub run_plain :
    (s : List Frame) (k : Bool) (l : Bytes) → All IsPlain l → run (s, text k) l ≡ (s, text k)
run_plain s k [] h = refl
run_plain s k (c ∷ l) (hc, h) = rw (step_plain s k c hc) (run_plain s k l h)

-- A text that is read as one number wherever a value may stand.
abbrev pub IsNumber : Bytes → Type 0
IsNumber x = (s : List Frame) → (p : Place) × (run (s, value) x ≡ (s, p)) × (ends p ≡ true)

-- A byte that no number holds.
abbrev pub is_stop : ℕ → Bool
is_stop c = not (is_digit c || c == b'.')

step-ends :
    (s : List Frame) (p : Place) (c : ℕ)
    → ends p ≡ true
    → is_stop c ≡ true
    → step (s, p) c ≡ step (s, after) c
step-ends s after c h k = refl
step-ends s nought c h k = ground arith
step-ends s int c h k = ground arith
step-ends s frac c h k = ground arith
step-ends s _ c h k = cc

-- A number followed by such a byte is a value that has ended.
pub run_number :
    (s : List Frame) (x : Bytes) (c : ℕ) (y : Bytes) {r : Config}
    → IsNumber x
    → is_stop c ≡ true
    → run (s, after) (c ∷ y) ≡ r
    → run (s, value) (x ++ c ∷ y) ≡ r
run_number s x c y h stop k =
    let (p, read, over) = h s in
    run-append (s, value) x (c ∷ y)
    ∙ ap (λ q. run q (c ∷ y)) read
    ∙ ap (λ q. run q y) (step-ends s p c over stop)
    ∙ k

-- A text that does not go on with a number before it.
abbrev pub Stops : Bytes → Type 0
Stops y = (c : ℕ) × (l : Bytes) × (y ≡ c ∷ l) × (is_stop c ≡ true)

pub run_number_then :
    (s : List Frame) (x y : Bytes) {r : Config}
    → IsNumber x
    → Stops y
    → run (s, after) y ≡ r
    → run (s, value) (x ++ y) ≡ r
run_number_then s x y h (c, l, e, stop) k = rw e (run_number s x c l h stop (rw e at k))

-- Where the next entry of an array starts, behind none or behind another.
abbrev pub start : Bool → Place
start true = first_value
start false = after

-- Where an object of an array may open: at its start, or behind a comma.
abbrev pub opening : Bool → Place
opening true = first_value
opening false = value
