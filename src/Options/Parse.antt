-- ===== src/Options/Parse.antt =====
-- src/user/unified_trace.c, main: what the options that are read satisfy.
use local_ai_perf_analysis.Prelude.{
  not, ◌<◌, ◌^◌, ℤ, pos, negsuc, Bool, true, false, List, [], ◌∷◌, ◌++◌, ◌≡◌, refl, ap, ap₂, arith,
  Option, none, some, Bytes, codes, ◌==◌, ◌&&◌, if◌then◌else◌, nonpos, Bool-cases, Option-cases,
  inl, inr, ==_iff,
}
use local_ai_perf_analysis.Events.{cuda_ev_flag_async}
use local_ai_perf_analysis.Cuda.{sample_period}
use local_ai_perf_analysis.Options.{
  Options, default_options, same_text, positive_or, read_flag, read_option, parse_args, gpu_cfg,
  word32,
}

-- The numbers that must be positive are.
pub record IsUsable (o : Options) : Type 0 where
  pub async_ok : nonpos o.sample_period_async ≡ false
  pub sync_ok : nonpos o.sample_period_sync ≡ false
  pub frames_ok : nonpos o.max_stack_frames_in_json ≡ false

positive_or-positive : (d n : ℤ) → nonpos d ≡ false → nonpos (positive_or d n) ≡ false
positive_or-positive d n h = elim (Bool-cases (nonpos n)) [
  | inl small ↦ rw small h
  | inr big ↦ rw big big
]

-- The test of it, on what the reading of options returns.
abbrev keeps : Option Options → Bool
keeps none = true
keeps (some o) =
    not (nonpos o.sample_period_async)
    && (not (nonpos o.sample_period_sync) && not (nonpos o.max_stack_frames_in_json))

keeps-IsUsable : (o : Options) → keeps (some o) ≡ true → IsUsable o
keeps-IsUsable o h = record {
  async_ok = ground arith;
  sync_ok = ground arith;
  frames_ok = ground arith;
}

read_flag-keeps : (a : Bytes) (o : Options) → keeps (some o) ≡ true → keeps (read_flag a o) ≡ true
unfolding read_flag
read_flag-keeps a o h = ground arith

same_text-eq : (a b : Bytes) → same_text a b ≡ true → a ≡ b
same_text-eq [] [] h = refl
same_text-eq [] (c ∷ b) h = cc
same_text-eq (c ∷ a) [] h = cc
same_text-eq (c ∷ a) (d ∷ b) h =
    let (head, tail) = both (c == d) (same_text a b) h in
    ap₂ (◌∷◌) ((==_iff c d).0 head) (same_text-eq a b tail)
  where
    both : (x y : Bool) → (x && y) ≡ true → (x ≡ true) × (y ≡ true)
    both x y k = (ground arith, ground arith)

some-inj : {o p : Options} → some o ≡ some p → o ≡ p
some-inj h = cc

none_is_not_some : (p : Options) → ¬ (none ≡ some p)
none_is_not_some p h = cc

module _ (atoi : Bytes → ℤ) where
  read_option-keeps :
      (a v : Bytes) (o : Options) → keeps (some o) ≡ true → keeps (read_option atoi a v o) ≡ true
  unfolding read_option
  read_option-keeps a v o h = ground (
    arith,
    positive_or-positive (pos 1) (atoi v) refl,
    positive_or-positive (pos 12) (atoi v) refl,
  )

  parse_args-keeps :
      (args : List Bytes) (o : Options)
      → keeps (some o) ≡ true
      → keeps (parse_args atoi args o) ≡ true
  unfolding parse_args
  parse_args-keeps [] o h = h
  parse_args-keeps (a ∷ []) o h = read_flag-keeps a o h
  parse_args-keeps (a ∷ v ∷ rest) o h = elim (Option-cases (read_option atoi a v o)) [
    | inr (p, e) ↦
        rw (parse_args, e) (parse_args-keeps rest p (rw e at (read_option-keeps a v o h)))
    | inl e ↦ elim (Option-cases (read_flag a o)) [
      | inr (p, f) ↦
          rw (parse_args, e, f) (parse_args-keeps (v ∷ rest) p (rw f at (read_flag-keeps a o h)))
      | inl f ↦ rw (parse_args, e, f) refl
    ]
  ]

  -- Whatever the arguments are and whatever atoi makes of them, if they are read, both sampling periods and
  -- the number of frames are positive.
  pub parse_args-IsUsable :
      (args : List Bytes) (o : Options) → parse_args atoi args default_options ≡ some o → IsUsable o
  parse_args-IsUsable args o e =
      keeps-IsUsable o (rw e at (parse_args-keeps args default_options refl))

  flag_is_no_option :
      (a v : Bytes) (o p : Options) → read_flag a o ≡ some p → read_option atoi a v o ≡ none
  flag_is_no_option a v o p h = elim (Bool-cases (same_text a (codes "--no-stacks"))) [
    | inl e ↦ rw (same_text-eq a _ e) (unfold read_option in refl)
    | inr f ↦ elim (Bool-cases (same_text a (codes "--no-symbolize"))) [
      | inl e ↦ rw (same_text-eq a _ e) (unfold read_option in refl)
      | inr g ↦ absurd (unfold read_flag in ground arith)
    ]
  ]

  -- Arguments that are read can be followed by others, which go on from what the first have set.
  pub parse_args-append :
      (l m : List Bytes) (o p : Options)
      → parse_args atoi l o ≡ some p
      → parse_args atoi (l ++ m) o ≡ parse_args atoi m p
  unfolding parse_args
  parse_args-append [] m o p h = ap (parse_args atoi m) (some-inj h)
  parse_args-append (a ∷ []) [] o p h = h
  parse_args-append (a ∷ []) (v ∷ m) o p h = rw (parse_args, flag_is_no_option a v o p h, h) refl
  parse_args-append (a ∷ v ∷ l) m o p h = elim (Option-cases (read_option atoi a v o)) [
    | inr (q, e) ↦ rw (parse_args, e) (parse_args-append l m q p (rw (parse_args, e) at h))
    | inl e ↦ elim (Option-cases (read_flag a o)) [
      | inr (q, f) ↦
          rw (parse_args, e, f) (parse_args-append (v ∷ l) m q p (rw (parse_args, e, f) at h))
      | inl f ↦ absurd (none_is_not_some p (rw (parse_args, e, f) at h))
    ]
  ]

-- The values that an int has.
abbrev pub IsInt : ℤ → Type 0
IsInt (pos n) = n < 2 ^ 31
IsInt (negsuc n) = n < 2 ^ 31

-- For usable options whose periods are ints, the probes sample with the periods of the options, never with the
-- replacement for a period of 0.
pub sample_period-gpu_cfg :
    (o : Options)
    → IsUsable o
    → IsInt o.sample_period_async
    → IsInt o.sample_period_sync
    → (pos (sample_period (gpu_cfg o) cuda_ev_flag_async) ≡ o.sample_period_async)
      × (pos (sample_period (gpu_cfg o) 0) ≡ o.sample_period_sync)
unfolding sample_period
sample_period-gpu_cfg o u ia is =
    (go o.sample_period_async u.async_ok ia, go o.sample_period_sync u.sync_ok is)
  where
    go : (n : ℤ) → nonpos n ≡ false → IsInt n → pos (if word32 n == 0 then 1 else word32 n) ≡ n
    go (pos n) h i = ap pos (ground arith)
    go (negsuc n) h i = cc
