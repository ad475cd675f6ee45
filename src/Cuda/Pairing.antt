-- ===== src/Cuda/Pairing.antt =====
-- src/bpf/trace_cuda.bpf.c: the entry and the return of one call, with the calls of other threads
-- in between, and calls that nest on one thread.
use local_ai_perf_analysis.Prelude.{
  ℕ, ◌+◌, if◌then◌else◌, nonneg, true, List, [], ◌∷◌, ◌++◌, ◌≡◌, refl, ◌∙◌, none, some, arith, ◌≤◌,
  ◌<◌, ◌-◌, All, ==_self, u64_mod, signed32, sym, subst, sub64,
}
use local_ai_perf_analysis.Events.{CudaCallInfo, CudaEvent, CudaOpType, op_code}
use local_ai_perf_analysis.BpfMap.{BpfMap}
use local_ai_perf_analysis.Cuda.{
  CudaTracerCfg, Firing, Kernel, maybe_capture_stack, event_of, pid_of, tid_of,
}
use local_ai_perf_analysis.Cuda.Probes.{Fire, enter, leave, fire, run}
use local_ai_perf_analysis.Cuda.Threads.{
  IsTraced, Foreign, flags_of, size_of, ptr_of, stream_of, call_info, call_info-flags, enter_traced,
  leave_known, leave_unknown, lookup-run-Foreign,
}

-- The event of a call, by its entry and its return, with `n` the counters at the entry.
abbrev pub call_event : CudaTracerCfg → CudaOpType → Firing → Firing → (ℕ → ℕ) → CudaEvent
call_event cfg t e r n =
    let sid = (maybe_capture_stack cfg e (flags_of t) n).0 in
    record {
      timestamp = e.ktime;
      duration_ns = r.ktime - e.ktime;
      pid = pid_of e.pid_tgid;
      tid = tid_of e.pid_tgid;
      op_type = op_code t;
      size = size_of t e;
      ptr = ptr_of t e;
      ret_val = signed32 r.rc;
      comm = r.current_comm;
      stream_id = stream_of t e;
      stack_id = sid;
      flags = flags_of t + (if nonneg sid then 2 else 0);
    }

info_op :
    (cfg : CudaTracerCfg) (t : CudaOpType) (e : Firing) (n : ℕ → ℕ)
    → (call_info cfg t e n).op_type ≡ op_code t
unfolding call_info
info_op cfg t e n = refl

event_of-call_info :
    (cfg : CudaTracerCfg) (t : CudaOpType) (e r : Firing) (n : ℕ → ℕ)
    → r.pid_tgid ≡ e.pid_tgid
    → e.ktime ≤ r.ktime
    → r.ktime < u64_mod
    → event_of r (op_code t) (call_info cfg t e n) ≡ call_event cfg t e r n
unfolding event_of call_info
event_of-call_info cfg t e r n same le lt =
    let took : sub64 r.ktime e.ktime ≡ r.ktime - e.ktime = omega arith in
    rw (call_info-flags t (nonneg (maybe_capture_stack cfg e (flags_of t) n).0), same, took) refl

module _ (B : BpfMap CudaCallInfo) where
  open B use {lookup, delete, accepts, lookup-update, lookup-delete}

  -- The record that a traced entry leaves, after any firings of other threads.
  pub lookup-run_enter :
      (cfg : CudaTracerCfg) (t : CudaOpType) (e : Firing) (between : List Fire) (k : Kernel B)
      → IsTraced cfg e.pid_tgid
      → accepts k.cuda_calls e.pid_tgid ≡ true
      → All (Foreign e.pid_tgid) between
      → lookup (run B cfg (enter t e ∷ between) k).cuda_calls e.pid_tgid
        ≡ some (call_info cfg t e k.stack_sample_counter)
  unfolding run
  lookup-run_enter cfg t e between k traced room foreign =
      lookup-run-Foreign B cfg e.pid_tgid between (fire B cfg (enter t e) k) foreign ∙ stored
    where
      stored :
          lookup (fire B cfg (enter t e) k).cuda_calls e.pid_tgid
          ≡ some (call_info cfg t e k.stack_sample_counter)
      stored = rw (enter_traced B cfg t e k traced, lookup-update, ==_self, room) refl

  -- The return of a traced call, with any probes of other threads in between, submits one event that holds
  -- what the entry saw and the time that passed, and removes the call's record; the entry's record must have
  -- been accepted by the map and the event by the ring buffer, and the clock must not run backwards.
  pub run-call :
      (cfg : CudaTracerCfg) (t : CudaOpType) (e r : Firing) (between : List Fire) (k : Kernel B)
      → IsTraced cfg e.pid_tgid
      → accepts k.cuda_calls e.pid_tgid ≡ true
      → All (Foreign e.pid_tgid) between
      → r.pid_tgid ≡ e.pid_tgid
      → r.room ≡ true
      → e.ktime ≤ r.ktime
      → r.ktime < u64_mod
      → let before = run B cfg (enter t e ∷ between) k in
        let after = fire B cfg (leave t r) before in
        (after.cuda_events ≡ before.cuda_events ++ call_event cfg t e r k.stack_sample_counter ∷ [])
        × (lookup after.cuda_calls e.pid_tgid ≡ none)
  run-call cfg t e r between k traced acc foreign same room le lt =
      rw (done, event_of-call_info cfg t e r k.stack_sample_counter same le lt)
        (refl, rw (lookup-delete, same, ==_self) refl)
    where
      before : Kernel B
      before = run B cfg (enter t e ∷ between) k

      info : CudaCallInfo
      info = call_info cfg t e k.stack_sample_counter

      done : fire B cfg (leave t r) before ≡ record before {
        cuda_calls = delete before.cuda_calls r.pid_tgid;
        cuda_events = before.cuda_events ++ event_of r (op_code t) info ∷ [];
      }
      done =
          leave_known B cfg t r before info
            (rw same (lookup-run_enter cfg t e between k traced acc foreign)) (info_op cfg t e _)
            room

  -- A traced call that starts and returns inside another on the same thread takes over its record: the inner
  -- call gets its event, and the outer return changes nothing.
  pub nested_call_lost :
      (cfg : CudaTracerCfg) (t u : CudaOpType) (e f g h : Firing) (a b c : List Fire) (k : Kernel B)
      → IsTraced cfg e.pid_tgid
      → accepts k.cuda_calls e.pid_tgid ≡ true
      → (f.pid_tgid ≡ e.pid_tgid) × (g.pid_tgid ≡ e.pid_tgid) × (h.pid_tgid ≡ e.pid_tgid)
      → All (Foreign e.pid_tgid) a
      → All (Foreign e.pid_tgid) b
      → All (Foreign e.pid_tgid) c
      → (g.room ≡ true) × (f.ktime ≤ g.ktime) × (g.ktime < u64_mod)
      → let outer = run B cfg (enter t e ∷ a) k in
        let inner = run B cfg (enter u f ∷ b) outer in
        let after = run B cfg (leave u g ∷ c) inner in
        ((fire B cfg (leave u g) inner).cuda_events
          ≡ inner.cuda_events ++ call_event cfg u f g outer.stack_sample_counter ∷ [])
        × (fire B cfg (leave t h) after ≡ after)
  unfolding run
  nested_call_lost cfg t u e f g h a b c k traced acc (sf, sg, sh) ha hb hc (room, le, lt) =
      (submitted.0, leave_unknown B cfg t h _ (rw sh gone))
    where
      outer : Kernel B
      outer = run B cfg (enter t e ∷ a) k

      inner : Kernel B
      inner = run B cfg (enter u f ∷ b) outer

      present : accepts outer.cuda_calls f.pid_tgid ≡ true
      present = rw sf (B.accepts_present _ _ _ (lookup-run_enter cfg t e a k traced acc ha))

      submitted :
          ((fire B cfg (leave u g) inner).cuda_events
            ≡ inner.cuda_events ++ call_event cfg u f g outer.stack_sample_counter ∷ [])
          × (lookup (fire B cfg (leave u g) inner).cuda_calls f.pid_tgid ≡ none)
      submitted =
          run-call cfg u f g b outer (rw sf traced) present (rw sf hb) (sg ∙ sym sf) room le lt

      gone : lookup (run B cfg c (fire B cfg (leave u g) inner)).cuda_calls e.pid_tgid ≡ none
      gone =
          lookup-run-Foreign B cfg e.pid_tgid c (fire B cfg (leave u g) inner) hc
          ∙ subst (λ j. lookup (fire B cfg (leave u g) inner).cuda_calls j ≡ none) sf submitted.1
