-- ===== src/Chrome/Timeline.antt =====
-- What the trace of src/user/unified_trace.c shows of one thread: the text of an entry for each event, piece by piece.
use local_ai_perf_analysis.Prelude.{
  ◌+◌, ◌%◌, u32_mod, nonneg, ℕ, List, [], ◌∷◌, ◌++◌, ◌≡◌, refl, sub64, ◌==◌, if◌then◌else◌, Bytes,
  codes,
}
use local_ai_perf_analysis.Events.{CpuSchedEvent, sched_code, sched_on, sched_off}
use local_ai_perf_analysis.Sched.{CpuEvents}
use local_ai_perf_analysis.Printf.{FloatPrint, show_dec}
use local_ai_perf_analysis.Stacks.{Tool, emit_stack_json}
use local_ai_perf_analysis.Entry.{stack_part, on_entry, off_entry, wakeup_entry}
use local_ai_perf_analysis.Chrome.{thread_names}

-- The time since which the thread has run, 0 while it does not.
abbrev pub since_after : ℕ → CpuSchedEvent → ℕ
since_after since e =
    if e.event_type == sched_code sched_on
    then e.timestamp
    else if e.event_type == sched_code sched_off
    then 0
    else since

-- Each text behind a comma and a new line.
abbrev pub following : List Bytes → Bytes
following [] = []
following (x ∷ l) = codes ",\n" ++ (x ++ following l)

-- The pieces of a text.
abbrev pub joined : List Bytes → Bytes
joined [] = []
joined (x ∷ l) = x ++ joined l

-- The names of a thread's two rows.
abbrev pub names_text : CpuSchedEvent → Bytes
names_text e = joined (
    codes "    {\"name\": \"thread_name\", \"ph\": \"M\", \"pid\": "
    ∷ show_dec e.pid
    ∷ codes ", \"tid\": "
    ∷ show_dec e.tid
    ∷ codes ", \"args\": {\"name\": \"CPU ["
    ∷ e.comm
    ∷ codes "]\"}},\n    {\"name\": \"thread_name\", \"ph\": \"M\", \"pid\": "
    ∷ show_dec e.pid
    ∷ codes ", \"tid\": "
    ∷ show_dec ((e.tid + 1000000) % u32_mod)
    ∷ codes ", \"args\": {\"name\": \"GPU (CUDA)\"}}"
    ∷ [])

pub thread_names-names_text : (e : CpuSchedEvent) → thread_names e ≡ names_text e
unfolding thread_names
thread_names-names_text e = refl

module _ (P : FloatPrint) (t : Tool) where
  open P use {fixed3}

  -- The begin of an interval, its end, and a wakeup, at a time in the trace.
  abbrev pub begin_text : ℕ → CpuSchedEvent → Bytes
  begin_text ts e = joined (
      codes "    {\"name\": \"On-CPU\", \"cat\": \"cpu\", \"ph\": \"B\", \"ts\": "
      ∷ fixed3 ts
      ∷ codes ", \"pid\": "
      ∷ show_dec e.pid
      ∷ codes ", \"tid\": "
      ∷ show_dec e.tid
      ∷ codes ", \"args\": {\"cpu\": "
      ∷ show_dec e.cpu
      ∷ codes ", \"comm\": \""
      ∷ e.comm
      ∷ codes "\""
      ∷ (if nonneg e.stack_id
          then codes ", \"stack\": " ++ emit_stack_json t e.stack_id e.pid
          else [])
      ∷ codes "}}"
      ∷ [])

  abbrev pub end_text : ℕ → ℕ → CpuSchedEvent → Bytes
  end_text ts passed e = joined (
      codes "    {\"name\": \"On-CPU\", \"cat\": \"cpu\", \"ph\": \"E\", \"ts\": "
      ∷ fixed3 ts
      ∷ codes ", \"pid\": "
      ∷ show_dec e.pid
      ∷ codes ", \"tid\": "
      ∷ show_dec e.tid
      ∷ codes ", \"args\": {\"duration_us\": "
      ∷ fixed3 passed
      ∷ codes ", \"state\": "
      ∷ show_dec e.prev_state
      ∷ codes "}}"
      ∷ [])

  abbrev pub instant_text : ℕ → CpuSchedEvent → Bytes
  instant_text ts e = joined (
      codes "    {\"name\": \"Wakeup\", \"cat\": \"cpu\", \"ph\": \"i\", \"ts\": "
      ∷ fixed3 ts
      ∷ codes ", \"pid\": "
      ∷ show_dec e.pid
      ∷ codes ", \"tid\": "
      ∷ show_dec e.tid
      ∷ codes ", \"s\": \"t\"}"
      ∷ [])

  pub on_entry-begin_text : (ts : ℕ) (e : CpuSchedEvent) → on_entry P t ts e ≡ begin_text ts e
  unfolding on_entry stack_part
  on_entry-begin_text ts e = refl

  pub off_entry-end_text :
      (ts passed : ℕ) (e : CpuSchedEvent) → off_entry P t ts passed e ≡ end_text ts passed e
  unfolding off_entry
  off_entry-end_text ts passed e = refl

  pub wakeup_entry-instant_text :
      (ts : ℕ) (e : CpuSchedEvent) → wakeup_entry P t ts e ≡ instant_text ts e
  unfolding wakeup_entry
  wakeup_entry-instant_text ts e = refl

  -- The entry of an event of a thread that has run since a time.
  abbrev pub entry_of : ℕ → ℕ → CpuSchedEvent → Bytes
  entry_of base since e =
      let ts = sub64 e.timestamp base in
      if e.event_type == sched_code sched_on
      then begin_text ts e
      else if e.event_type == sched_code sched_off
      then end_text ts (sub64 e.timestamp since) e
      else instant_text ts e

  -- One entry for each event.
  abbrev pub timeline : ℕ → ℕ → CpuEvents → List Bytes
  timeline base since [] = []
  timeline base since (e ∷ l) = entry_of base since e ∷ timeline base (since_after since e) l

  -- The two entries that name the thread, and behind them one for each event.
  abbrev pub timeline_text : ℕ → CpuEvents → Bytes
  timeline_text base [] = []
  timeline_text base (e ∷ l) = names_text e ++ following (timeline base 0 (e ∷ l))
