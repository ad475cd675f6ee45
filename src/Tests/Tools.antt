-- ===== src/Tests/Tools.antt =====
-- The main functions of src/user on concrete runs.
use local_ai_perf_analysis.CountPackets.Totals.{counting_rounds, total_lines, count_main-totals}
use local_ai_perf_analysis.Prelude.{
  length, ◌≤◌, ◌∷◌, [], Bytes, signed32, ℕ, ◌==◌, if◌then◌else◌, ◌+◌, pos, Bool, true, false, ◌≡◌,
  refl, arith, none, some, codes, inl,
}
use local_ai_perf_analysis.Printf.{show_dec, digit, digits}
use local_ai_perf_analysis.Attach.{CudaFunc, attach_probes}
use local_ai_perf_analysis.Process.{Process, Round}
use local_ai_perf_analysis.Process.Tracking.{IsClean}
use local_ai_perf_analysis.Tests.Output.{cut_print}
use local_ai_perf_analysis.Printf.{show_int}
use local_ai_perf_analysis.Events.{ExecEvent}
use local_ai_perf_analysis.Tests.Collector.{copied}
use local_ai_perf_analysis.TraceExec
use local_ai_perf_analysis.TraceExec.{ExecCalls}
use local_ai_perf_analysis.TraceExec.Runs.{status_of, exec_main_signalled}
use local_ai_perf_analysis.Console.Main
use local_ai_perf_analysis.Console.Main.{CudaCalls, attach_links}
use local_ai_perf_analysis.Console.Main.Runs.{attach_links-attach_probes, cuda_main_returns}
use local_ai_perf_analysis.CountPackets
use local_ai_perf_analysis.CountPackets.{CountRound, CountCalls}
use local_ai_perf_analysis.CountPackets.Runs.{lines_of}

-- Two rounds that find the same event each, then the signal.
abbrev rounds_with : {E : Type 0} → E → ℕ → Round E
rounds_with e i = record { exiting = i == 2; batch = e ∷ []; error = none }

abbrev executed : ExecEvent
executed = record { pid = 77; ppid = 0; uid = 1000; comm = codes "agent"; filename = [] }

abbrev pub exec_calls : ExecCalls
exec_calls = record {
  opens = true;
  loaded = pos 0;
  has_program = true;
  attaches = true;
  has_map = true;
  makes_ring = true;
}

exec_main_signalled_example :
    status_of (TraceExec.main (rounds_with executed) 5 exec_calls) ≡ some 1
exec_main_signalled_example =
    exec_main_signalled (rounds_with executed) 5 1 exec_calls (refl, refl, refl, refl, refl, refl)
      (λ j le. (ground arith, refl)) refl (omega arith)

minus_two : show_int (signed32 4294967294) ≡ codes "-2"
unfolding show_int show_dec digits digit
minus_two = refl

abbrev pub one_missing : CudaFunc → Bool → Bool
one_missing f ret = ret

attach_links-attach_probes_example :
    (attach_links (λ name. true) one_missing Main.cuda_funcs
      ≡ attach_probes (λ name. true) one_missing)
    × (length (attach_links (λ name. true) one_missing Main.cuda_funcs) ≤ 32)
attach_links-attach_probes_example = attach_links-attach_probes (λ name. true) one_missing

abbrev pub cuda_calls : CudaCalls
cuda_calls = record {
  argument = some (codes "/lib/libcudart.so");
  access = λ path. false;
  strdup_works = true;
  opens = true;
  loaded = pos 0;
  finds = λ name. true;
  attaches = one_missing;
  has_map = true;
  makes_ring = true;
}

cuda_main_returns_example :
    (n : ℕ) × (p : Process) × (out : Bytes) × (Main.main cut_print show_dec
        (rounds_with copied)
        5
        cuda_calls
      ≡ some (n, p, out))
    × IsClean p
cuda_main_returns_example =
    cuda_main_returns cut_print show_dec (rounds_with copied) 5 2 cuda_calls (inl refl)
      (omega arith)

-- Seven packets, a failed lookup, nine packets, and the signal.
abbrev counts : ℕ → CountRound
counts i = record { exiting = i == 3; lookup = if i == 1 then none else some (7 + i) }

abbrev count_calls : CountCalls
count_calls = record {
  ifindex = pos 1;
  opens = true;
  loaded = pos 0;
  has_program = true;
  prog_fd = pos 4;
  attached = pos 0;
  map_fd = pos 6;
}

counts_printed : lines_of counts 3 0 ≡ codes "Packets: 7\nPackets: 9\n"
unfolding show_dec digits digit
counts_printed = refl

-- Five packets in the first second and two in the second.
abbrev burst : ℕ → ℕ
burst i = if i == 0 then 5 else 2

count_main-totals_example :
    (p : Process) × (CountPackets.main (counting_rounds burst 2) 9 count_calls
      ≡ some (0, p, total_lines burst 2 0))
count_main-totals_example =
    count_main-totals burst 9 2 count_calls (refl, refl, refl, refl, refl, refl) refl (omega arith)

totals_printed : total_lines burst 2 0 ≡ codes "Packets: 5\nPackets: 7\n"
unfolding show_dec digits digit
totals_printed = refl
