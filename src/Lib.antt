-- ===== src/Lib.antt =====
-- The eBPF tracer for AI agents: the BPF programs of src/bpf, and the tool src/user/unified_trace.c that
-- collects their events and writes a Chrome trace.
--
-- How the parts interact. The kernel runs the BPF programs: trace_cuda.bpf.c on the entry and the
-- return of each CUDA runtime call, trace_cpu_sched.bpf.c on each context switch and wakeup. They
-- submit events (include/common.h) to ring buffers. unified_trace.c polls both buffers, keeps the events
-- in one array, sorts it with qsort and writes it as JSON, with the stacks that the symbolizer resolves.
-- trace_exec.bpf.c and count_packets.bpf.c are two small tracers with their own tools.
--
-- Which file models what:
--   Events      include/common.h: enums, flags and event structs
--   BpfMap      the kernel's hash map as an interface with laws; BpfMap/Bounded fills it
--   Cuda        src/bpf/trace_cuda.bpf.c: cfg, maybe_capture_stack, record_entry, submit_event; the 28
--               probes are in Cuda/Probes under the names of the source. Cuda/Threads is about what each probe
--               records and about other threads, Cuda/Pairing follows a call from entry to return,
--               Cuda/Submitted is about the events that are submitted already, Cuda/Invariant is what every
--               event satisfies, Cuda/Sampling the stack sampling
--   Sched       src/bpf/trace_cpu_sched.bpf.c: trace_sched_switch, trace_sched_wakeup; Sched/Alternation
--               runs them on the histories that a scheduler may make
--   Exec        src/bpf/trace_exec.bpf.c: trace_execve
--   Packets     src/bpf/count_packets.bpf.c: xdp_count_packets
--   Collector   src/user/unified_trace.c: handle_cpu_event, handle_gpu_event, compare_events and the loop
--               for the smallest timestamp; Collector/Qsort is what the C library promises of qsort,
--               Collector/Rising is about events that arrive in order
--   Escape      src/user/unified_trace.c: json_escape; Escape/Decode is a reader of JSON strings
--   Stacks      src/user/unified_trace.c: read_stack_addrs, emit_stack_json
--   CudaOps     src/user/unified_trace.c: cuda_op_name, cuda_op_category
--   Entry       src/user/unified_trace.c, output_chrome_tracing_json: the text of one entry of each kind
--   Chrome      src/user/unified_trace.c: output_chrome_tracing_json. Chrome/Valid is about the file as
--               JSON, Chrome/Injection about command names that spoil it, Chrome/Durations about the
--               intervals, Chrome/Written about the entries of the CUDA events, Chrome/Rows about the rows of
--               the streams, Chrome/Timeline spells out what the trace shows of one thread, and in Chrome/Balance
--               the tracepoints' events become that text
--   Options     src/user/unified_trace.c, main: the arguments, the library, the configuration of the probes
--   Attach      src/user/unified_trace.c, main: the table of the uprobes and the loop that attaches them
--   Session     src/user/unified_trace.c, main: the events from the ring buffers to the file
--   Process     how the four tools of src/user run: steps that go on, jump to cleanup or return, the resources
--               they take and give back, the polling loop of trace_cuda.c and trace_exec.c. Process/Tracking is
--               about the resources, Process/Returns about a whole main, Process/Polling about the
--               loop, Process/Ready about setups that need certain calls, Process/Ring about a BPF program and
--               its ring buffer behind the loop
--   UnifiedTrace  src/user/unified_trace.c, main as a whole, with the loop that polls both ring buffers
--               (UnifiedTrace/Polling), its calls and resources (UnifiedTrace/Setup), its runs
--               (UnifiedTrace/Runs), the events that reach the file (UnifiedTrace/Delivery) and a thread
--               that --pid follows from the tracepoints to the file (UnifiedTrace/Thread).
--               UnifiedTrace/Config has the constants that main sets in the BPF objects, and UnifiedTrace/Alarm
--               the signals and the alarm that end the loop
--   System      the BPF programs and main of src/user/unified_trace.c together, with ring buffers between them:
--               System/Frame and System/Streams are the steps and the polls, System/Tracer what is submitted against
--               what reaches the file, System/Filter the filter of --pid, and System/Calls follows a CUDA call
--               from its two probes to its entry in the file
--   StackMap    include/maps.h: the shared map of stack traces; StackMap/Table fills the kernel's interface, and
--               StackMap/Resolve follows a stack from its capture to the file
--   Console     src/user/trace_cuda.c: cuda_op_name, the line for an event, the search for the library;
--               Console/Line and Console/Text are about that line, main is in Console/Main,
--               Console/Delivery is about the events that it prints, and Console/Calls follows the CUDA calls
--               from their probes to their lines
--   TraceExec   src/user/trace_exec.c: the line that is printed for an execve, and main; TraceExec/Text
--               and TraceExec/Execves follow the execves from the BPF program to their lines
--   CountPackets  src/user/count_packets.c: cleanup_xdp and main; CountPackets/Totals follows the packets from the
--               XDP program to the lines that are printed
--   Json        a recogniser of JSON texts after RFC 8259, against which the output is checked
--   Printf      the conversions of printf that the tools use; Printf/Plain is about texts on one line
--   Prelude     native numbers, signed integers, lists, machine words and the Boolean tests
--   Tests       the theorems on concrete inputs, and the code evaluated on some
--
-- Representation. A state is a record and a handler a function from the state before to the state
-- after. What the kernel or the C library answers (clock, CPU, registers, stack ids, whether a ring
-- buffer has room, whether calloc or fopen succeed) is an argument. A __u32 or __u64 is a natural
-- number with its wrap-around written out where the source may wrap. A ring buffer is the list of the
-- submitted events, oldest first. A char array is the list of its bytes before the NUL. Each fprintf is
-- the text it appends; the text is built whole instead of streamed. A pointer variable keeps its pointer when
-- the resource is given back, unless the source sets it to NULL, so that a second destructor gives it back
-- again. ring_buffer__poll returns a negative number or the number of the events it has delivered, which is
-- below 2^31.
--
-- Bounds and fuel. All loops are structural recursion over their input, but for the digits of a
-- number, which run on fuel n + 1, as a number has at most that many digits, and for the polling loops.
-- These end only by a signal or an error. Their rounds are an infinite sequence, and they run on fuel, of
-- which any amount beyond a round that ends the loop is enough. The array of events holds
-- 100,000 entries and the table of on-times 10,000,000, as in the source.
--
-- Parameters. The kernel's hash map (BpfMap), qsort (Collector/Qsort), atoi and access (Options), what
-- libbpf finds and can attach (Attach), what the other calls of the main functions return (ExecCalls,
-- CudaCalls, UnifiedCalls, CountCalls) and what each poll delivers (Round, PollRound, CountRound), the
-- conversions of a double by %.3f and %.2f (Printf.FloatPrint, and `millis` of Console), when the signal
-- of alarm arrives (UnifiedTrace/Alarm), the BPF stack map as the kernel fills it (StackMap) and as the
-- tool reads it and the blazesym symbolizer (Stacks.Tool). Each has the behaviour that its documentation
-- gives, and Tests fills each with a concrete one.
--
-- Not modelled. What the calls of libbpf do beyond what they return, messages on standard output other
-- than the lines for the events and the packets and the headings of trace_exec and trace_cuda, the Rust
-- wrapper of blazesym, the mocks, tests and scripts. The recogniser of
-- JSON takes any byte from 0x20 on inside a string, so it does not ask for valid UTF-8; numbers
-- with an exponent are not written by the tool and not accepted. The histories of the scheduler
-- are of one thread at a time; reservations that fail are covered where a theorem says so.
pub mod Prelude
pub mod Events
pub mod BpfMap
pub mod Cuda
pub mod Sched
pub mod Exec
pub mod Packets
pub mod Collector
pub mod Json
pub mod Printf
pub mod Escape
pub mod Stacks
pub mod Chrome
pub mod Attach
pub mod Console
pub mod CountPackets
pub mod CudaOps
pub mod Entry
pub mod Options
pub mod Process
pub mod Session
pub mod StackMap
pub mod System
pub mod TraceExec
pub mod UnifiedTrace
pub mod Tests
