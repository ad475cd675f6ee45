-- ===== src/Events.antt =====
-- include/common.h: the operation codes, the flags and the structs that the BPF programs and the
-- user-space tools share. An unsigned field is a number, a signed field an integer; a `char` array is
-- the text before its NUL.
use local_ai_perf_analysis.Prelude.{ℕ, ℤ, Bytes}

-- enum cuda_op_type
pub data CudaOpType : Type 0 where
  malloc free memcpy launch_kernel sync memcpy_async stream_sync : CudaOpType
  stream_create stream_destroy event_record event_sync event_query : CudaOpType
  launch_kernel_ex graph_launch : CudaOpType

-- The value of the enumerator.
abbrev pub op_code : CudaOpType → ℕ
op_code malloc = 1
op_code free = 2
op_code memcpy = 3
op_code launch_kernel = 4
op_code sync = 5
op_code memcpy_async = 6
op_code stream_sync = 7
op_code stream_create = 8
op_code stream_destroy = 9
op_code event_record = 10
op_code event_sync = 11
op_code event_query = 12
op_code launch_kernel_ex = 13
op_code graph_launch = 14

abbrev pub cuda_ev_flag_async : ℕ
cuda_ev_flag_async = 1

abbrev pub cuda_ev_flag_stack_sampled : ℕ
cuda_ev_flag_stack_sampled = 2

-- enum cpu_sched_type
pub data CpuSchedType : Type 0 where
  sched_on sched_off sched_wakeup : CpuSchedType

abbrev pub sched_code : CpuSchedType → ℕ
sched_code sched_on = 1
sched_code sched_off = 2
sched_code sched_wakeup = 3

pub record ExecEvent : Type 0 where
  pub pid : ℕ
  pub ppid : ℕ
  pub uid : ℕ
  pub comm : Bytes
  pub filename : Bytes

pub record CudaEvent : Type 0 where
  pub timestamp : ℕ
  pub duration_ns : ℕ
  pub pid : ℕ
  pub tid : ℕ
  pub op_type : ℕ
  pub size : ℕ
  pub ptr : ℕ
  pub ret_val : ℤ
  pub comm : Bytes
  pub stream_id : ℕ
  pub stack_id : ℤ
  pub flags : ℕ

pub record CudaCallInfo : Type 0 where
  pub timestamp : ℕ
  pub op_type : ℕ
  pub pid : ℕ
  pub size : ℕ
  pub ptr : ℕ
  pub stream_id : ℕ
  pub stack_id : ℤ
  pub flags : ℕ

abbrev pub perf_max_stack_depth : ℕ
perf_max_stack_depth = 127

pub record CpuSchedEvent : Type 0 where
  pub timestamp : ℕ
  pub event_type : ℕ
  pub pid : ℕ
  pub tid : ℕ
  pub cpu : ℕ
  pub prev_state : ℕ
  pub stack_id : ℤ
  pub comm : Bytes
