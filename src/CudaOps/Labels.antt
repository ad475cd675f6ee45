-- ===== src/CudaOps/Labels.antt =====
-- src/user/unified_trace.c: the names that cuda_op_name and cuda_op_category return, inside a
-- JSON string.
use local_ai_perf_analysis.Prelude.{ℕ, arith, codes}
use local_ai_perf_analysis.Printf.Plain.{PlainText, if-PlainText}
use local_ai_perf_analysis.CudaOps.{cuda_op_name, cuda_op_category}

pub cuda_op_name-PlainText : (op : ℕ) → PlainText (cuda_op_name op)
unfolding cuda_op_name
cuda_op_name-PlainText op = if-PlainText _ (codes "cudaMalloc") _ (omega arith) (
    if-PlainText _ (codes "cudaFree") _ (omega arith) (
      if-PlainText _ (codes "cudaMemcpy") _ (omega arith) (
        if-PlainText _ (codes "cudaLaunchKernel") _ (omega arith) (
          if-PlainText _ (codes "cudaDeviceSynchronize") _ (omega arith) (
            if-PlainText _ (codes "cudaMemcpyAsync") _ (omega arith) (
              if-PlainText _ (codes "cudaStreamSynchronize") _ (omega arith) (
                if-PlainText _ (codes "cudaStreamCreate") _ (omega arith) (
                  if-PlainText _ (codes "cudaStreamDestroy") _ (omega arith) (
                    if-PlainText _ (codes "cudaEventRecord") _ (omega arith) (
                      if-PlainText _ (codes "cudaEventSynchronize") _ (omega arith) (
                        if-PlainText _ (codes "cudaEventQuery") _ (omega arith) (
                          if-PlainText _ (codes "cudaLaunchKernelExC") _ (omega arith) (
                            if-PlainText _ (codes "cudaGraphLaunch") (codes "Unknown") (omega arith)
                              (omega arith))))))))))))))

pub cuda_op_category-PlainText : (op : ℕ) → PlainText (cuda_op_category op)
unfolding cuda_op_category
cuda_op_category-PlainText op = if-PlainText _ (codes "gpu_sync") _ (omega arith) (
    if-PlainText _ (codes "gpu_xfer") _ (omega arith) (
      if-PlainText _ (codes "gpu_compute") _ (omega arith)
        (if-PlainText _ (codes "gpu_mem") (codes "gpu") (omega arith) (omega arith))))
