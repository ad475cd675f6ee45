-- ===== src/Tests.antt =====
-- The theorems applied to concrete inputs, and the program's code evaluated on some.
mod Cuda
mod Sched
mod Sorting
mod Collector
mod Escape
mod Output
mod Timeline
mod Console
mod Options
mod Tools
mod Unified
mod Followed
mod Whole
mod Stacks
mod Terminal
