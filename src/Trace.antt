-- ===== src/Trace.antt =====
-- src/main.cpp: the trace loop and what it keeps besides the processor.
pub mod Schedule
pub mod Points
pub mod LoopState
pub mod Session
pub mod Round
pub mod Timers
pub mod Delivery
pub mod Distinct
pub mod Leaves
pub mod Progress
pub mod Requested
pub mod SelfLoop
pub mod Spec
pub mod Accepted
