-- ===== src/Master.antt =====
-- The master: src-cpp/master/master.{h,cc}.
pub mod Chain
pub mod State
pub mod Quiet
pub mod Crash
pub mod Dispatch
pub mod Refinement
