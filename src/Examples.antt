-- ===== src/Examples.antt =====
-- A small store and the theorems at concrete inputs.
mod Data
mod OrderRuns
mod ChainRuns
mod FollowRuns
mod QueueRuns
mod WithdrawalRuns
mod EngineRuns
