-- ===== src/Tests.antt =====
-- The theorems at concrete inputs.
mod Data
mod Verdicts
mod Queues
mod Approvals
mod Lifecycles
mod Records
mod Orchestrations
mod Archives
