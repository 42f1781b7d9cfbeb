-- ===== src/Tests.antt =====
-- The theorems at concrete inputs, and runs of the code, by component.
mod Planes
mod Queue
mod Spending
mod Decisions
mod Outbox
mod Samples
mod Checks
mod Slots
mod Calls
mod Store
mod Runs
