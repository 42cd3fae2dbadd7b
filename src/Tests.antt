-- ===== src/Tests.antt =====
-- Test data, runs of the model, and each theorem with hypotheses at a concrete input.
pub mod Network
pub mod Determination
mod Determined
pub mod Preserved
mod Composite
pub mod Fault
mod Telemetry
mod Topology
mod Outage
mod Restoration
mod Scenario
mod Initialise
mod History
