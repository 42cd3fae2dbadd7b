-- ===== src/Topology.antt =====
-- app/backend/ot_demo/modules/topology: network state from a configuration and the current inputs.
pub mod Models
pub mod Graph
pub mod Boundary
pub mod Paths
pub mod Supply
pub mod Calculate
pub mod Evidence
pub mod Links
pub mod Soundness
pub mod Trace
pub mod Supplied
