-- ===== src/Graph.antt =====
-- src/req_tracker/graph: the approved graph and its views.
pub mod Samples
pub mod Memory
pub mod Chain
pub mod Projection
