-- ===== src/Graph.antt =====
-- src/causalops/graph.py: the state of an investigation, its nodes and the machine that they make up.
pub mod State
pub mod Asking
pub mod Investigate
pub mod DispatchTool
pub mod FinalAssessment
pub mod Escalation
pub mod Report
pub mod Inversion
pub mod Machine
