-- ===== src/Gentian.antt =====
-- Trip-based routing of the graph generator: src/gentian/trip_based.rs.
pub mod Times
pub mod Index
pub mod Earliest
pub mod Transfers
pub mod Refine
pub mod Initial
pub mod UTurn
pub mod Pareto
pub mod Edges
pub mod Profile
pub mod RefineAll
mod Examples
