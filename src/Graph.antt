-- ===== src/Graph.antt =====
-- internal/store/graph.go: the graph of a project, and the walk from a seed.
pub mod Walk
pub mod Spread
pub mod Query
pub mod Scope
pub mod Level
pub mod Neighbourhood
mod Tests
