-- ===== src/Domain.antt =====
-- The domain types of domain/*.rs.
pub mod Types
pub mod Provenance
pub mod Node
pub mod Edge
pub mod Graph
