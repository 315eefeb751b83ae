-- ===== src/Examples.antt =====
-- Concrete data: an instance of each parameter, requests, and the theorems at these.
mod Model
mod Data
mod Store
mod Tombstones
mod Graph
mod Service
mod Refinement
mod Composite
mod Tests
