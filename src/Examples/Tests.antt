-- ===== src/Examples/Tests.antt =====
-- The unit tests of the repository, as programs: each test of the source under its name, and that
-- it passes.
mod Run
mod Node
mod Edge
mod Provenance
mod Graph
mod Validation
mod Convert
mod Store
