-- ===== src/Store.antt =====
-- store/mod.rs and store/memory.rs: the in-memory store. Every method takes the lock for all of
-- its work, so a method is a function from the state to the state and its result; the state that
-- it leaves behind is part of the result also where the method fails.
pub mod State
pub mod Hypothesis
pub mod Incidents
pub mod Tombstones
pub mod Views
pub mod Invariant
pub mod Snapshot
pub mod Growth
pub mod Interface
pub mod Clock
pub mod Composite
