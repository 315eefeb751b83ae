-- ===== src/Collections.antt =====
-- The ordered collections of the standard library that the store and the domain types use.
pub mod BTreeSet
pub mod BTreeMap
