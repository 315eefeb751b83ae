-- ===== src/Lib.antt =====
-- Tee: a service that keeps one shared causal graph of hypotheses and, for each incident, the sets
-- of nodes and edges that were eliminated. Clients merge deltas of nodes and edges into the graph,
-- add tombstones to an incident, and read the main graph or an incident's live view, which is the
-- main graph without what its tombstones remove.
--
-- The parts. A call arrives at `service.rs` as a request of the crate tonic. The handler takes the
-- message out of it, validates it (`schema/validation.rs`) and calls the store (`store/memory.rs`),
-- which converts the messages (`proto_convert.rs`) to the lattices of `domain/` and keeps these in
-- maps. The store's errors become statuses. The messages are those of `proto/tee.proto`.
--
-- Which file models which part (paths from the repository's root):
--   Proto              proto/tee.proto: the messages as the generated Rust types have them, an
--                      enumeration as its number and a message field as an option
--   Domain.Types       src/domain/node_type.rs, src/domain/edge_type.rs
--   Domain.Provenance  src/domain/provenance.rs: equality and order look at source and trigger only
--   Domain.Node        src/domain/node.rs: new, has_conflict, conflict_field, merge, is_bot
--   Domain.Edge        src/domain/edge.rs: EdgeKey with its derived order, EdgeLattice
--   Convert            src/proto_convert.rs: both directions
--   Validation         src/schema/validation.rs: one function per validator, in the order of its tests
--   Store.State        src/store/mod.rs and the structs of src/store/memory.rs
--   Store.Interface    the trait Store of src/store/mod.rs, with the in-memory store as its instance
--   Store.Hypothesis   merge_hypothesis of src/store/memory.rs, its two loops and their bodies
--   Store.Incidents    create_incident, get_incident_context
--   Store.Tombstones   merge_node_tombstones, merge_edge_tombstones, get_tombstones
--   Store.Views        get_live_view, get_main_graph
--   Service.Handlers   src/service.rs: the eight handlers and the two error mappings
--   Service.Server     the running server, as sequences of calls
--   Domain.Graph       src/domain/graph.rs: NodeMap and EdgeMap
--   Reference          a store with the data and the merge rules of README.md ("Data Types", "Node
--                      Property Merge Semantics", "API"): partial maps from identities to entries
--                      and events, without orders, lattices or representations of sets
--   Refinement         store/memory.rs and service.rs against Reference: `view` is what a state of
--                      the store is as a graph of Reference. Refinement.Fates describes the answer
--                      of merge_hypothesis without the store: what becomes of each node and edge
--   Examples.Tests     the unit tests of src/domain, src/schema/validation.rs, src/proto_convert.rs
--                      and src/store/memory.rs, each under its own name, run on the model
--
-- Reference is not README.md's store in all. Where the two differ it does as the code does: a call that
-- fails half-way keeps what it wrote (README.md: a transaction), a conflict of a node is listed in the
-- answer (README.md: an error), a new node has the flag hypothetical of the message (README.md: true),
-- and a tombstone has no provenance (README.md: it is stored). It shares with the code the validators,
-- the conversions of types with the text of their errors, the ids of edges in answers and the casts of
-- the clock, so that a comparison with it is no check of these. The merges, the reports and the
-- statuses of failures it states itself.
--
-- The children of a module hold its proofs and are named for what they prove. Base holds shared
-- notation, tests, orders, machine integers and loops. Collections holds BTreeSet and BTreeMap of the
-- standard library as ordered lists; a set may hold elements that compare equal and differ, so insert
-- (which keeps the old one), replace and collect (which keeps the last) are told apart. Examples
-- instantiates the parameters and applies the theorems to concrete stores and requests.
--
-- State. A method that writes takes the state and returns the state it leaves behind with its result,
-- also where it fails half-way: nothing is rolled back. The store's lock is held for the whole of each
-- method, so a method is one step and concurrent calls are some sequence of steps. The `?` operator
-- is a bind of results or a case on one; a for loop is a recursion on its list. A write through
-- `get_mut` is an insert under the key that was found.
--
-- Parameters. Lattices stands for the crate lattices: Conflict, Min, SetUnion and MapUnion with their
-- constructors, what they reveal, and their merges as joins, the first three of which report a change.
-- The merge of maps is described for values above the bottom only. Runtime stands for requests,
-- responses and statuses of the crate tonic and for the quoting of a text by the formatter.
-- Examples.Model instantiates both. The clock is an argument of create_incident: the time since the
-- epoch, or none where the clock stands before it.
--
-- Fuel. The only function on fuel prints a number in decimal (Base.Int): the fuel is the number
-- itself plus one, and each step divides it by ten. All other recursions are on lists.
--
-- Not modelled: the start of the process and its configuration (src/main.rs, src/config.rs,
-- build.rs), which have no logic of the program's own; the test of Min<bool>::default, which is of
-- the crate alone; the impls of LatticeFrom, which are the identity; hashing of provenance, since no
-- hashed collection is used; poisoned locks and running out of memory.
pub mod Base
pub mod Collections
pub mod Lattices
pub mod Proto
pub mod Domain
pub mod Convert
pub mod Validation
pub mod Store
pub mod Service
pub mod Reference
pub mod Refinement
mod Examples
