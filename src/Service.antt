-- ===== src/Service.antt =====
-- service.rs: each handler takes the message out of the request, validates it, calls the store and
-- turns an error into a status. A handler is a function from the store's state to the state that
-- it leaves behind and its answer.
pub mod Runtime
pub mod Handlers
pub mod Server
pub mod Invariant
pub mod Growth
pub mod Liveness
pub mod Redelivery
pub mod Errors
pub mod Internal
