-- ===== src/Service/Runtime.antt =====
-- What the service takes from the crate `tonic` (requests, responses and statuses) and from the
-- formatter of the standard library (`{:?}` of a text), as a parameter of the development. The
-- laws are the documented ones: a response holds what it was made of, and a status has the code
-- of the function that made it and the message that it was given.
use tee.Base.{◌≡◌, ◌≢◌, String}

pub record Runtime : Type 1 where
  pub Request : Type 0 → Type 0
  pub Response : Type 0 → Type 0
  pub into_inner : {A : Type 0} → Request A → A
  pub response_new : {A : Type 0} → A → Response A
  pub get_ref : {A : Type 0} → Response A → A
  pub get_ref-new : {A : Type 0} (a : A) → get_ref (response_new a) ≡ a
  pub Status : Type 0
  pub Code : Type 0
  pub invalid_argument : String → Status
  pub not_found : String → Status
  pub internal : String → Status
  pub code : Status → Code
  pub message : Status → String
  pub invalid_argument_code : Code
  pub not_found_code : Code
  pub internal_code : Code
  pub code-invalid_argument : (m : String) → code (invalid_argument m) ≡ invalid_argument_code
  pub code-not_found : (m : String) → code (not_found m) ≡ not_found_code
  pub code-internal : (m : String) → code (internal m) ≡ internal_code
  pub message-invalid_argument : (m : String) → message (invalid_argument m) ≡ m
  pub message-not_found : (m : String) → message (not_found m) ≡ m
  pub message-internal : (m : String) → message (internal m) ≡ m
  pub invalid_argument-ne-internal : invalid_argument_code ≢ internal_code
  pub invalid_argument-ne-not_found : invalid_argument_code ≢ not_found_code
  pub not_found-ne-internal : not_found_code ≢ internal_code
  pub debug : String → String
