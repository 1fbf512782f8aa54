-- ===== src/Reasoning.antt =====
-- The reasoning core (src/sanuvia/application/reasoning) and the ports that it calls.
pub mod Ports
pub mod Handles
pub mod Statement
pub mod Validation
pub mod Identity
pub mod Candidates
pub mod Scoring
pub mod Revising
pub mod UnitOfWork
pub mod CoreLoop
pub mod Service
