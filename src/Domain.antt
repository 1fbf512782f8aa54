-- ===== src/Domain.antt =====
-- The domain objects (src/sanuvia/domain): records with the guards of their `__post_init__`.
pub mod Errors
pub mod Scope
pub mod Evidence
pub mod Hypothesis
pub mod Dependency
pub mod Identity
pub mod Prediction
pub mod Revision
pub mod Inquiry
pub mod WorldModel
pub mod Recognition
pub mod Cognitive
