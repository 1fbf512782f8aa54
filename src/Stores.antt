-- ===== src/Stores.antt =====
-- The in-memory stores (src/sanuvia/adapters/persistence/in_memory.py), each as a state and its operations.
pub mod Evidence
pub mod Hypotheses
pub mod Ledger
pub mod Lineages
pub mod Versions
pub mod Predictions
pub mod Inquiries
pub mod WorldModels
pub mod Bundle
pub mod Snapshots
