-- ===== src/Examples.antt =====
-- Concrete inputs of the modelled code, and what it returns for them.
pub mod Data
mod Plans
mod Adjudications
mod Candidates
mod Stores
mod Lineages
pub mod Engine
mod Scores
mod Units
mod Runs
pub mod Whole
mod Interactions
