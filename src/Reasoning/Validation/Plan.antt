-- ===== src/Reasoning/Validation/Plan.antt =====
-- The plan that is validated. `F` is the type of the program's floats.
use sanuvia_reasoning_engine.Prelude.{String, Option, List}
use sanuvia_reasoning_engine.Prelude.Dict.{Dict}
use sanuvia_reasoning_engine.Domain.Evidence.{EvidenceRecord}
use sanuvia_reasoning_engine.Domain.Dependency.{DependencyEdge}
use sanuvia_reasoning_engine.Reasoning.Ports.{Bearing, CandidateProposal, DivergenceProposal}
use sanuvia_reasoning_engine.Reasoning.Handles.{HandleTable}

-- A decision is the outcome's text and the hypothesis that it names.
pub record AppraisedObservation : Type 0 where
  pub evidence_id : String
  pub table : HandleTable
  pub proposals : List CandidateProposal
  pub bearings : List Bearing
  pub divergences : List DivergenceProposal
  pub raw_response : Option String
  pub decisions : Dict String (String × Option String)

pub record RevisionPlan (F : Type 0) : Type 0 where
  pub subject_id : String
  pub space_id : String
  pub admitted : List (EvidenceRecord F)
  pub appraised : List AppraisedObservation
  pub edges : List DependencyEdge
  pub intended_evidence_ids : List String
