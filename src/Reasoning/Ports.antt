-- ===== src/Reasoning/Ports.antt =====
-- src/sanuvia/application/ports/reasoning.py: what crosses the boundary to an appraiser. Handles and
-- labels are request-scoped texts.
use sanuvia_reasoning_engine.Prelude.{ℕ, String, ◌≡◌, ◌↔◌, arith, true, Option, List}
use sanuvia_reasoning_engine.Prelude.Tests.{Eq, nat_beq}
use sanuvia_reasoning_engine.Domain.Evidence.{EvidenceRole, EvidenceSourceKind, EvidenceSubjectKind}
use sanuvia_reasoning_engine.Domain.Hypothesis.{ClaimClass, Stance}
use sanuvia_reasoning_engine.Domain.Prediction.{FutureTrajectory}

pub record EvidenceStandingView : Type 0 where
  pub role : EvidenceRole
  pub source_kind : EvidenceSourceKind
  pub subject_kind : EvidenceSubjectKind
  pub source : Option String
  pub subject : Option String

-- `subject` is a request-scoped label, not a participant id.
pub record CommitmentSignatureView : Type 0 where
  pub subject : String
  pub attribution : String
  pub claim_class : ClaimClass
  pub stance : Stance
  pub temporal_scope : Option String

pub record ObservationView : Type 0 where
  pub handle : String
  pub content : String
  pub standing : Option EvidenceStandingView

pub record HypothesisView : Type 0 where
  pub handle : String
  pub statement : String
  pub signature : CommitmentSignatureView

pub record EvidenceCandidateView : Type 0 where
  pub handle : String
  pub content : String
  pub standing : EvidenceStandingView

pub data BearingKind : Type 0 where
  supports weakens contradicts unchanged : BearingKind

abbrev bearing_index : BearingKind → ℕ
bearing_index supports = 0
bearing_index weakens = 1
bearing_index contradicts = 2
bearing_index unchanged = 3

pub BearingKind-beq_iff :
    (a b : BearingKind) → (nat_beq (bearing_index a) (bearing_index b) ≡ true) ↔ (a ≡ b)
BearingKind-beq_iff a b = ground arith

instance abbrev pub bearing_eq : Eq BearingKind
bearing_eq = record {
  beq = λ a b. nat_beq (bearing_index a) (bearing_index b);
  beq_iff = BearingKind-beq_iff;
}

pub record Bearing : Type 0 where
  pub target : String
  pub kind : BearingKind

pub record DivergenceProposal : Type 0 where
  pub with_evidence : String
  pub rationale : Option String

pub record CandidateProposal : Type 0 where
  pub local_ref : String
  pub statement : String
  pub signature : CommitmentSignatureView
  pub predicted_trajectory : Option FutureTrajectory

pub record AppraisalResponse : Type 0 where
  pub proposals : List CandidateProposal
  pub bearings : List Bearing
  pub divergences : List DivergenceProposal
  pub raw_response : Option String

pub record AppraisalRequest : Type 0 where
  pub request_id : String
  pub subject_id : String
  pub space_id : String
  pub observation : ObservationView
  pub existing : List HypothesisView
  pub divergence_candidates : List EvidenceCandidateView
  pub participants : List String
  pub observation_id : Option String
