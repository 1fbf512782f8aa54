-- ===== src/Examples/Data.antt =====
-- The inputs of the examples: one shared space, two participants and their accounts of one event.
use sanuvia_reasoning_engine.Prelude.{ℕ, String, none, some, [], ◌∷◌, false}
use sanuvia_reasoning_engine.Prelude.Tests.{◌==◌, nat_eq}
use sanuvia_reasoning_engine.Domain.Scope.{shared}
use sanuvia_reasoning_engine.Domain.Evidence.{
  EvidenceRecord, account, participant, about_participant, narrative,
}
use sanuvia_reasoning_engine.Domain.Hypothesis.{
  CommitmentSignature, behaviour_pattern, affirms, negates, Hypothesis, Stance,
}
use sanuvia_reasoning_engine.Domain.Dependency.{DependencyEdge, diverges_with}
use sanuvia_reasoning_engine.Domain.Revision.{RevisionEvent, strengthen, committed_status}
use sanuvia_reasoning_engine.Reasoning.Ports.{contradicts, CandidateProposal}
use sanuvia_reasoning_engine.Reasoning.Handles.{HandleTable}
use sanuvia_reasoning_engine.Reasoning.Statement.{Unicode}
use sanuvia_reasoning_engine.Reasoning.Validation.{Stored}
use sanuvia_reasoning_engine.Reasoning.Validation.Plan.{AppraisedObservation, RevisionPlan}
use sanuvia_reasoning_engine.Reasoning.Identity.{LineageView}

-- A space is white space, and case folding is left out.
abbrev pub plain : Unicode
plain = record { is_space = λ c. c == b' '; casefold = λ c. c ∷ [] }

-- An account of Cleo's conduct by the participant `who`.
abbrev account_by : String → String → ℕ → EvidenceRecord ℕ
account_by id who k = record {
  id = id;
  subject_id = "couple";
  evidence_class = narrative;
  content = "Cleo left early";
  provenance = record { source = who; confidence = 1; acquisition_metadata = [] };
  reliability = 1;
  classification_confidence = 1;
  occurred_at = k;
  origin_ref = none;
  space_id = "space:shared:home";
  actor_id = some who;
  source_ref = some ("transcript", (0, k));
  standing = some (record {
    source_kind = participant;
    subject_kind = about_participant;
    role = account;
    source_id = some who;
    subject_id = some "cleo";
  });
}

abbrev pub by_ann : EvidenceRecord ℕ
by_ann = account_by "evidence-1" "ann" 1

abbrev pub by_bob : EvidenceRecord ℕ
by_bob = account_by "evidence-2" "bob" 2

-- "She stays", said of Cleo in Bob's voice, against the lineage `hyp-1` that says she leaves.
abbrev pub proposal : CandidateProposal
proposal = record {
  local_ref = "c1";
  statement = "She stays.";
  signature = record {
    subject = "r1::P1";
    attribution = "bob";
    claim_class = behaviour_pattern;
    stance = negates;
    temporal_scope = none;
  };
  predicted_trajectory = none;
}

abbrev pub signature : CommitmentSignature
signature = record {
  subject = "cleo";
  attribution = "bob";
  claim_class = behaviour_pattern;
  stance = negates;
  temporal_scope = none;
}

abbrev table : HandleTable
table = record {
  request_id = "r1";
  observation = "r1::E0";
  observation_id = "evidence-2";
  divergence_candidates = ("r1::E1", "evidence-1") ∷ [];
  hypotheses = ("r1::H1", "hyp-1") ∷ [];
  participants = ("r1::P1", "cleo") ∷ [];
}

abbrev pub appraised : AppraisedObservation
appraised = record {
  evidence_id = "evidence-2";
  table = table;
  proposals = proposal ∷ [];
  bearings = record { target = "r1::H1"; kind = contradicts } ∷ [];
  divergences = record { with_evidence = "r1::E1"; rationale = none } ∷ [];
  raw_response = none;
  decisions = ("c1", ("DISTINCT_NEW", none)) ∷ [];
}

abbrev pub hypothesis : Hypothesis ℕ
hypothesis = record {
  record_id = "record-1";
  hypothesis_id = "hyp-1";
  subject_id = "couple";
  statement = "She leaves.";
  support = 1;
  supporting_evidence_ids = "evidence-1" ∷ [];
  contradicting_evidence_ids = [];
  evaluated_at_version = "model-1";
  evaluated_at = 1;
  supersedes_record_id = none;
  space_id = "space:shared:home";
}

abbrev pub divergence : DependencyEdge
divergence = record {
  id = "edge-1";
  from_ref = "evidence-1";
  to_ref = "evidence-2";
  relation = diverges_with;
  created_at = 2;
}

-- Bob's account diverges from Ann's, and his proposal contradicts her hypothesis.
abbrev pub plan : RevisionPlan ℕ
plan = record {
  subject_id = "couple";
  space_id = "space:shared:home";
  admitted = by_bob ∷ [];
  appraised = appraised ∷ [];
  edges = divergence ∷ [];
  intended_evidence_ids = "evidence-2" ∷ [];
}

abbrev pub stored : Stored ℕ
stored = record {
  committed_evidence = ("evidence-1", by_ann) ∷ [];
  active_hypotheses = ("hyp-1", hypothesis) ∷ [];
  lineage_stance = ("hyp-1", affirms) ∷ [];
  lineage_key_index = (("cleo", "bob"), "hyp-1" ∷ []) ∷ [];
  source_ref_index = (("transcript", (0, 1)), "evidence-1") ∷ [];
  space_kind = some shared;
}

-- The committed lineage `hyp-1`, of the stance and the statement given.
abbrev pub lineage_of : Stance → String → LineageView
lineage_of stance statement = record {
  hypothesis_id = some "hyp-1";
  key = ("cleo", "bob");
  current_stance = stance;
  versions =
      record {
        id = "version-1";
        hypothesis_id = "hyp-1";
        statement = statement;
        claim_class = behaviour_pattern;
        stance = negates;
        created_at_version = "model-1";
        temporal_scope = none;
        supersedes = none;
      }
      ∷ [];
  in_flight = false;
  in_flight_statement = none;
  in_flight_signature = none;
}

abbrev pub event : RevisionEvent
event = record {
  id = "revision-1";
  subject_id = "couple";
  affected_object_id = "hyp-1";
  outcome = strengthen;
  triggering_evidence_ids = "evidence-1" ∷ [];
  status = committed_status;
  created_at = 1;
  from_model_version_id = none;
  to_model_version_id = some "model-1";
  anomaly_resolution_id = none;
  space_id = "space:shared:home";
}
