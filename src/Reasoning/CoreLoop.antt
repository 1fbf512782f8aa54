-- ===== src/Reasoning/CoreLoop.antt =====
-- src/sanuvia/application/reasoning/core_loop.py, on the bundle of the in-memory stores, which keeps the
-- optional stores and the source-reference index. `F` is the type of the program's floats and `S` the state of
-- the injected id generator; times are numbers.
pub mod Gate
use sanuvia_reasoning_engine.Prelude.{
  ℕ, String, Bool, not, ◌&&◌, ◌≡◌, refl, ◌⊎◌, ◌↔◌, inl, inr, Option, none, some, List, [], ◌∷◌, map,
}
use sanuvia_reasoning_engine.Prelude.Tests.{if◌then◌else◌, ◌==◌, string_eq, pair_eq, Bool-cases}
use sanuvia_reasoning_engine.Prelude.Lists.{In, last?}
use sanuvia_reasoning_engine.Prelude.Dict.{Dict, append_at, put, or_empty}
use sanuvia_reasoning_engine.Domain.Cognitive.{
  CognitiveState, distressed, reduced_capacity, unknown, neutral, engaged, AcquisitionStrategy,
  passive, minimal, active, targeted,
}
use sanuvia_reasoning_engine.Domain.Errors.{
  Result, Check, Error, ok, err, ◌>>=◌, ◌>>◌, invariant_violation, ok-injective,
}
use sanuvia_reasoning_engine.Domain.Evidence.{EvidenceRecord}
use sanuvia_reasoning_engine.Domain.Hypothesis.{
  Hypothesis, HypothesisLineage, StatementVersion, LineageKey, lineage_key, Stance, open_stance,
}
use sanuvia_reasoning_engine.Domain.Inquiry.{Inquiry}
use sanuvia_reasoning_engine.Domain.Prediction.{Prediction}
use sanuvia_reasoning_engine.Domain.Recognition.{RecognitionEvent, recognitions_for}
use sanuvia_reasoning_engine.Domain.Revision.{ModelRevisionResult, RevisionLedgerEntry}
use sanuvia_reasoning_engine.Domain.Scope.{space_kind_of}
use sanuvia_reasoning_engine.Domain.WorldModel.{WorldModel}
use sanuvia_reasoning_engine.Stores.Bundle.{Bundle}
use sanuvia_reasoning_engine.Stores.Evidence.{list_for_subject as evidence_for}
use sanuvia_reasoning_engine.Stores.Ledger.{Ledger, read, read_since}
use sanuvia_reasoning_engine.Stores.Lineages.{lineages_for_subject}
use sanuvia_reasoning_engine.Stores.Versions.{Versions, history}
use sanuvia_reasoning_engine.Stores.WorldModels.{get_current_model}
use sanuvia_reasoning_engine.Reasoning.Handles.Request.{by_key_onto}
use sanuvia_reasoning_engine.Reasoning.Scoring.{Floats, sort_down, expected_information_gain}
use sanuvia_reasoning_engine.Reasoning.Validation.{Stored, validate_plan}
use sanuvia_reasoning_engine.Reasoning.Validation.Loops.{
  each, each_iff, Passes, Passes-seq, bind-ok,
}
use sanuvia_reasoning_engine.Reasoning.Validation.Plan.{RevisionPlan}
use sanuvia_reasoning_engine.Reasoning.Revising.{Engine}
use sanuvia_reasoning_engine.Reasoning.Revising.Commit.{Written, commit_plan}
use sanuvia_reasoning_engine.Reasoning.Revising.Plan.{PlannedRevision, plan, entering_hypotheses}
use sanuvia_reasoning_engine.Reasoning.Revising.Writes.{Result-cases}

select_acquisition_strategy : CognitiveState → AcquisitionStrategy
select_acquisition_strategy distressed = passive
select_acquisition_strategy reduced_capacity = minimal
select_acquisition_strategy unknown = minimal
select_acquisition_strategy neutral = active
select_acquisition_strategy engaged = targeted

pub record InteractionResult (F : Type 0) : Type 0 where
  pub subject_id : String
  pub space_id : String
  pub model : Option (WorldModel F)
  pub committed : Bool
  pub ingested_evidence : List (EvidenceRecord F)
  pub model_version_before : Option String
  pub model_uncertainty_before : Option F
  pub competing_hypotheses_before : List (Hypothesis F)
  pub expected_information_gain_before : F
  pub cognitive_state : CognitiveState
  pub acquisition_strategy : AcquisitionStrategy
  pub revision_result : ModelRevisionResult
  pub active_hypotheses : List (Hypothesis F)
  pub predictions : List (Prediction F)
  pub inquiry : Option (Inquiry F)
  pub recognition_events : List RecognitionEvent
  pub revision_events_since_prior : List RevisionLedgerEntry

-- `InteractionResult.model_uncertainty`
abbrev model_uncertainty_of : {F : Type 0} → Option (WorldModel F) → Option F
model_uncertainty_of none = none
model_uncertainty_of (some m) = some m.model_uncertainty

abbrev version_of : {F : Type 0} → Option (WorldModel F) → Option String
version_of none = none
version_of (some m) = some m.model_version_id

-- `prior[-1].sequence_no if prior else -1`: -1 is `none`.
abbrev last_sequence_no : List RevisionLedgerEntry → Option ℕ
last_sequence_no prior = elim (last? prior) [ none ↦ none | some e ↦ some e.sequence_no ]

-- The lineages of a scope by their bounds, and the stance of each one's current statement
abbrev lineage_keys_onto :
    Dict LineageKey (List String) → List HypothesisLineage → Dict LineageKey (List String)
lineage_keys_onto index [] = index
lineage_keys_onto index (l ∷ ls) =
    lineage_keys_onto (append_at index (lineage_key l) l.hypothesis_id) ls

abbrev stance_of : List StatementVersion → Stance
stance_of versions = elim (last? versions) [ none ↦ open_stance | some v ↦ v.stance ]

abbrev stances_onto : Versions → Dict String Stance → List HypothesisLineage → Dict String Stance
stances_onto versions stances [] = stances
stances_onto versions stances (l ∷ ls) =
    stances_onto versions
      (put stances l.hypothesis_id (stance_of (history versions l.hypothesis_id))) ls

rank_by_uncertainty : {F : Type 0} → Floats F → List (Hypothesis F) → List (Hypothesis F)
rank_by_uncertainty {F = F} o = sort_down o (λ (h : Hypothesis F). h.support)

module _ {F : Type 0} (subject space : String) where
  abbrev pub check_owner : EvidenceRecord F → Check
  check_owner e =
      if not (e.subject_id == subject && e.space_id == space)
      then err invariant_violation
      else ok tt

  stored_of : Bundle F → Stored F
  stored_of b =
      let lineages = lineages_for_subject b.lineages subject space in
      record {
        committed_evidence =
            by_key_onto (λ (r : EvidenceRecord F). r.id) [] (evidence_for b.evidence subject space);
        active_hypotheses =
            by_key_onto (λ (h : Hypothesis F). h.hypothesis_id) []
              (entering_hypotheses b.hypotheses subject space);
        lineage_stance = stances_onto b.statement_versions [] lineages;
        lineage_key_index = lineage_keys_onto [] lineages;
        source_ref_index = b.evidence.by_ref;
        space_kind = space_kind_of space;
      }

  abbrev plan_of : PlannedRevision F → RevisionPlan F
  plan_of planned = record {
    subject_id = subject;
    space_id = space;
    admitted = planned.evidence;
    appraised = planned.appraised;
    edges = planned.edges;
    intended_evidence_ids = map (λ (r : EvidenceRecord F). r.id) planned.evidence;
  }

module _ {F S : Type 0} (d : Engine F S) (subject space : String) where
  -- `_validate`
  pub validate : Bundle F → PlannedRevision F → Check
  unfolding stored_of
  validate b planned =
      validate_plan d.unicode (plan_of subject space planned) (stored_of subject space b)

module _ {F S : Type 0} (d : Engine F S) (now : ℕ) (subject space : String) where
  -- What comes before the first write: the ownership gate, the plan and its validation
  pub prepare : Bundle F → List (EvidenceRecord F) → S → Result (PlannedRevision F × S)
  unfolding validate
  prepare b batch ids =
      each (check_owner subject space) batch
      >> (plan d b now subject space batch (get_current_model b.world_models subject space) ids
          >>= λ (planned, ids'). validate d subject space b planned >> ok (planned, ids'))

module _ {F S : Type 0} (d : Engine F S) (current_state : String → CognitiveState)
    (subject space : String) where
  -- What is observed after the writes. `b` and `b'` are the stores before and after.
  unfoldable pub observe :
      Bundle F → Bundle F → List (EvidenceRecord F) → PlannedRevision F → InteractionResult F
  unfolding rank_by_uncertainty select_acquisition_strategy
  observe b b' batch planned =
      let current = get_current_model b.world_models subject space in
      let competing =
        rank_by_uncertainty d.floats (entering_hypotheses b.hypotheses subject space) in
      record {
        subject_id = subject;
        space_id = space;
        model = planned.model;
        committed = planned.is_committed_plan;
        ingested_evidence = batch;
        model_version_before = version_of current;
        model_uncertainty_before = model_uncertainty_of current;
        competing_hypotheses_before = competing;
        expected_information_gain_before =
            expected_information_gain d.floats (map (λ (h : Hypothesis F). h.support) competing);
        cognitive_state = current_state subject;
        acquisition_strategy = select_acquisition_strategy (current_state subject);
        revision_result = planned.result;
        active_hypotheses = entering_hypotheses b'.hypotheses subject space;
        predictions = planned.predictions;
        inquiry = planned.inquiry;
        recognition_events = recognitions_for b'.recognition subject space;
        revision_events_since_prior =
            read_since b'.ledger subject (last_sequence_no (read b.ledger subject space)) space;
      }

  abbrev pub observed :
      Bundle F
      → List (EvidenceRecord F)
      → PlannedRevision F × S
      → Written (Bundle F)
      → Bundle F × Result (InteractionResult F × S)
  observed b batch (planned, ids') (b', ok _) = (b', ok (observe b b' batch planned, ids'))
  observed b batch (planned, ids') (b', err e) = (b', err e)

  abbrev pub finish :
      Bundle F
      → List (EvidenceRecord F)
      → Result (PlannedRevision F × S)
      → Bundle F × Result (InteractionResult F × S)
  finish b batch (err e) = (b, err e)
  finish b batch (ok p) = observed b batch p (commit_plan p.0 b)

module _ {F S : Type 0} (d : Engine F S) (current_state : String → CognitiveState) (now : ℕ)
    (subject space : String) where
  -- The stores that `ingest` leaves, and what it returns or raises
  unfoldable pub ingest_batch :
      Bundle F → List (EvidenceRecord F) → S → Bundle F × Result (InteractionResult F × S)
  unfolding prepare
  ingest_batch b batch ids =
      finish d current_state subject space b batch (prepare d now subject space b batch ids)
