-- ===== src/Reasoning/Revising.antt =====
-- The state and the elementary steps of one revision run: `_RevisionRun` of
-- src/sanuvia/application/reasoning/model_revision.py. A step returns the run that it leaves, or raises. `F` is
-- the type of the program's floats and `S` the state of the injected id generator; times are numbers.
pub mod Decisions
pub mod Projection
pub mod Ingest
pub mod Forecast
pub mod Plan
pub mod Commit
pub mod Writes
pub mod Orphans
pub mod Replay
pub mod Steps
pub mod Reread
pub mod Bearings
pub mod Contradictions
pub mod Hold
pub mod Predictions
use Prim.Native.String.{◌++◌ as append_text}
use sanuvia_reasoning_engine.Prelude.{
  ℕ, String, Bool, true, false, ◌&&◌, Option, none, some, List, [], ◌∷◌, ◌++◌,
}
use sanuvia_reasoning_engine.Prelude.Tests.{if◌then◌else◌, string_eq, pair_eq}
use sanuvia_reasoning_engine.Prelude.Lists.{contains}
use sanuvia_reasoning_engine.Prelude.Dict.{Dict, get, put, append_at}
use sanuvia_reasoning_engine.Domain.Errors.{Result, ok, ◌>>=◌}
use sanuvia_reasoning_engine.Domain.Evidence.{EvidenceRecord}
use sanuvia_reasoning_engine.Domain.Hypothesis.{
  Hypothesis, make_hypothesis, HypothesisLineage, StatementVersion, make_version,
  CommitmentSignature, LineageKey,
}
use sanuvia_reasoning_engine.Domain.Dependency.{
  DependencyEdge, DependencyRelation, make_edge, supports, contradicts,
}
use sanuvia_reasoning_engine.Domain.Revision.{
  RevisionEvent, RevisionOutcome, make_event, proposed, strengthen, weaken, contradict,
  AnomalyResolution, AnomalyDisposition, make_resolution, revise, escalate, reject,
}
use sanuvia_reasoning_engine.Domain.Identity.{IdentityDecision, IdentityAdjudication}
use sanuvia_reasoning_engine.Domain.Prediction.{FutureTrajectory}
use sanuvia_reasoning_engine.Reasoning.Ports.{
  CandidateProposal, AppraisalRequest, AppraisalResponse,
}
use sanuvia_reasoning_engine.Reasoning.Statement.{Unicode}
use sanuvia_reasoning_engine.Reasoning.Identity.{LineageView, Resolver}
use sanuvia_reasoning_engine.Reasoning.Scoring.{
  Floats, le, make_unit, clamp_unit, support_after_support, support_after_contradiction,
  ReasoningConfig,
}
use sanuvia_reasoning_engine.Reasoning.Validation.Plan.{AppraisedObservation}

-- What a run uses of the injected dependencies, beside the stores.
pub record Engine (F S : Type 0) : Type 0 where
  pub floats : Floats F
  pub config : ReasoningConfig F
  pub unicode : Unicode
  pub new_id : S → String → String × S
  pub appraise : AppraisalRequest → Result AppraisalResponse
  pub resolver : Option (Resolver F)
  pub should_commit : RevisionEvent → Bool
  pub reasoning_system_id : String

pub record Intent (F : Type 0) : Type 0 where
  pub event : RevisionEvent
  pub record_written : Option (Hypothesis F)

-- What a run reads and never changes. A bundle without one of the optional stores has `none`.
pub record Scene (F : Type 0) : Type 0 where
  pub subject_id : String
  pub from_version : Option String
  pub new_version_id : String
  pub now : ℕ
  pub space_id : String
  pub entering : List (Hypothesis F)
  pub committed_views : Dict LineageKey (List LineageView)
  pub admitted_pool : List (EvidenceRecord F)
  pub existing_divergence_pairs : List (String × String)
  pub stored_lineages : Option (Dict String HypothesisLineage)
  pub stored_versions : Option (Dict String (List StatementVersion))

pub record Run (F S : Type 0) : Type 0 where
  pub ids : S
  pub working : Dict String (Hypothesis F)
  pub traj_hints : Dict String FutureTrajectory
  pub intents : List (Intent F)
  pub anomalies : List AnomalyResolution
  pub edges : List DependencyEdge
  pub in_flight : Dict LineageKey (List LineageView)
  pub lineages : List HypothesisLineage
  pub statement_versions : List StatementVersion
  pub adjudications : List (IdentityAdjudication F)
  pub appraised : List AppraisedObservation
  pub decisions :
      List (IdentityDecision F × (CommitmentSignature × (CandidateProposal × EvidenceRecord F)))
  pub raw_responses : List (String × Option String)

-- `_dedup`, of the groups one after another
unfoldable pub dedup_onto : List String → List String → List String
dedup_onto seen [] = seen
dedup_onto seen (x ∷ xs) = dedup_onto (if contains x seen then seen else seen ++ x ∷ []) xs

unfoldable pub dedup : List String → List String → List String
unfolding dedup_onto
dedup first second = dedup_onto (dedup_onto [] first) second

abbrev pub is_revise : AnomalyDisposition → Bool
is_revise revise = true
is_revise _ = false

module _ {F S : Type 0} (d : Engine F S) (c : Scene F) where
  unfoldable pub hyp_record :
      S
      → String
      → String
      → F
      → List String
      → List String
      → Option String
      → Result (Hypothesis F × S)
  hyp_record ids hypothesis_id statement support supporting contradicting supersedes =
      let (record_id, ids') = d.new_id ids "hyprec" in
      make_unit d.floats (clamp_unit d.floats support) >>= λ value.
      make_hypothesis (record {
        record_id = record_id;
        hypothesis_id = hypothesis_id;
        subject_id = c.subject_id;
        statement = statement;
        support = value;
        supporting_evidence_ids = supporting;
        contradicting_evidence_ids = contradicting;
        evaluated_at_version = c.new_version_id;
        evaluated_at = c.now;
        supersedes_record_id = supersedes;
        space_id = c.space_id;
      })
      >>= λ h. ok (h, ids')

  unfoldable pub proposed_event :
      S → String → RevisionOutcome → String → Option String → Result (RevisionEvent × S)
  proposed_event ids affected outcome evidence_id anomaly_id =
      let (id, ids') = d.new_id ids "rev" in
      make_event (record {
        id = id;
        subject_id = c.subject_id;
        affected_object_id = affected;
        outcome = outcome;
        triggering_evidence_ids = evidence_id ∷ [];
        status = proposed;
        created_at = c.now;
        from_model_version_id = c.from_version;
        to_model_version_id = none;
        anomaly_resolution_id = anomaly_id;
        space_id = c.space_id;
      })
      >>= λ e. ok (e, ids')

  unfoldable pub new_edge : S → String → String → DependencyRelation → Result (DependencyEdge × S)
  new_edge ids frm to relation =
      let (id, ids') = d.new_id ids "dep" in
      make_edge
        (record { id = id; from_ref = frm; to_ref = to; relation = relation; created_at = c.now })
      >>= λ e. ok (e, ids')

  -- `self.working[hid] = record`, then the intent with its event, then the edge from the evidence
  unfoldable pub enter :
      EvidenceRecord F
      → Hypothesis F
      → RevisionOutcome
      → Option String
      → DependencyRelation
      → Run F S
      → Result (Run F S)
  unfolding proposed_event new_edge
  enter evidence h outcome anomaly_id relation r =
      proposed_event r.ids h.hypothesis_id outcome evidence.id anomaly_id >>= λ (event, ids').
      new_edge ids' evidence.id h.hypothesis_id relation >>= λ (edge, ids''). ok (record r {
        ids = ids'';
        working = put r.working h.hypothesis_id h;
        intents = r.intents ++ record { event = event; record_written = some h } ∷ [];
        edges = r.edges ++ edge ∷ [];
      })

  unfoldable pub weaken_hypothesis :
      EvidenceRecord F → Hypothesis F → Option String → Run F S → Result (Run F S)
  unfolding hyp_record enter
  weaken_hypothesis evidence prev anomaly_id r =
      let o = d.floats in
      let new_support =
        support_after_contradiction o prev.support evidence.reliability
          d.config.support_learning_rate in
      let crossed_out =
        le o d.config.established_support_threshold prev.support
        && o.lt new_support d.config.established_support_threshold in
      hyp_record r.ids prev.hypothesis_id prev.statement new_support prev.supporting_evidence_ids
        (dedup prev.contradicting_evidence_ids (evidence.id ∷ [])) (some prev.record_id)
      >>= λ (h, ids').
          enter evidence h (if crossed_out then contradict else weaken) anomaly_id contradicts
            (record r { ids = ids' })

  -- `_strengthen` of a hypothesis that is there
  unfoldable pub strengthen_hypothesis :
      EvidenceRecord F → String → Hypothesis F → Run F S → Result (Run F S)
  unfolding hyp_record enter
  strengthen_hypothesis evidence hid prev r =
      let new_support =
        support_after_support d.floats prev.support evidence.reliability
          d.config.support_learning_rate in
      hyp_record r.ids hid prev.statement new_support
        (dedup prev.supporting_evidence_ids (evidence.id ∷ [])) prev.contradicting_evidence_ids
        (some prev.record_id)
      >>= λ (h, ids'). enter evidence h strengthen none supports (record r { ids = ids' })

  unfoldable pub strengthen_with : EvidenceRecord F → String → Run F S → Result (Run F S)
  unfolding strengthen_hypothesis
  strengthen_with evidence hid r = elim (get r.working hid) [
    | none ↦ ok r
    | some prev ↦
        if contains evidence.id prev.supporting_evidence_ids
        then ok r
        else strengthen_hypothesis evidence hid prev r
  ]

  unfoldable pub disposition_for : F → AnomalyDisposition
  disposition_for reliability =
      if le d.floats d.config.contradiction_revise_reliability reliability
      then revise
      else if le d.floats d.config.contradiction_reject_reliability reliability
      then escalate
      else reject

  -- `_contradict` of an established hypothesis: the anomaly comes first.
  unfoldable pub contradict_established :
      EvidenceRecord F → String → Hypothesis F → Run F S → Result (Run F S)
  unfolding weaken_hypothesis
  contradict_established evidence hid prev r =
      let (anomaly_id, ids') = d.new_id r.ids "anom" in
      make_resolution (record {
        id = anomaly_id;
        subject_id = c.subject_id;
        disposition = disposition_for evidence.reliability;
        triggering_evidence_ids = evidence.id ∷ [];
        created_at = c.now;
        note = append_text "contradiction of established hypothesis " hid;
        space_id = c.space_id;
      })
      >>= λ anomaly.
          let noted = record r { ids = ids'; anomalies = r.anomalies ++ anomaly ∷ [] } in
          if is_revise (disposition_for evidence.reliability)
          then weaken_hypothesis evidence prev (some anomaly.id) noted
          else ok noted

  unfoldable pub contradict_with : EvidenceRecord F → String → Run F S → Result (Run F S)
  unfolding weaken_hypothesis contradict_established
  contradict_with evidence hid r = elim (get r.working hid) [
    | none ↦ ok r
    | some prev ↦
        if le d.floats d.config.established_support_threshold prev.support
        then contradict_established evidence hid prev r
        else weaken_hypothesis evidence prev none r
  ]

-- `_note_trajectory`
unfoldable pub note_trajectory :
    {F S : Type 0} → String → Option FutureTrajectory → Run F S → Run F S
note_trajectory hid none r = r
note_trajectory hid (some t) r = record r { traj_hints = put r.traj_hints hid t }
