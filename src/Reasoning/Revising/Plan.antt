-- ===== src/Reasoning/Revising/Plan.antt =====
-- The construction of a plan: `ModelRevisionEngine` of src/sanuvia/application/reasoning/model_revision.py. It
-- writes to no store.
use sanuvia_reasoning_engine.Prelude.{
  ℕ, String, Bool, true, false, Option, none, some, List, [], ◌∷◌, ◌++◌, map,
}
use sanuvia_reasoning_engine.Prelude.Tests.{if◌then◌else◌, string_eq, pair_eq}
use sanuvia_reasoning_engine.Prelude.Lists.{keep, last?}
use sanuvia_reasoning_engine.Prelude.Dict.{Dict, values, append_at, or_empty}
use sanuvia_reasoning_engine.Domain.Errors.{Result, ok, ◌>>=◌}
use sanuvia_reasoning_engine.Domain.Evidence.{EvidenceRecord}
use sanuvia_reasoning_engine.Domain.Hypothesis.{
  Hypothesis, HypothesisLineage, StatementVersion, LineageKey, lineage_key, open_stance,
}
use sanuvia_reasoning_engine.Domain.Dependency.{DependencyEdge, is_diverges_with}
use sanuvia_reasoning_engine.Domain.Identity.{IdentityAdjudication}
use sanuvia_reasoning_engine.Domain.Inquiry.{Inquiry}
use sanuvia_reasoning_engine.Domain.Prediction.{Prediction, FutureTrajectory}
use sanuvia_reasoning_engine.Domain.Revision.{
  RevisionEvent, AnomalyResolution, committed, ModelRevisionResult,
}
use sanuvia_reasoning_engine.Domain.WorldModel.{
  WorldModel, ProvenanceRecord, CurrentModelSnapshot, make_snapshot,
}
use sanuvia_reasoning_engine.Stores.Bundle.{Bundle}
use sanuvia_reasoning_engine.Stores.Evidence.{list_for_subject as evidence_for}
use sanuvia_reasoning_engine.Stores.Hypotheses.{list_for_subject as hypotheses_for}
use sanuvia_reasoning_engine.Stores.Lineages.{lineages_for_subject}
use sanuvia_reasoning_engine.Stores.Predictions.{predictions_for}
use sanuvia_reasoning_engine.Stores.Versions.{Versions, history}
use sanuvia_reasoning_engine.Reasoning.Handles.Request.{by_key_onto}
use sanuvia_reasoning_engine.Reasoning.Identity.{LineageView}
use sanuvia_reasoning_engine.Reasoning.Scoring.{make_unit, aggregate_model_uncertainty}
use sanuvia_reasoning_engine.Reasoning.Validation.Plan.{AppraisedObservation}
use sanuvia_reasoning_engine.Reasoning.Revising.{Engine, Scene, Run, Intent}
use sanuvia_reasoning_engine.Reasoning.Revising.Ingest.{ingest_all}
use sanuvia_reasoning_engine.Reasoning.Revising.Forecast.{
  prior_trajectories, regenerate, first_event, maybe_open_inquiry,
}

pub record PlannedRevision (F : Type 0) : Type 0 where
  pub subject_id : String
  pub space_id : String
  pub evidence : List (EvidenceRecord F)
  pub committed_events : List RevisionEvent
  pub records : List (Hypothesis F)
  pub edges : List DependencyEdge
  pub anomalies : List AnomalyResolution
  pub lineages : List HypothesisLineage
  pub statement_versions : List StatementVersion
  pub adjudications : List (IdentityAdjudication F)
  pub predictions : List (Prediction F)
  pub inquiry : Option (Inquiry F)
  pub provenance : Option ProvenanceRecord
  pub model : Option (WorldModel F)
  pub current_pointer : Option CurrentModelSnapshot
  pub is_committed_plan : Bool
  pub result : ModelRevisionResult
  pub appraised : List AppraisedObservation

-- `_recorded_divergence_pairs`
abbrev recorded_divergence_pairs : List DependencyEdge → List (String × String)
recorded_divergence_pairs [] = []
recorded_divergence_pairs (e ∷ es) =
    let rest = recorded_divergence_pairs es in
    if is_diverges_with e.relation then (e.from_ref, e.to_ref) ∷ rest else rest

-- `_committed_views`
abbrev stored_view_of : Versions → HypothesisLineage → LineageView
stored_view_of versions l = record {
  hypothesis_id = some l.hypothesis_id;
  key = lineage_key l;
  current_stance = elim (last? (history versions l.hypothesis_id)) [
    | none ↦ open_stance
    | some v ↦ v.stance
  ];
  versions = history versions l.hypothesis_id;
  in_flight = false;
  in_flight_statement = none;
  in_flight_signature = none;
}

abbrev committed_views_onto :
    Versions
    → Dict LineageKey (List LineageView)
    → List HypothesisLineage
    → Dict LineageKey (List LineageView)
committed_views_onto versions views [] = views
committed_views_onto versions views (l ∷ ls) =
    committed_views_onto versions (append_at views (lineage_key l) (stored_view_of versions l)) ls

-- The intents that the policy commits
unfoldable pub committed_intents :
    {F : Type 0} → (RevisionEvent → Bool) → List (Intent F) → List (Intent F)
committed_intents {F = F} should_commit intents =
    keep (λ (i : Intent F). should_commit i.event) intents

unfoldable pub records_of : {F : Type 0} → List (Intent F) → List (Hypothesis F)
records_of [] = []
records_of (i ∷ is) = elim i.record_written [ none ↦ records_of is | some h ↦ h ∷ records_of is ]

unfoldable pub commit_events : {F : Type 0} → String → List (Intent F) → Result (List RevisionEvent)
commit_events version [] = ok []
commit_events version (i ∷ is) =
    committed i.event version >>= λ e. commit_events version is >>= λ es. ok (e ∷ es)

module _ {F S : Type 0} (d : Engine F S) (c : Scene F) where
  -- Nothing committed: the model holds.
  unfoldable pub held_plan :
      List (EvidenceRecord F) → Option (WorldModel F) → Run F S → PlannedRevision F
  held_plan batch current_model r = record {
    subject_id = c.subject_id;
    space_id = c.space_id;
    evidence = batch;
    committed_events = [];
    records = [];
    edges = keep (λ (e : DependencyEdge). is_diverges_with e.relation) r.edges;
    anomalies = r.anomalies;
    lineages = r.lineages;
    statement_versions = r.statement_versions;
    adjudications = r.adjudications;
    predictions = [];
    inquiry = none;
    provenance = none;
    model = current_model;
    current_pointer = none;
    is_committed_plan = false;
    result = record {
      subject_id = c.subject_id;
      revision_events = [];
      anomaly_resolutions = r.anomalies;
      new_model_version_id = none;
      space_id = c.space_id;
    };
    appraised = r.appraised;
  }

  abbrev pub working_uncertainty : Run F S → F
  working_uncertainty r =
      aggregate_model_uncertainty d.floats
        (map (λ (h : Hypothesis F). h.support) (values r.working))

  abbrev pub new_pointer : CurrentModelSnapshot
  new_pointer = record {
    subject_id = c.subject_id;
    model_version_id = c.new_version_id;
    committed_at = c.now;
    space_id = c.space_id;
  }

  -- The plan of the committed events and records, with the model that they give
  unfoldable pub committed_plan :
      List (EvidenceRecord F)
      → Dict String FutureTrajectory
      → List RevisionEvent
      → List (Hypothesis F)
      → Run F S
      → Result (PlannedRevision F × S)
  unfolding regenerate maybe_open_inquiry
  committed_plan batch prior events records r =
      let active = values r.working in
      let uncertainty = working_uncertainty r in
      regenerate d c prior active r >>= λ (predictions, r').
      maybe_open_inquiry d c active uncertainty events r'.ids >>= λ (inquiry, ids').
      let (prov_id, ids'') = d.new_id ids' "prov" in
      make_unit d.floats uncertainty >>= λ model_uncertainty.
      make_snapshot new_pointer >>= λ pointer. ok (
        record {
          subject_id = c.subject_id;
          space_id = c.space_id;
          evidence = batch;
          committed_events = events;
          records = records;
          edges = r'.edges;
          anomalies = r'.anomalies;
          lineages = r'.lineages;
          statement_versions = r'.statement_versions;
          adjudications = r'.adjudications;
          predictions = predictions;
          inquiry = inquiry;
          provenance = some (record {
            id = prov_id;
            subject_id = c.subject_id;
            traces_to_evidence_ids = map (λ (e : EvidenceRecord F). e.id) batch;
            traces_to_revision_ids = map (λ (e : RevisionEvent). e.id) events;
            created_at = c.now;
            space_id = c.space_id;
          });
          model = some (record {
            model_version_id = c.new_version_id;
            subject_id = c.subject_id;
            reasoning_system_id = d.reasoning_system_id;
            model_uncertainty = model_uncertainty;
            active_hypothesis_ids = map (λ (h : Hypothesis F). h.hypothesis_id) active;
            active_prediction_ids = map (λ (p : Prediction F). p.id) predictions;
            active_inquiry_ids = elim inquiry [ none ↦ [] | some i ↦ i.id ∷ [] ];
            created_at = c.now;
            created_by_revision_id = first_event events;
            provenance_record_id = some prov_id;
            system_modelling_context = none;
            space_id = c.space_id;
          });
          current_pointer = some pointer;
          is_committed_plan = true;
          result = record {
            subject_id = c.subject_id;
            revision_events = events;
            anomaly_resolutions = r'.anomalies;
            new_model_version_id = some c.new_version_id;
            space_id = c.space_id;
          };
          appraised = r'.appraised;
        },
        ids'',
      )

  abbrev pub or_hold :
      List (EvidenceRecord F)
      → Option (WorldModel F)
      → Dict String FutureTrajectory
      → Run F S
      → List (Intent F)
      → Result (PlannedRevision F × S)
  or_hold batch current_model prior r [] = ok (held_plan batch current_model r, r.ids)
  or_hold batch current_model prior r (i ∷ is) =
      commit_events c.new_version_id (i ∷ is) >>= λ events.
      committed_plan batch prior events (records_of (i ∷ is)) r

  -- What the commit policy makes of a finished run
  unfoldable pub conclude :
      List (EvidenceRecord F)
      → Option (WorldModel F)
      → Dict String FutureTrajectory
      → Run F S
      → Result (PlannedRevision F × S)
  unfolding committed_intents held_plan commit_events committed_plan records_of
  conclude batch current_model prior r =
      or_hold batch current_model prior r (committed_intents d.should_commit r.intents)

-- The hypotheses of a subject; the listing never raises.
abbrev pub entering_hypotheses :
    {F : Type 0} → List (Hypothesis F) → String → String → List (Hypothesis F)
entering_hypotheses records subject space = or_empty (hypotheses_for subject space records)

module _ {F S : Type 0} (d : Engine F S) (b : Bundle F) (now : ℕ) (subject space : String) where
  unfoldable pub scene_of : String → List (EvidenceRecord F) → Option (WorldModel F) → Scene F
  scene_of version batch current_model = record {
    subject_id = subject;
    from_version = elim current_model [ none ↦ none | some m ↦ some m.model_version_id ];
    new_version_id = version;
    now = now;
    space_id = space;
    entering = entering_hypotheses b.hypotheses subject space;
    committed_views =
        committed_views_onto b.statement_versions []
          (lineages_for_subject b.lineages subject space);
    admitted_pool = evidence_for b.evidence subject space ++ batch;
    existing_divergence_pairs = recorded_divergence_pairs b.dependencies;
    stored_lineages = some b.lineages.lineages;
    stored_versions = some b.statement_versions;
  }

  unfoldable pub start_run : S → Run F S
  start_run ids = record {
    ids = ids;
    working =
        by_key_onto (λ (h : Hypothesis F). h.hypothesis_id) []
          (entering_hypotheses b.hypotheses subject space);
    traj_hints = [];
    intents = [];
    anomalies = [];
    edges = [];
    in_flight = [];
    lineages = [];
    statement_versions = [];
    adjudications = [];
    appraised = [];
    decisions = [];
    raw_responses = [];
  }

  unfoldable pub plan :
      List (EvidenceRecord F) → Option (WorldModel F) → S → Result (PlannedRevision F × S)
  unfolding scene_of start_run conclude
  plan batch current_model ids =
      let (version, ids') = d.new_id ids "wm" in
      let c = scene_of version batch current_model in
      ingest_all d c batch (start_run ids') >>= λ r.
      conclude d c batch current_model
        (prior_trajectories [] (or_empty (predictions_for b.predictions subject space))) r
