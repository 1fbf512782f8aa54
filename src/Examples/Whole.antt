-- ===== src/Examples/Whole.antt =====
-- An example of a whole plan and of its commit.
use sanuvia_reasoning_engine.Prelude.{
  ℕ, ◌≡◌, refl, true, none, some, [], ◌∷◌, ◌++◌, map, Option, List,
}
use sanuvia_reasoning_engine.Domain.Dependency.{make_edge}
use sanuvia_reasoning_engine.Domain.Errors.{ok}
use sanuvia_reasoning_engine.Domain.Evidence.{is_appraisable}
use sanuvia_reasoning_engine.Domain.Hypothesis.{
  Hypothesis, make_hypothesis, make_signature, make_version,
}
use sanuvia_reasoning_engine.Domain.Prediction.{make_prediction, make_trajectory}
use sanuvia_reasoning_engine.Domain.Revision.{make_event, committed, make_entry}
use sanuvia_reasoning_engine.Domain.WorldModel.{WorldModel, make_snapshot}
use sanuvia_reasoning_engine.Reasoning.Handles.{resolve_participant}
use sanuvia_reasoning_engine.Reasoning.Handles.Request.{build_table, minted, mint}
use sanuvia_reasoning_engine.Reasoning.Identity.{adjudicate, decide_inexact}
use sanuvia_reasoning_engine.Reasoning.Scoring.{
  make_unit, clamp_unit, support_after_support, aggregate_model_uncertainty, uncertainty_of,
  expected_information_gain, gain_of, sort_down, insert_down,
}
use sanuvia_reasoning_engine.Reasoning.Revising.{
  hyp_record, enter, proposed_event, new_edge, note_trajectory,
}
use sanuvia_reasoning_engine.Reasoning.Revising.Decisions.{
  resolve_signature, new_version, found_lineage, apply_decision,
}
use sanuvia_reasoning_engine.Reasoning.Revising.Ingest.{
  resolve_bearings, add_divergences, adjudicate_proposals, interpret, audited, apply_bearings,
  take_response, ingest, ingest_all,
}
use sanuvia_reasoning_engine.Reasoning.Revising.Plan.{
  PlannedRevision, plan, conclude, records_of, committed_intents, held_plan, commit_events,
  committed_plan, scene_of, start_run,
}
use sanuvia_reasoning_engine.Reasoning.Revising.Forecast.{
  regenerate, predict, maybe_open_inquiry, inquire,
}
use sanuvia_reasoning_engine.Reasoning.Revising.Commit.{
  commit_plan, write_semantics, write_evidence, write_anomaly, write_lineage, write_version,
  write_adjudication, write_hypothesis, write_history, write_event, write_edge, write_prediction,
  write_inquiry, write_committed, write_provenance, write_model, write_pointer, write_all,
  after_write, then_write,
}
use sanuvia_reasoning_engine.Reasoning.Revising.Orphans.{
  HasNoOrphan, Recorded, commit_plan-HasNoOrphan,
}
use sanuvia_reasoning_engine.Reasoning.Revising.Reread.{plan-Rereads}
use sanuvia_reasoning_engine.Stores.Evidence.{add}
use sanuvia_reasoning_engine.Stores.Ledger.{append}
use sanuvia_reasoning_engine.Stores.Lineages.{add_lineage}
use sanuvia_reasoning_engine.Stores.Predictions.{add_prediction}
use sanuvia_reasoning_engine.Stores.WorldModels.{append_model, set_current_pointer}
use sanuvia_reasoning_engine.Stores.Hypotheses.{list_for_subject, pick, scan, note}
use sanuvia_reasoning_engine.Stores.Versions.{history, append_version}
use sanuvia_reasoning_engine.Support.{Counters}
use sanuvia_reasoning_engine.Examples.Engine.{
  engine, scene, fresh_run, reliable, empty_bundle, returned_or,
}

-- The plan of Ann's account over empty stores
abbrev planned : PlannedRevision ℕ × Counters
planned =
    returned_or (held_plan engine scene [] none fresh_run, [])
      (plan engine empty_bundle 5 "couple" "space:shared:home" (reliable ∷ []) none [])

planned-ok :
    plan engine empty_bundle 5 "couple" "space:shared:home" (reliable ∷ []) none [] ≡ ok planned
unfolding plan scene_of start_run ingest_all ingest take_response interpret audited resolve_bearings
    add_divergences adjudicate_proposals apply_bearings apply_decision found_lineage new_version
    resolve_signature resolve_participant make_signature make_version is_appraisable build_table
    minted mint adjudicate decide_inexact list_for_subject pick scan note history note_trajectory
    hyp_record enter proposed_event new_edge make_unit clamp_unit support_after_support
    make_hypothesis make_event make_edge conclude committed_intents commit_events committed
    committed_plan records_of regenerate predict make_trajectory make_prediction maybe_open_inquiry
    inquire make_snapshot aggregate_model_uncertainty uncertainty_of expected_information_gain
    gain_of sort_down insert_down
planned-ok = refl

abbrev no_model : WorldModel ℕ
no_model = record {
  model_version_id = "";
  subject_id = "";
  reasoning_system_id = "";
  model_uncertainty = 0;
  active_hypothesis_ids = [];
  active_prediction_ids = [];
  active_inquiry_ids = [];
  created_at = 0;
  created_by_revision_id = none;
  provenance_record_id = none;
  system_modelling_context = none;
  space_id = "";
}

abbrev model_or : Option (WorldModel ℕ) → WorldModel ℕ
model_or none = no_model
model_or (some m) = m

-- The plan commits, and has a model.
planned-commits :
    (planned.0.is_committed_plan ≡ true)
    × (planned.0.model ≡ some (model_or planned.0.model))
    × (map (λ (h : Hypothesis ℕ). h.hypothesis_id) planned.0.records ≡ "hyp-1" ∷ [])
unfolding plan scene_of start_run ingest_all ingest take_response interpret audited resolve_bearings
    add_divergences adjudicate_proposals apply_bearings apply_decision found_lineage new_version
    resolve_signature resolve_participant make_signature make_version is_appraisable build_table
    minted mint adjudicate decide_inexact list_for_subject pick scan note history note_trajectory
    hyp_record enter proposed_event new_edge make_unit clamp_unit support_after_support
    make_hypothesis make_event make_edge conclude committed_intents commit_events committed
    committed_plan records_of regenerate predict make_trajectory make_prediction maybe_open_inquiry
    inquire make_snapshot aggregate_model_uncertainty uncertainty_of expected_information_gain
    gain_of sort_down insert_down
planned-commits = (refl, refl, refl)

plan-Rereads_example :
    (hs : List (Hypothesis ℕ)) × (list_for_subject "couple" "space:shared:home"
        ([] ++ planned.0.records)
      ≡ some hs)
    × ((model_or planned.0.model).active_hypothesis_ids
        ≡ map (λ (h : Hypothesis ℕ). h.hypothesis_id) hs)
plan-Rereads_example =
    plan-Rereads engine empty_bundle 5 "couple" "space:shared:home" (reliable ∷ []) none [] planned
      (model_or planned.0.model) (λ e. refl) planned-ok planned-commits.0 planned-commits.1

pub empty-HasNoOrphan : HasNoOrphan empty_bundle
unfolding history
empty-HasNoOrphan = (λ hid l h. cc, λ hid v m. absurd m)

-- The lineage and the statement of Ann's account are written with its hypothesis.
planned-returns : (commit_plan planned.0 empty_bundle).1 ≡ ok tt
unfolding plan scene_of start_run ingest_all ingest take_response interpret audited resolve_bearings
    add_divergences adjudicate_proposals apply_bearings apply_decision found_lineage new_version
    resolve_signature resolve_participant make_signature make_version is_appraisable build_table
    minted mint adjudicate decide_inexact list_for_subject pick scan note history note_trajectory
    hyp_record enter proposed_event new_edge make_unit clamp_unit support_after_support
    make_hypothesis make_event make_edge conclude committed_intents commit_events committed
    committed_plan records_of regenerate predict make_trajectory make_prediction maybe_open_inquiry
    inquire make_snapshot aggregate_model_uncertainty uncertainty_of expected_information_gain
    gain_of sort_down insert_down commit_plan write_semantics write_evidence write_anomaly
    write_lineage write_version write_adjudication write_hypothesis write_history write_event
    write_edge write_prediction write_inquiry write_committed write_provenance write_model
    write_pointer write_all after_write then_write add add_lineage append_version append
    add_prediction append_model set_current_pointer make_entry
planned-returns = refl

commit_plan-HasNoOrphan_example :
    HasNoOrphan (commit_plan planned.0 empty_bundle).0
    × Recorded planned.0.records (commit_plan planned.0 empty_bundle).0
commit_plan-HasNoOrphan_example =
    commit_plan-HasNoOrphan planned.0 empty_bundle empty-HasNoOrphan planned-returns
