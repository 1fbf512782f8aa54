-- ===== src/Examples/Interactions.antt =====
-- An example of an interaction over empty stores.
use sanuvia_reasoning_engine.Prelude.{ℕ, refl, Bool, true, false, ◌≡◌, ◌⊎◌, none, List, [], ◌∷◌}
use sanuvia_reasoning_engine.Domain.Cognitive.{engaged}
use sanuvia_reasoning_engine.Domain.Errors.{Error, Result, ok, err}
use sanuvia_reasoning_engine.Domain.Evidence.{EvidenceRecord}
use sanuvia_reasoning_engine.Reasoning.CoreLoop.{InteractionResult}
use sanuvia_reasoning_engine.Reasoning.CoreLoop.Gate.{IsCommitOf}
use sanuvia_reasoning_engine.Reasoning.Revising.Orphans.{HasNoOrphan}
use sanuvia_reasoning_engine.Reasoning.Service.{EvidenceInput, to_records, record_interaction}
use sanuvia_reasoning_engine.Reasoning.Service.Atomic.{record_interaction-IsAtomic}
use sanuvia_reasoning_engine.Support.{Counters}
use sanuvia_reasoning_engine.Examples.Engine.{engine, empty_bundle, reliable}
use sanuvia_reasoning_engine.Examples.Whole.{empty-HasNoOrphan}
use sanuvia_reasoning_engine.Domain.Dependency.{make_edge}
use sanuvia_reasoning_engine.Domain.Evidence.{is_appraisable, make_provenance, make_evidence}
use sanuvia_reasoning_engine.Domain.Hypothesis.{make_signature, make_version, make_hypothesis}
use sanuvia_reasoning_engine.Domain.Prediction.{make_trajectory, make_prediction}
use sanuvia_reasoning_engine.Domain.Revision.{committed, make_entry}
use sanuvia_reasoning_engine.Domain.WorldModel.{make_snapshot}
use sanuvia_reasoning_engine.Reasoning.Handles.{resolve_participant}
use sanuvia_reasoning_engine.Reasoning.Handles.Request.{mint, minted, build_table}
use sanuvia_reasoning_engine.Reasoning.Identity.{decide_inexact, adjudicate}
use sanuvia_reasoning_engine.Reasoning.Revising.{note_trajectory}
use sanuvia_reasoning_engine.Reasoning.Revising.Commit.{commit_plan}
use sanuvia_reasoning_engine.Reasoning.Revising.Decisions.{resolve_signature}
use sanuvia_reasoning_engine.Reasoning.Revising.Ingest.{resolve_bearings, ingest_all}
use sanuvia_reasoning_engine.Reasoning.Revising.Plan.{plan}
use sanuvia_reasoning_engine.Reasoning.Scoring.{
  make_unit, support_after_support, insert_down, sort_down, uncertainty_of,
  aggregate_model_uncertainty,
}
use sanuvia_reasoning_engine.Reasoning.Validation.{check_observation, validate_plan}
use sanuvia_reasoning_engine.Reasoning.Validation.Edges.{
  maps_back, check_7_source_ref_mapping, check_8_edges, check_8a_divergence_endpoints,
  check_8b_disclosure, is_absent, check_11_write_targets_absent,
}
use sanuvia_reasoning_engine.Reasoning.Validation.Lineages.{
  check_4_targets_eligible, is_not_durable, check_5_local_refs_not_durable,
  is_consistent_everywhere, check_10_structural_contradiction,
}
use sanuvia_reasoning_engine.Reasoning.Validation.Loops.{each, no_repeat}
use sanuvia_reasoning_engine.Reasoning.Validation.Responses.{
  check_1_handles_resolve, check_2a_repeated_handle, check_2b_duplicate_pair, group_kinds,
  check_2c_conflicting_kinds, check_2d_local_refs, check_2e_divergence_partners,
  check_2f_bearing_and_match, check_2_duplicates_and_conflicts, no_duplicate_proposal,
  check_3_duplicate_proposals, check_3a_adjudication_order,
}
use sanuvia_reasoning_engine.Reasoning.Validation.Standing.{
  same_role, no_role_upgrade, silent, triggers_nothing, check_9_standing_rules,
}
use sanuvia_reasoning_engine.Stores.Evidence.{add}
use sanuvia_reasoning_engine.Stores.Hypotheses.{pick, scan, list_for_subject}
use sanuvia_reasoning_engine.Stores.Ledger.{append}
use sanuvia_reasoning_engine.Stores.Lineages.{add_lineage}
use sanuvia_reasoning_engine.Stores.WorldModels.{append_model}

-- Ann's account, as it is handed in
abbrev account_input : EvidenceInput ℕ
account_input = record {
  subject_id = reliable.subject_id;
  evidence_class = reliable.evidence_class;
  content = reliable.content;
  source = "journal";
  reliability = reliable.reliability;
  classification_confidence = reliable.classification_confidence;
  provenance_confidence = 1000;
  occurred_at = none;
  acquisition_metadata = [];
  space_id = none;
  actor_id = reliable.actor_id;
  source_ref = reliable.source_ref;
  standing = reliable.standing;
}

record_interaction-IsAtomic_example :
    (((record_interaction engine
          (λ s. engaged)
          (λ n. 5)
          5
          "couple"
          "space:shared:home"
          []
          empty_bundle
          (account_input ∷ [])
          []).0
        ≡ (empty_bundle, []))
      × ((e : Error) × ((record_interaction engine
              (λ s. engaged)
              (λ n. 5)
              5
              "couple"
              "space:shared:home"
              []
              empty_bundle
              (account_input ∷ [])
              []).1
            ≡ err e)))
    ⊎ ((r : InteractionResult ℕ) × ((record_interaction engine
            (λ s. engaged)
            (λ n. 5)
            5
            "couple"
            "space:shared:home"
            []
            empty_bundle
            (account_input ∷ [])
            []).1
          ≡ ok r)
        × ((q : List (EvidenceRecord ℕ) × Counters) × (to_records engine
                (λ n. 5)
                "space:shared:home"
                (account_input ∷ [])
                []
              ≡ ok q)
            × IsCommitOf engine 5 "couple" "space:shared:home" empty_bundle q.0 q.1
                (record_interaction engine
                  (λ s. engaged)
                  (λ n. 5)
                  5
                  "couple"
                  "space:shared:home"
                  []
                  empty_bundle
                  (account_input ∷ [])
                  []).0.0)
        × HasNoOrphan
            (record_interaction engine
              (λ s. engaged)
              (λ n. 5)
              5
              "couple"
              "space:shared:home"
              []
              empty_bundle
              (account_input ∷ [])
              []).0.0)
record_interaction-IsAtomic_example =
    record_interaction-IsAtomic engine (λ s. engaged) (λ n. 5) 5 "couple" "space:shared:home" []
      empty_bundle (account_input ∷ []) [] empty-HasNoOrphan

abbrev is_returned : {A : Type 0} → Result A → Bool
is_returned (ok a) = true
is_returned (err e) = false

-- The interaction returns.
record_interaction_returns :
    is_returned
      (record_interaction engine
        (λ s. engaged)
        (λ n. 5)
        5
        "couple"
        "space:shared:home"
        []
        empty_bundle
        (account_input ∷ [])
        []).1
    ≡ true
unfolding make_edge is_appraisable make_provenance make_evidence make_signature make_version
    make_hypothesis make_trajectory make_prediction committed make_entry make_snapshot
    resolve_participant mint minted build_table decide_inexact adjudicate note_trajectory
    commit_plan resolve_signature resolve_bearings ingest_all plan make_unit support_after_support
    insert_down sort_down uncertainty_of aggregate_model_uncertainty record_interaction
    check_observation validate_plan maps_back check_7_source_ref_mapping check_8_edges
    check_8a_divergence_endpoints check_8b_disclosure is_absent check_11_write_targets_absent
    check_4_targets_eligible is_not_durable check_5_local_refs_not_durable is_consistent_everywhere
    check_10_structural_contradiction each no_repeat check_1_handles_resolve
    check_2a_repeated_handle check_2b_duplicate_pair group_kinds check_2c_conflicting_kinds
    check_2d_local_refs check_2e_divergence_partners check_2f_bearing_and_match
    check_2_duplicates_and_conflicts no_duplicate_proposal check_3_duplicate_proposals
    check_3a_adjudication_order same_role no_role_upgrade silent triggers_nothing
    check_9_standing_rules add pick scan list_for_subject append add_lineage append_model
record_interaction_returns = refl
