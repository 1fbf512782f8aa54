-- ===== src/Reasoning/Validation.antt =====
-- The complete-plan validator (src/sanuvia/application/reasoning/plan_validation.py): `validate_plan`
-- over the checks of the modules below. `F` is the type of the program's floats.
pub mod Plan
pub mod Loops
pub mod Responses
pub mod Lineages
pub mod Standing
pub mod Edges
pub mod Resolution
pub mod Conflicts
pub mod Matches
pub mod Proposals
pub mod Targets
pub mod EdgeRules
pub mod Divergence
pub mod Roles
pub mod Admission
pub mod Acceptance
use sanuvia_reasoning_engine.Prelude.{String, Option, List}
use sanuvia_reasoning_engine.Prelude.Dict.{Dict}
use sanuvia_reasoning_engine.Domain.Errors.{Check, ◌>>◌}
use sanuvia_reasoning_engine.Domain.Scope.{SpaceKind}
use sanuvia_reasoning_engine.Domain.Evidence.{EvidenceRecord, SourceObservationRef}
use sanuvia_reasoning_engine.Domain.Hypothesis.{Hypothesis, Stance, LineageKey}
use sanuvia_reasoning_engine.Reasoning.Statement.{Unicode}
use sanuvia_reasoning_engine.Reasoning.Validation.Plan.{AppraisedObservation, RevisionPlan}
use sanuvia_reasoning_engine.Reasoning.Validation.Loops.{each}
use sanuvia_reasoning_engine.Reasoning.Validation.Responses.{
  check_1_handles_resolve, check_2_duplicates_and_conflicts, check_3_duplicate_proposals,
  check_3a_adjudication_order,
}
use sanuvia_reasoning_engine.Reasoning.Validation.Lineages.{
  check_4_targets_eligible, check_5_local_refs_not_durable, check_10_structural_contradiction,
}
use sanuvia_reasoning_engine.Reasoning.Validation.Standing.{check_9_standing_rules}
use sanuvia_reasoning_engine.Reasoning.Validation.Edges.{
  check_7_source_ref_mapping, check_8_edges, check_8a_divergence_endpoints, check_8b_disclosure,
  check_11_write_targets_absent,
}

-- The keyword arguments of `validate_plan`: what the stores hold.
pub record Stored (F : Type 0) : Type 0 where
  pub committed_evidence : Dict String (EvidenceRecord F)
  pub active_hypotheses : Dict String (Hypothesis F)
  pub lineage_stance : Dict String Stance
  pub lineage_key_index : Dict LineageKey (List String)
  pub source_ref_index : Dict SourceObservationRef String
  pub space_kind : Option SpaceKind

module _ {F : Type 0} (u : Unicode) (plan : RevisionPlan F) (stored : Stored F) where
  unfoldable pub check_observation : AppraisedObservation → Check
  check_observation obs =
      check_1_handles_resolve obs
      >> (check_2_duplicates_and_conflicts obs
          >> (check_3_duplicate_proposals u obs
              >> (check_3a_adjudication_order obs
                  >> (check_4_targets_eligible stored.active_hypotheses obs
                      >> (check_5_local_refs_not_durable stored.active_hypotheses obs
                          >> (check_9_standing_rules obs plan
                              >> check_10_structural_contradiction stored.lineage_stance
                                  stored.lineage_key_index obs))))))

  unfoldable pub validate_plan : Check
  validate_plan =
      each check_observation plan.appraised
      >> (check_7_source_ref_mapping plan stored.source_ref_index
          >> (check_8_edges plan stored.committed_evidence
              >> (check_8a_divergence_endpoints plan stored.committed_evidence
                  >> (check_8b_disclosure plan stored.committed_evidence stored.space_kind
                      >> check_11_write_targets_absent plan stored.committed_evidence))))
