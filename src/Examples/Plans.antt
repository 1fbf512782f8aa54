-- ===== src/Examples/Plans.antt =====
-- Examples of the complete-plan validator.
use sanuvia_reasoning_engine.Prelude.{◌≡◌, ◌↔◌, refl, some}
use sanuvia_reasoning_engine.Prelude.Lists.{In}
use sanuvia_reasoning_engine.Domain.Errors.{ok}
use sanuvia_reasoning_engine.Domain.Scope.{shared}
use sanuvia_reasoning_engine.Domain.Dependency.{DependencyEdge, diverges_with}
use sanuvia_reasoning_engine.Reasoning.Ports.{CandidateProposal}
use sanuvia_reasoning_engine.Reasoning.Validation.{validate_plan}
use sanuvia_reasoning_engine.Reasoning.Validation.Loops.{Passes, no_repeat}
use sanuvia_reasoning_engine.Reasoning.Validation.Acceptance.{PlanIsValid, validate_plan-accepts}
use sanuvia_reasoning_engine.Reasoning.Validation.Responses.{
  check_2_duplicates_and_conflicts, check_2a_repeated_handle, check_2b_duplicate_pair,
}
use sanuvia_reasoning_engine.Reasoning.Validation.Lineages.{check_10_structural_contradiction}
use sanuvia_reasoning_engine.Reasoning.Validation.Standing.{check_9_standing_rules}
use sanuvia_reasoning_engine.Reasoning.Validation.Edges.{
  check_8_edges, check_8a_divergence_endpoints, check_8b_disclosure,
}
use sanuvia_reasoning_engine.Reasoning.Validation.Resolution.{
  NoConflict, check_2-Passes, check_2b-of_2a,
}
use sanuvia_reasoning_engine.Reasoning.Validation.Targets.{DeclaresInversions, check_10-Passes}
use sanuvia_reasoning_engine.Reasoning.Validation.Admission.{FollowsStanding, check_9-Passes}
use sanuvia_reasoning_engine.Reasoning.Validation.Divergence.{
  IsSafeDivergence, divergence_checks-Passes,
}
use sanuvia_reasoning_engine.Examples.Data.{plain, plan, stored, appraised}

validate_plan-accepts_example :
    (validate_plan plain plan stored ≡ ok tt) ↔ PlanIsValid plain plan stored
validate_plan-accepts_example = validate_plan-accepts plain plan stored

check_2-Passes_example : Passes (check_2_duplicates_and_conflicts appraised) ↔ NoConflict appraised
check_2-Passes_example = check_2-Passes appraised

check_2b-of_2a_example : Passes (check_2b_duplicate_pair appraised)
unfolding check_2a_repeated_handle no_repeat
check_2b-of_2a_example = check_2b-of_2a appraised refl

check_9-Passes_example :
    Passes (check_9_standing_rules appraised plan) ↔ FollowsStanding appraised plan
check_9-Passes_example = check_9-Passes appraised plan

check_10-Passes_example :
    Passes
      (check_10_structural_contradiction stored.lineage_stance stored.lineage_key_index appraised)
    ↔ ((p : CandidateProposal)
        → In p appraised.proposals
        → DeclaresInversions stored.lineage_stance stored.lineage_key_index appraised p)
check_10-Passes_example = check_10-Passes stored.lineage_stance stored.lineage_key_index appraised

divergence_checks-Passes_example :
    (Passes (check_8_edges plan stored.committed_evidence)
      × Passes (check_8a_divergence_endpoints plan stored.committed_evidence)
      × Passes (check_8b_disclosure plan stored.committed_evidence (some shared)))
    ↔ ((e : DependencyEdge)
        → In e plan.edges
        → e.relation ≡ diverges_with
        → IsSafeDivergence plan stored.committed_evidence (some shared) e)
divergence_checks-Passes_example =
    divergence_checks-Passes plan stored.committed_evidence (some shared)
