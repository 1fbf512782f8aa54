-- ===== src/Reasoning/Validation/Acceptance.antt =====
-- What a plan must be for `validate_plan` to accept it.
use sanuvia_reasoning_engine.Prelude.{
  inl, inr, arith, String, ◌≡◌, refl, ◌↔◌, true, false, some, map,
}
use sanuvia_reasoning_engine.Prelude.Tests.{
  string_eq, nat_eq, pair_eq, Bool-cases, Option-cases, ◌==◌,
}
use sanuvia_reasoning_engine.Prelude.Lists.{In, Distinct}
use sanuvia_reasoning_engine.Prelude.Dict.{Dict, get, has, keys}
use sanuvia_reasoning_engine.Domain.Errors.{ok}
use sanuvia_reasoning_engine.Domain.Evidence.{EvidenceRecord, SourceObservationRef}
use sanuvia_reasoning_engine.Domain.Dependency.{DependencyEdge, diverges_with}
use sanuvia_reasoning_engine.Reasoning.Ports.{Bearing, CandidateProposal}
use sanuvia_reasoning_engine.Reasoning.Statement.{Unicode}
use sanuvia_reasoning_engine.Reasoning.Validation.{Stored, check_observation, validate_plan}
use sanuvia_reasoning_engine.Reasoning.Validation.Plan.{AppraisedObservation, RevisionPlan}
use sanuvia_reasoning_engine.Reasoning.Validation.Loops.{Passes, Passes-seq, each, each_iff}
use sanuvia_reasoning_engine.Reasoning.Validation.Responses.{
  proposal_key, check_1_handles_resolve, check_2_duplicates_and_conflicts,
  check_3_duplicate_proposals, check_3a_adjudication_order,
}
use sanuvia_reasoning_engine.Reasoning.Validation.Lineages.{
  check_4_targets_eligible, check_5_local_refs_not_durable,
}
use sanuvia_reasoning_engine.Reasoning.Validation.Standing.{check_9_standing_rules}
use sanuvia_reasoning_engine.Reasoning.Validation.Edges.{
  maps_back, check_7_source_ref_mapping, check_8_edges, check_8a_divergence_endpoints,
  check_8b_disclosure, is_absent, check_11_write_targets_absent,
}
use sanuvia_reasoning_engine.Reasoning.Validation.Resolution.{
  AllResolve, check_1-Passes, NoConflict, check_2-Passes,
}
use sanuvia_reasoning_engine.Reasoning.Validation.Proposals.{check_3-Passes, check_3a-Passes}
use sanuvia_reasoning_engine.Reasoning.Validation.Targets.{
  IsEligible, check_4-Passes, check_5-Passes, DeclaresInversions, check_10-Passes,
}
use sanuvia_reasoning_engine.Reasoning.Validation.Admission.{FollowsStanding, check_9-Passes}
use sanuvia_reasoning_engine.Reasoning.Validation.Divergence.{
  IsSafeDivergence, divergence_checks-Passes,
}

module _ {F : Type 0} where
  -- A source observation that is on record is on record for this very evidence.
  abbrev pub MapsBack : Dict SourceObservationRef String → EvidenceRecord F → Type 0
  MapsBack index rec =
      (ref : SourceObservationRef) (mapped : String)
      → rec.source_ref ≡ some ref
      → get index ref ≡ some mapped
      → mapped ≡ rec.id

  pub maps_back-Passes :
      (index : Dict SourceObservationRef String) (rec : EvidenceRecord F)
      → Passes (maps_back index rec) ↔ MapsBack index rec
  unfolding maps_back
  maps_back-Passes index rec = elim (Option-cases rec.source_ref) [
    | inl e ↦ (λ h ref mapped r g. cc, λ h. ground arith)
    | inr (ref, e) ↦ elim (Option-cases (get index ref)) [
      | inl g ↦ (λ h r mapped er gr. cc, λ h. ground arith)
      | inr (m, g) ↦
          let same = string_eq.beq_iff m rec.id in
          elim (Bool-cases (m == rec.id)) [
            | inl t ↦ (λ h r mapped er gr. ground (arith, same.0 t), λ h. ground arith)
            | inr t ↦ (λ h r mapped er gr. ground arith, λ h. cc (same.1 (h ref m e g)))
          ]
    ]
  ]

  is_absent-Passes :
      (plan : RevisionPlan F) (committed : Dict String (EvidenceRecord F)) (eid : String)
      → Passes (is_absent plan committed eid) ↔ (has committed eid ≡ false)
  unfolding is_absent
  is_absent-Passes plan committed eid = elim (Bool-cases (has committed eid)) [
    | inl t ↦ rw t (λ h. cc, λ h. cc)
    | inr t ↦ rw t (λ h. refl, λ h. refl)
  ]

-- What `validate_plan` asks of one observation of the plan.
pub record ObservationIsValid {F : Type 0} (u : Unicode) (plan : RevisionPlan F) (stored : Stored F)
    (obs : AppraisedObservation) : Type 0 where
  pub resolved : AllResolve obs
  pub no_conflict : NoConflict obs
  pub proposals_differ : Distinct (map (proposal_key u) obs.proposals)
  pub decided : (p : CandidateProposal) → In p obs.proposals → has obs.decisions p.local_ref ≡ true
  pub eligible : (b : Bearing) → In b obs.bearings → IsEligible stored.active_hypotheses obs b
  pub not_durable :
      (p : CandidateProposal)
      → In p obs.proposals
      → ¬ In p.local_ref (keys stored.active_hypotheses)
  pub standing : FollowsStanding obs plan
  pub inversions :
      (p : CandidateProposal)
      → In p obs.proposals
      → DeclaresInversions stored.lineage_stance stored.lineage_key_index obs p

-- What `validate_plan` asks of the plan.
pub record PlanIsValid {F : Type 0} (u : Unicode) (plan : RevisionPlan F) (stored : Stored F)
    : Type 0 where
  pub observations :
      (obs : AppraisedObservation) → In obs plan.appraised → ObservationIsValid u plan stored obs
  pub maps_back :
      (rec : EvidenceRecord F) → In rec plan.admitted → MapsBack stored.source_ref_index rec
  pub divergences :
      (e : DependencyEdge)
      → In e plan.edges
      → e.relation ≡ diverges_with
      → IsSafeDivergence plan stored.committed_evidence stored.space_kind e
  pub absent :
      (eid : String) → In eid plan.intended_evidence_ids → has stored.committed_evidence eid ≡ false

module _ {F : Type 0} (u : Unicode) (plan : RevisionPlan F) (stored : Stored F) where
  check_observation-Passes :
      (obs : AppraisedObservation)
      → Passes (check_observation u plan stored obs) ↔ ObservationIsValid u plan stored obs
  unfolding check_observation
  check_observation-Passes obs =
      let active = stored.active_hypotheses in
      (
        λ h.
            let (h1, r1) = (Passes-seq (check_1_handles_resolve obs) _).0 h in
            let (h2, r2) = (Passes-seq (check_2_duplicates_and_conflicts obs) _).0 r1 in
            let (h3, r3) = (Passes-seq (check_3_duplicate_proposals u obs) _).0 r2 in
            let (h3a, r4) = (Passes-seq (check_3a_adjudication_order obs) _).0 r3 in
            let (h4, r5) = (Passes-seq (check_4_targets_eligible active obs) _).0 r4 in
            let (h5, r6) = (Passes-seq (check_5_local_refs_not_durable active obs) _).0 r5 in
            let (h9, h10) = (Passes-seq (check_9_standing_rules obs plan) _).0 r6 in
            record {
              resolved = (check_1-Passes obs).0 h1;
              no_conflict = (check_2-Passes obs).0 h2;
              proposals_differ = (check_3-Passes u obs).0 h3;
              decided = (check_3a-Passes obs).0 h3a;
              eligible = (check_4-Passes active obs).0 h4;
              not_durable = (check_5-Passes active obs).0 h5;
              standing = (check_9-Passes obs plan).0 h9;
              inversions =
                  (check_10-Passes stored.lineage_stance stored.lineage_key_index obs).0 h10;
            },
        λ v. (Passes-seq (check_1_handles_resolve obs) _).1 (
          (check_1-Passes obs).1 v.resolved,
          (Passes-seq (check_2_duplicates_and_conflicts obs) _).1 (
            (check_2-Passes obs).1 v.no_conflict,
            (Passes-seq (check_3_duplicate_proposals u obs) _).1 (
              (check_3-Passes u obs).1 v.proposals_differ,
              (Passes-seq (check_3a_adjudication_order obs) _).1 (
                (check_3a-Passes obs).1 v.decided,
                (Passes-seq (check_4_targets_eligible active obs) _).1 (
                  (check_4-Passes active obs).1 v.eligible,
                  (Passes-seq (check_5_local_refs_not_durable active obs) _).1 (
                    (check_5-Passes active obs).1 v.not_durable,
                    (Passes-seq (check_9_standing_rules obs plan) _).1 (
                      (check_9-Passes obs plan).1 v.standing,
                      (check_10-Passes stored.lineage_stance stored.lineage_key_index obs).1
                          v.inversions,
                    ),
                  ),
                ),
              ),
            ),
          ),
        ),
      )

  -- The validator accepts a plan exactly when the plan is valid.
  pub validate_plan-accepts : (validate_plan u plan stored ≡ ok tt) ↔ PlanIsValid u plan stored
  unfolding validate_plan check_7_source_ref_mapping check_11_write_targets_absent
  validate_plan-accepts =
      let committed = stored.committed_evidence in
      let kind = stored.space_kind in
      let each_obs =
        each_iff (check_observation u plan stored) (ObservationIsValid u plan stored)
          check_observation-Passes plan.appraised in
      let each_rec =
        each_iff (maps_back stored.source_ref_index) (MapsBack stored.source_ref_index)
          (maps_back-Passes stored.source_ref_index) plan.admitted in
      let each_id =
        each_iff (is_absent plan committed) (λ eid. has committed eid ≡ false)
          (is_absent-Passes plan committed) plan.intended_evidence_ids in
      let edges = divergence_checks-Passes plan committed kind in
      (
        λ h.
            let (ho, r1) =
              (Passes-seq (each (check_observation u plan stored) plan.appraised) _).0 h in
            let (h7, r2) =
              (Passes-seq (check_7_source_ref_mapping plan stored.source_ref_index) _).0 r1 in
            let (h8, r3) = (Passes-seq (check_8_edges plan committed) _).0 r2 in
            let (h8a, r4) = (Passes-seq (check_8a_divergence_endpoints plan committed) _).0 r3 in
            let (h8b, h11) = (Passes-seq (check_8b_disclosure plan committed kind) _).0 r4 in
            record {
              observations = each_obs.0 ho;
              maps_back = each_rec.0 h7;
              divergences = edges.0 (h8, h8a, h8b);
              absent = each_id.0 h11;
            },
        λ v.
            let (h8, h8a, h8b) = edges.1 v.divergences in
            (Passes-seq (each (check_observation u plan stored) plan.appraised) _).1 (
              each_obs.1 v.observations,
              (Passes-seq (check_7_source_ref_mapping plan stored.source_ref_index) _).1 (
                each_rec.1 v.maps_back,
                (Passes-seq (check_8_edges plan committed) _).1 (
                  h8,
                  (Passes-seq (check_8a_divergence_endpoints plan committed) _).1 (
                    h8a,
                    (Passes-seq (check_8b_disclosure plan committed kind) _).1
                        (h8b, each_id.1 v.absent),
                  ),
                ),
              ),
            ),
      )
