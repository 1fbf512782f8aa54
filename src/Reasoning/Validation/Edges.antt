-- ===== src/Reasoning/Validation/Edges.antt =====
-- The checks of the whole plan: 7, 8, 8a, 8b and 11.
use sanuvia_reasoning_engine.Prelude.{
  String, Bool, true, false, not, Option, none, some, List, [], ◌∷◌, ◌++◌, map,
}
use sanuvia_reasoning_engine.Prelude.Tests.{
  ◌==◌, if◌then◌else◌, string_eq, nat_eq, pair_eq, option_eq,
}
use sanuvia_reasoning_engine.Prelude.Lists.{find, contains}
use sanuvia_reasoning_engine.Prelude.Text.{text_gt}
use sanuvia_reasoning_engine.Prelude.Dict.{Dict, get, has, keys}
use sanuvia_reasoning_engine.Domain.Errors.{
  Check, Result, Error, ok, err, ◌>>=◌, ◌>>◌, rejection, breach_rejection, commit_atomicity,
  invalid_divergence_plan, source_reference_mapping_failure,
}
use sanuvia_reasoning_engine.Domain.Scope.{SpaceKind, shared, personal}
use sanuvia_reasoning_engine.Domain.Evidence.{
  EvidenceRecord, SourceObservationRef, EvidenceStanding, is_participant_account,
}
use sanuvia_reasoning_engine.Domain.Dependency.{DependencyEdge, is_diverges_with}
use sanuvia_reasoning_engine.Reasoning.Validation.Plan.{RevisionPlan}
use sanuvia_reasoning_engine.Reasoning.Validation.Loops.{each}

-- A check of divergence edges alone: `continue` on the others.
abbrev pub if_divergence : DependencyEdge → Check → Check
if_divergence e c = if is_diverges_with e.relation then c else ok tt

abbrev invalid_divergence : List String → Error
invalid_divergence refs = rejection invalid_divergence_plan refs none

abbrev pub is_shared : SpaceKind → Bool
is_shared shared = true
is_shared personal = false

unfoldable pub is_known_ref : List String → String → Check
is_known_ref known ref = if contains ref known then ok tt else err (invalid_divergence (ref ∷ []))

unfoldable pub is_canonical : DependencyEdge → Check
is_canonical e =
    if text_gt e.from_ref e.to_ref
    then err (invalid_divergence (e.from_ref ∷ e.to_ref ∷ []))
    else ok tt

module _ {F : Type 0} where
  unfoldable pub maps_back : Dict SourceObservationRef String → EvidenceRecord F → Check
  maps_back index rec = elim rec.source_ref [
    | none ↦ ok tt
    | some ref ↦ elim (get index ref) [
      | none ↦ ok tt
      | some mapped ↦
          if mapped == rec.id
          then ok tt
          else err (rejection source_reference_mapping_failure (rec.id ∷ []) none)
    ]
  ]

  unfoldable pub check_7_source_ref_mapping :
      RevisionPlan F → Dict SourceObservationRef String → Check
  check_7_source_ref_mapping plan index = each (maps_back index) plan.admitted

  -- The standing of a participant account, or the rejection.
  unfoldable pub account_standing : EvidenceRecord F → Result EvidenceStanding
  account_standing rec = elim rec.standing [
    | none ↦ err (invalid_divergence (rec.id ∷ []))
    | some st ↦ if is_participant_account st then ok st else err (invalid_divergence (rec.id ∷ []))
  ]

  -- About one subject, and by two participants.
  unfoldable pub differ :
      EvidenceRecord F → EvidenceRecord F → EvidenceStanding → EvidenceStanding → Check
  differ a b sa sb =
      if not (sa.subject_id == sb.subject_id)
      then err (invalid_divergence (a.id ∷ b.id ∷ []))
      else if sa.source_id == sb.source_id
      then err (invalid_divergence (a.id ∷ b.id ∷ []))
      else ok tt

  unfoldable pub comparable : EvidenceRecord F → EvidenceRecord F → Check
  comparable a b = account_standing a >>= λ sa. account_standing b >>= λ sb. differ a b sa sb

module _ {F : Type 0} (plan : RevisionPlan F) (committed : Dict String (EvidenceRecord F)) where
  abbrev pub known_refs : List String
  known_refs = map (λ r. r.id) plan.admitted ++ keys committed

  unfoldable pub check_8_edges : Check
  check_8_edges =
      each
        (λ e.
          if_divergence e
            (is_canonical e >> each (is_known_ref known_refs) (e.from_ref ∷ e.to_ref ∷ [])))
        plan.edges

  unfoldable pub resolve_record : String → Option (EvidenceRecord F)
  resolve_record ref = elim (find (λ r. r.id == ref) plan.admitted) [
    | some rec ↦ some rec
    | none ↦ get committed ref
  ]

  unfoldable pub endpoint : DependencyEdge → String → Result (EvidenceRecord F)
  endpoint e ref = elim (resolve_record ref) [
    | none ↦ err (invalid_divergence (e.from_ref ∷ e.to_ref ∷ []))
    | some rec ↦ ok rec
  ]

  unfoldable pub divergence_endpoints : DependencyEdge → Check
  divergence_endpoints e =
      if e.from_ref == e.to_ref
      then err (invalid_divergence (e.from_ref ∷ []))
      else endpoint e e.from_ref >>= λ a. endpoint e e.to_ref >>= λ b. comparable a b

  unfoldable pub check_8a_divergence_endpoints : Check
  check_8a_divergence_endpoints = each (λ e. if_divergence e (divergence_endpoints e)) plan.edges

  -- D1: the endpoint was admitted to the interaction's space.
  unfoldable pub in_plan_space : String → Check
  in_plan_space ref = elim (resolve_record ref) [
    | none ↦ ok tt
    | some rec ↦
        if rec.space_id == plan.space_id then ok tt else err (invalid_divergence (rec.id ∷ []))
  ]

  unfoldable pub in_shared_space : Option SpaceKind → Check
  in_shared_space none = ok tt
  in_shared_space (some kind) =
      if is_shared kind then ok tt else err (invalid_divergence (plan.space_id ∷ []))

  unfoldable pub check_8b_disclosure : Option SpaceKind → Check
  check_8b_disclosure space_kind =
      each
        (λ e.
          if_divergence e
            (each in_plan_space (e.from_ref ∷ e.to_ref ∷ []) >> in_shared_space space_kind))
        plan.edges

  unfoldable pub is_absent : String → Check
  is_absent eid =
      if has committed eid then err (breach_rejection commit_atomicity (eid ∷ [])) else ok tt

  unfoldable pub check_11_write_targets_absent : Check
  check_11_write_targets_absent = each is_absent plan.intended_evidence_ids
