-- ===== src/Reasoning/Validation/Standing.antt =====
-- Check 9: the standing rules of admitted evidence.
use sanuvia_reasoning_engine.Prelude.{
  Bool, true, false, not, ◌&&◌, ◌||◌, Option, none, some, List, [], ◌∷◌,
}
use sanuvia_reasoning_engine.Prelude.Tests.{◌==◌, if◌then◌else◌, string_eq, nat_eq, pair_eq}
use sanuvia_reasoning_engine.Prelude.Lists.{find}
use sanuvia_reasoning_engine.Prelude.Dict.{Dict, get, put}
use sanuvia_reasoning_engine.Domain.Errors.{
  Check, ok, err, ◌>>◌, rejection, evidence_role_violation, account_role_upgrade_violation,
}
use sanuvia_reasoning_engine.Domain.Evidence.{
  EvidenceRecord, EvidenceRole, role_eq, SourceObservationRef, EvidenceStanding, is_appraisable,
}
use sanuvia_reasoning_engine.Reasoning.Validation.Plan.{AppraisedObservation, RevisionPlan}

abbrev pub is_empty {ℓ} : {A : Type ℓ} → List A → Bool
is_empty [] = true
is_empty (x ∷ xs) = false

abbrev both_known :
    Option SourceObservationRef
    → Option EvidenceStanding
    → Option (SourceObservationRef × EvidenceRole)
both_known none st = none
both_known (some ref) none = none
both_known (some ref) (some st) = some (ref, st.role)

-- `by_ref` after a record
abbrev pub next_roles :
    Dict SourceObservationRef EvidenceRole
    → Option (SourceObservationRef × EvidenceRole)
    → Dict SourceObservationRef EvidenceRole
next_roles by_ref none = by_ref
next_roles by_ref (some (ref, role)) = put by_ref ref role

module _ {F : Type 0} where
  -- What the loop does with the role that a source observation was admitted under before.
  unfoldable pub same_role : EvidenceRecord F → EvidenceRole → Option EvidenceRole → Check
  same_role rec role none = ok tt
  same_role rec role (some prior) =
      if prior == role
      then ok tt
      else err (rejection account_role_upgrade_violation (rec.id ∷ []) none)

  abbrev pub ref_and_role : EvidenceRecord F → Option (SourceObservationRef × EvidenceRole)
  ref_and_role rec = both_known rec.source_ref rec.standing

  abbrev pub role_check :
      EvidenceRecord F
      → Dict SourceObservationRef EvidenceRole
      → Option (SourceObservationRef × EvidenceRole)
      → Check
  role_check rec by_ref none = ok tt
  role_check rec by_ref (some (ref, role)) = same_role rec role (get by_ref ref)

  unfoldable pub no_role_upgrade :
      Dict SourceObservationRef EvidenceRole → List (EvidenceRecord F) → Check
  no_role_upgrade by_ref [] = ok tt
  no_role_upgrade by_ref (rec ∷ recs) =
      role_check rec by_ref (ref_and_role rec)
      >> no_role_upgrade (next_roles by_ref (ref_and_role rec)) recs

  unfoldable pub silent : AppraisedObservation → EvidenceRecord F → EvidenceStanding → Check
  silent obs rec st =
      if not (is_appraisable st)
        && (not (is_empty obs.bearings)
            || not (is_empty obs.proposals)
            || not (is_empty obs.divergences))
      then err (rejection evidence_role_violation (rec.id ∷ []) obs.raw_response)
      else ok tt

  unfoldable pub triggers_nothing : AppraisedObservation → Option (EvidenceRecord F) → Check
  triggers_nothing obs none = ok tt
  triggers_nothing obs (some rec) = elim rec.standing [ none ↦ ok tt | some st ↦ silent obs rec st ]

  unfoldable pub check_9_standing_rules : AppraisedObservation → RevisionPlan F → Check
  check_9_standing_rules obs plan =
      no_role_upgrade [] plan.admitted
      >> triggers_nothing obs (find (λ r. r.id == obs.evidence_id) plan.admitted)
