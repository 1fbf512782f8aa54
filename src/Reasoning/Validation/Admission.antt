-- ===== src/Reasoning/Validation/Admission.antt =====
-- What check 9 admits: one role for a source observation, and no operation by a record that is not
-- appraised.
use sanuvia_reasoning_engine.Prelude.{
  ◌≡◌, refl, sym, ap, ◌∙◌, ◌↔◌, inl, inr, true, false, Option, none, some, [], arith,
}
use mathlib.Core.Bool.{false≢true}
use sanuvia_reasoning_engine.Prelude.Tests.{
  string_eq, nat_eq, pair_eq, Bool-cases, Option-cases, ◌==◌,
}
use sanuvia_reasoning_engine.Prelude.Lists.{find}
use sanuvia_reasoning_engine.Domain.Evidence.{
  EvidenceRecord, role_eq, EvidenceStanding, is_appraisable,
}
use sanuvia_reasoning_engine.Reasoning.Validation.Plan.{AppraisedObservation, RevisionPlan}
use sanuvia_reasoning_engine.Reasoning.Validation.Loops.{Passes, Passes-seq}
use sanuvia_reasoning_engine.Reasoning.Validation.Roles.{OneRole, loop-OneRole, OneRole-loop}
use sanuvia_reasoning_engine.Reasoning.Validation.Standing.{
  silent, no_role_upgrade, is_empty, triggers_nothing, check_9_standing_rules,
}

-- The operations of the observation.
abbrev HasNoOperation : AppraisedObservation → Type 0
HasNoOperation obs =
    (is_empty obs.bearings ≡ true)
    × (is_empty obs.proposals ≡ true)
    × (is_empty obs.divergences ≡ true)

module _ {F : Type 0} where
  -- The admitted record that the observation is about, if it is not appraised, triggers nothing.
  abbrev OnlyAppraised : AppraisedObservation → Option (EvidenceRecord F) → Type 0
  OnlyAppraised obs o =
      (rec : EvidenceRecord F) (st : EvidenceStanding)
      → o ≡ some rec
      → rec.standing ≡ some st
      → is_appraisable st ≡ false
      → HasNoOperation obs

  silent-Passes :
      (obs : AppraisedObservation) (rec : EvidenceRecord F) (st : EvidenceStanding)
      → Passes (silent obs rec st) ↔ (is_appraisable st ≡ false → HasNoOperation obs)
  unfolding silent
  silent-Passes obs rec st = elim (Bool-cases (is_appraisable st)) [
    | inl a ↦ rw a (λ h n. absurd (false≢true (sym n)), λ h. refl)
    | inr a ↦ rw a (λ h n. ground arith, λ h. let (p, q, r) = h refl in rw (p, q, r) refl)
  ]

  triggers_nothing-Passes :
      (obs : AppraisedObservation) (o : Option (EvidenceRecord F))
      → Passes (triggers_nothing obs o) ↔ OnlyAppraised obs o
  unfolding triggers_nothing
  triggers_nothing-Passes obs none = (λ h rec st e. cc, λ h. refl)
  triggers_nothing-Passes obs (some rec) = elim (Option-cases rec.standing) [
    | inl n ↦ (λ h r st e s. cc, λ h. ground arith)
    | inr (x, n) ↦
        let q : triggers_nothing obs (some rec) ≡ silent obs rec x = ground arith in
        (
          λ h r st e s.
              let same : x ≡ st = cc in
              λ a. (silent-Passes obs rec x).0 (sym q ∙ h) (ap is_appraisable same ∙ a),
          λ h. q ∙ (silent-Passes obs rec x).1 (h rec x refl n),
        )
  ]

  -- What check 9 asks of the plan, and of the observation.
  abbrev pub FollowsStanding : AppraisedObservation → RevisionPlan F → Type 0
  FollowsStanding obs plan =
      OneRole plan.admitted × OnlyAppraised obs (find (λ r. r.id == obs.evidence_id) plan.admitted)

  -- Check 9 passes exactly when no source observation is admitted under two roles, and an observation whose
  -- role is not appraisable brings no bearing, proposal or divergence.
  pub check_9-Passes :
      (obs : AppraisedObservation) (plan : RevisionPlan F)
      → Passes (check_9_standing_rules obs plan) ↔ FollowsStanding obs plan
  unfolding check_9_standing_rules
  check_9-Passes obs plan =
      let found = find (λ r. r.id == obs.evidence_id) plan.admitted in
      let seq = Passes-seq (no_role_upgrade [] plan.admitted) (triggers_nothing obs found) in
      (
        λ h. (
          loop-OneRole plan.admitted [] (seq.0 h).0,
          (triggers_nothing-Passes obs found).0 (seq.0 h).1,
        ),
        λ (one, only). seq.1 (
          OneRole-loop plan.admitted [] one (λ rec m ref role prior e g. cc),
          (triggers_nothing-Passes obs found).1 only,
        ),
      )
