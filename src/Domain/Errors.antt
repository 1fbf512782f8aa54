-- ===== src/Domain/Errors.antt =====
-- src/sanuvia/domain/errors.py. A function that may raise returns a `Result`. The message text of an
-- exception is not modelled; every field that code reads is.
use sanuvia_reasoning_engine.Prelude.{
  String, ◌≡◌, Bool, true, false, ◌&&◌, Option, none, some, List, [], arith,
}
use sanuvia_reasoning_engine.Prelude.Tests.{if◌then◌else◌}

pub data GovernedOutcome : Type 0 where
  unknown_evidence_reference unknown_hypothesis_reference : GovernedOutcome
  duplicate_hypothesis_proposal ambiguous_hypothesis_identity : GovernedOutcome
  evidence_role_violation account_role_upgrade_violation : GovernedOutcome
  invalid_contradiction_plan invalid_divergence_plan : GovernedOutcome
  invalid_inquiry_equivalent_options invalid_inquiry_no_revision_path : GovernedOutcome
  statement_capture_failure source_reference_mapping_failure : GovernedOutcome
  non_atomic_revision_plan invalid_appraisal_response : GovernedOutcome

pub data ModelBoundary : Type 0 where
  appraisal identity_resolver : ModelBoundary

pub data BreachKind : Type 0 where
  adjudication_order commit_atomicity : BreachKind

-- The payload of a `GovernedRejection`.
pub record Rejection : Type 0 where
  pub outcome : GovernedOutcome
  pub boundary : Option ModelBoundary
  pub breach_kind : Option BreachKind
  pub references : List String
  pub raw_response : Option String
  pub appraisal_responses : List (String × Option String)
  pub provenance : List (String × String)

-- A `GovernedRejection` or an `InvariantViolation`.
pub data Error : Type 0 where
  rejected : Rejection → Error
  invariant_violation : Error

pub data Result {ℓ} (A : Type ℓ) : Type ℓ where
  ok : A → Result A
  err : Error → Result A

pub ok-injective {ℓ} : {A : Type ℓ} {a b : A} → ok a ≡ ok b → a ≡ b
ok-injective h = ground arith

abbrev pub Check : Type 0
Check = Result (Unit {0})

infixl 5 ◌>>=◌ ◌>>◌
abbrev pub ◌>>=◌ {ℓ κ} : {A : Type ℓ} {B : Type κ} → Result A → (A → Result B) → Result B
ok a >>= f = f a
err e >>= f = err e

abbrev pub ◌>>◌ {ℓ} : {B : Type ℓ} → Check → Result B → Result B
ok _ >> k = k
err e >> k = err e

abbrev is_invalid_appraisal_response : GovernedOutcome → Bool
is_invalid_appraisal_response invalid_appraisal_response = true
is_invalid_appraisal_response _ = false

abbrev is_non_atomic_revision_plan : GovernedOutcome → Bool
is_non_atomic_revision_plan non_atomic_revision_plan = true
is_non_atomic_revision_plan _ = false

abbrev pub is_none {ℓ} : {A : Type ℓ} → Option A → Bool
is_none none = true
is_none (some a) = false

-- `GovernedRejection.__init__`: an outcome whose discriminator is missing is not constructed, and an
-- `InvariantViolation` is raised in its place.
unfoldable pub governed_rejection : Rejection → Error
governed_rejection r =
    if is_invalid_appraisal_response r.outcome && is_none r.boundary
    then invariant_violation
    else if is_non_atomic_revision_plan r.outcome && is_none r.breach_kind
    then invariant_violation
    else rejected r

-- `GovernedRejection(outcome, references=…, raw_response=…)`
unfoldable pub rejection : GovernedOutcome → List String → Option String → Error
unfolding governed_rejection
rejection outcome references raw = governed_rejection (record {
  outcome = outcome;
  boundary = none;
  breach_kind = none;
  references = references;
  raw_response = raw;
  appraisal_responses = [];
  provenance = [];
})

-- `INVALID_APPRAISAL_RESPONSE` with its `boundary=`
unfoldable pub boundary_rejection : ModelBoundary → List String → Option String → Error
unfolding governed_rejection
boundary_rejection boundary references raw = governed_rejection (record {
  outcome = invalid_appraisal_response;
  boundary = some boundary;
  breach_kind = none;
  references = references;
  raw_response = raw;
  appraisal_responses = [];
  provenance = [];
})

-- `NON_ATOMIC_REVISION_PLAN` with its `breach_kind=`
unfoldable pub breach_rejection : BreachKind → List String → Error
unfolding governed_rejection
breach_rejection kind references = governed_rejection (record {
  outcome = non_atomic_revision_plan;
  boundary = none;
  breach_kind = some kind;
  references = references;
  raw_response = none;
  appraisal_responses = [];
  provenance = [];
})

-- The error is a visible governed outcome, with the discriminators that its outcome requires.
abbrev pub IsGoverned : Error → Type 0
IsGoverned (rejected r) = governed_rejection r ≡ rejected r
IsGoverned invariant_violation = ⊥

-- A run that does not raise anything but governed outcomes.
abbrev pub OnlyGoverned {ℓ} : {A : Type ℓ} → Result A → Type 0
OnlyGoverned (ok a) = Unit
OnlyGoverned (err e) = IsGoverned e
