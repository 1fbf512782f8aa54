-- ===== src/Domain/Identity.antt =====
-- src/sanuvia/domain/identity.py: identity decisions and parked candidates. `F` is the type of the
-- program's floats; times are numbers.
use sanuvia_reasoning_engine.Prelude.{ℕ, String, Bool, true, false, Option, List, not}
use sanuvia_reasoning_engine.Prelude.Tests.{if◌then◌else◌, ◌==◌, string_eq}
use sanuvia_reasoning_engine.Domain.Errors.{Result, ok, err, invariant_violation}
use sanuvia_reasoning_engine.Domain.Hypothesis.{CommitmentSignature, LineageKey}

pub data IdentityOutcome : Type 0 where
  match_existing refine_existing distinct_new ambiguous_review_required : IdentityOutcome

abbrev is_ambiguous : IdentityOutcome → Bool
is_ambiguous ambiguous_review_required = true
is_ambiguous _ = false

pub data AdjudicationStatus : Type 0 where
  parked resolved : AdjudicationStatus

pub record IdentityDecision (F : Type 0) : Type 0 where
  pub outcome : IdentityOutcome
  pub candidate_local_ref : String
  pub matched_hypothesis_id : Option String
  pub matched_lineage_key : Option LineageKey
  pub matched_in_flight : Bool
  pub plausible_matches : List String
  pub confidence : Option F
  pub resolver_id : Option String
  pub resolver_raw_response : Option String
  pub overridden_resolver_outcome : Option IdentityOutcome

pub record IdentityAdjudication (F : Type 0) : Type 0 where
  pub id : String
  pub subject_id : String
  pub candidate_statement : String
  pub candidate_signature : CommitmentSignature
  pub decision : IdentityDecision F
  pub created_at : ℕ
  pub source_evidence_ids : List String
  pub plausible_matches : List String
  pub created_by_revision_id : Option String
  pub status : AdjudicationStatus
  pub space_id : String

-- `IdentityAdjudication.__post_init__`
unfoldable pub make_adjudication :
    {F : Type 0} → IdentityAdjudication F → Result (IdentityAdjudication F)
make_adjudication a =
    if a.candidate_statement == ""
    then err invariant_violation
    else if not (is_ambiguous a.decision.outcome)
    then err invariant_violation
    else ok a
