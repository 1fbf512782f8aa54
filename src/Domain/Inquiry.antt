-- ===== src/Domain/Inquiry.antt =====
-- src/sanuvia/domain/inquiry.py. `F` is the type of the program's floats; times are numbers.
use sanuvia_reasoning_engine.Prelude.{ℕ, String, Option, List, ◌&&◌}
use sanuvia_reasoning_engine.Prelude.Tests.{if◌then◌else◌, ◌==◌, string_eq}
use sanuvia_reasoning_engine.Domain.Errors.{Result, ok, err, invariant_violation}
use sanuvia_reasoning_engine.Domain.Revision.{no_ids}

pub data InquiryStatus : Type 0 where
  proposed_inquiry active dormant locally_resolved : InquiryStatus
  reopened superseded closed : InquiryStatus

pub record Inquiry (F : Type 0) : Type 0 where
  pub id : String
  pub subject_id : String
  pub statement : String
  pub status : InquiryStatus
  pub activated_hypothesis_ids : List String
  pub motivating_evidence_ids : List String
  pub current_uncertainty : F
  pub created_at : ℕ
  pub produced_by_revision_id : Option String
  pub space_id : String

-- `Inquiry.__post_init__`
unfoldable pub make_inquiry : {F : Type 0} → Inquiry F → Result (Inquiry F)
make_inquiry i =
    if i.statement == ""
    then err invariant_violation
    else if no_ids i.activated_hypothesis_ids && no_ids i.motivating_evidence_ids
    then err invariant_violation
    else ok i
