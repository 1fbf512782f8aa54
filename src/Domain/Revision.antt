-- ===== src/Domain/Revision.antt =====
-- src/sanuvia/domain/revision.py: revision events, anomaly resolutions and ledger entries. Times are numbers.
use sanuvia_reasoning_engine.Prelude.{
  ℕ, String, Bool, true, false, not, ◌&&◌, Option, some, List, [], ◌∷◌,
}
use sanuvia_reasoning_engine.Prelude.Tests.{if◌then◌else◌}
use sanuvia_reasoning_engine.Domain.Errors.{Result, ok, err, invariant_violation, is_none}

pub data AnomalyDisposition : Type 0 where
  reject assimilate revise expand escalate : AnomalyDisposition

pub data RevisionOutcome : Type 0 where
  strengthen weaken contradict hypothesize : RevisionOutcome

pub data RevisionStatus : Type 0 where
  proposed committed_status : RevisionStatus

abbrev pub is_committed : RevisionStatus → Bool
is_committed committed_status = true
is_committed proposed = false

-- `not xs`
abbrev pub no_ids : List String → Bool
no_ids [] = true
no_ids (x ∷ xs) = false

pub record AnomalyResolution : Type 0 where
  pub id : String
  pub subject_id : String
  pub disposition : AnomalyDisposition
  pub triggering_evidence_ids : List String
  pub created_at : ℕ
  pub note : String
  pub space_id : String

-- `AnomalyResolution.__post_init__`
unfoldable pub make_resolution : AnomalyResolution → Result AnomalyResolution
make_resolution a = if no_ids a.triggering_evidence_ids then err invariant_violation else ok a

pub record RevisionEvent : Type 0 where
  pub id : String
  pub subject_id : String
  pub affected_object_id : String
  pub outcome : RevisionOutcome
  pub triggering_evidence_ids : List String
  pub status : RevisionStatus
  pub created_at : ℕ
  pub from_model_version_id : Option String
  pub to_model_version_id : Option String
  pub anomaly_resolution_id : Option String
  pub space_id : String

-- `RevisionEvent.__post_init__`
unfoldable pub make_event : RevisionEvent → Result RevisionEvent
make_event e =
    if no_ids e.triggering_evidence_ids
    then err invariant_violation
    else if is_committed e.status && is_none e.to_model_version_id
    then err invariant_violation
    else ok e

-- `RevisionEvent.committed`
unfoldable pub committed : RevisionEvent → String → Result RevisionEvent
unfolding make_event
committed e version =
    if is_committed e.status
    then err invariant_violation
    else make_event (record e { status = committed_status; to_model_version_id = some version })

pub record ModelRevisionResult : Type 0 where
  pub subject_id : String
  pub revision_events : List RevisionEvent
  pub anomaly_resolutions : List AnomalyResolution
  pub new_model_version_id : Option String
  pub space_id : String

pub record RevisionLedgerEntry : Type 0 where
  pub sequence_no : ℕ
  pub revision_event : RevisionEvent
  pub appended_at : ℕ

-- `RevisionLedgerEntry.__post_init__`: a sequence number is not negative.
unfoldable pub make_entry : RevisionLedgerEntry → Result RevisionLedgerEntry
make_entry e = if not (is_committed e.revision_event.status) then err invariant_violation else ok e
