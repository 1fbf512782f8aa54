-- ===== src/Domain/WorldModel.antt =====
-- src/sanuvia/domain/world_model.py. `F` is the type of the program's floats; times are numbers.
use sanuvia_reasoning_engine.Prelude.{ℕ, String, Option, List}
use sanuvia_reasoning_engine.Prelude.Tests.{if◌then◌else◌, ◌==◌, string_eq}
use sanuvia_reasoning_engine.Domain.Errors.{Result, ok, err, invariant_violation}

pub record ProvenanceRecord : Type 0 where
  pub id : String
  pub subject_id : String
  pub traces_to_evidence_ids : List String
  pub traces_to_revision_ids : List String
  pub created_at : ℕ
  pub space_id : String

pub record SystemModellingContext : Type 0 where
  pub parameters : List (String × String)
  pub id : Option String

pub record WorldModel (F : Type 0) : Type 0 where
  pub model_version_id : String
  pub subject_id : String
  pub reasoning_system_id : String
  pub model_uncertainty : F
  pub active_hypothesis_ids : List String
  pub active_prediction_ids : List String
  pub active_inquiry_ids : List String
  pub created_at : ℕ
  pub created_by_revision_id : Option String
  pub provenance_record_id : Option String
  pub system_modelling_context : Option SystemModellingContext
  pub space_id : String

pub record CurrentModelSnapshot : Type 0 where
  pub subject_id : String
  pub model_version_id : String
  pub committed_at : ℕ
  pub space_id : String

-- `CurrentModelSnapshot.__post_init__`
unfoldable pub make_snapshot : CurrentModelSnapshot → Result CurrentModelSnapshot
make_snapshot p = if p.model_version_id == "" then err invariant_violation else ok p
