-- ===== src/Domain/Prediction.antt =====
-- src/sanuvia/domain/prediction.py. `F` is the type of the program's floats; times are numbers.
use sanuvia_reasoning_engine.Prelude.{ℕ, String, List, ◌&&◌}
use sanuvia_reasoning_engine.Prelude.Tests.{if◌then◌else◌, ◌==◌, string_eq}
use sanuvia_reasoning_engine.Domain.Errors.{Result, ok, err, invariant_violation}
use sanuvia_reasoning_engine.Domain.Revision.{no_ids}

pub data TrajectoryKind : Type 0 where
  observed_trajectory recurring_cycle frequency_change interruption_opportunity : TrajectoryKind

pub record FutureTrajectory : Type 0 where
  pub kind : TrajectoryKind
  pub description : String

pub record Prediction (F : Type 0) : Type 0 where
  pub id : String
  pub subject_id : String
  pub trajectory : FutureTrajectory
  pub likelihood : F
  pub derived_from_hypothesis_ids : List String
  pub derived_from_evidence_ids : List String
  pub model_version_id : String
  pub created_at : ℕ
  pub space_id : String

-- `FutureTrajectory.__post_init__`
unfoldable pub make_trajectory : FutureTrajectory → Result FutureTrajectory
make_trajectory t = if t.description == "" then err invariant_violation else ok t

-- `Prediction.__post_init__`
unfoldable pub make_prediction : {F : Type 0} → Prediction F → Result (Prediction F)
make_prediction p =
    if no_ids p.derived_from_hypothesis_ids && no_ids p.derived_from_evidence_ids
    then err invariant_violation
    else if p.space_id == ""
    then err invariant_violation
    else ok p
