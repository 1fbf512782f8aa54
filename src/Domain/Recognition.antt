-- ===== src/Domain/Recognition.antt =====
-- src/sanuvia/domain/recognition.py, and `InMemoryRecognitionRepository` of
-- src/sanuvia/adapters/persistence/in_memory.py. Times are numbers.
use sanuvia_reasoning_engine.Prelude.{ℕ, String, List, [], ◌∷◌, ◌++◌, ◌&&◌}
use sanuvia_reasoning_engine.Prelude.Tests.{if◌then◌else◌, ◌==◌, string_eq}
use sanuvia_reasoning_engine.Prelude.Lists.{keep}
use sanuvia_reasoning_engine.Domain.Errors.{Result, ok, err, invariant_violation}
use sanuvia_reasoning_engine.Domain.Revision.{no_ids}

pub data RecognitionKind : Type 0 where
  recurring_cycle frequency_change observed_trajectory interruption_opportunity : RecognitionKind

pub record RecognitionEvent : Type 0 where
  pub id : String
  pub subject_id : String
  pub kind : RecognitionKind
  pub description : String
  pub supporting_evidence_ids : List String
  pub model_version_id : String
  pub created_at : ℕ
  pub space_id : String

-- `RecognitionEvent.__post_init__`
unfoldable make_recognition : RecognitionEvent → Result RecognitionEvent
make_recognition e =
    if e.description == ""
    then err invariant_violation
    else if no_ids e.supporting_evidence_ids
    then err invariant_violation
    else ok e

abbrev add_recognition : List RecognitionEvent → RecognitionEvent → List RecognitionEvent
add_recognition s e = s ++ e ∷ []

abbrev pub recognitions_for : List RecognitionEvent → String → String → List RecognitionEvent
recognitions_for s subject space =
    keep (λ (e : RecognitionEvent). e.subject_id == subject && e.space_id == space) s
