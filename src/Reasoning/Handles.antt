-- ===== src/Reasoning/Handles.antt =====
-- src/sanuvia/application/reasoning/handles.py: the authoritative table of one appraisal call.
pub mod Request
pub mod Origin
use sanuvia_reasoning_engine.Prelude.{String, none, some, [], ◌∷◌}
use sanuvia_reasoning_engine.Prelude.Tests.{string_eq}
use sanuvia_reasoning_engine.Prelude.Dict.{Dict, get}
use sanuvia_reasoning_engine.Domain.Errors.{
  Result, ok, err, rejection, boundary_rejection, appraisal, unknown_evidence_reference,
  unknown_hypothesis_reference,
}

pub record HandleTable : Type 0 where
  pub request_id : String
  pub observation : String
  pub observation_id : String
  pub divergence_candidates : Dict String String
  pub hypotheses : Dict String String
  pub participants : Dict String String

unfoldable pub resolve_divergence_candidate : HandleTable → String → Result String
resolve_divergence_candidate t handle = elim (get t.divergence_candidates handle) [
  | none ↦ err (rejection unknown_evidence_reference (handle ∷ []) none)
  | some id ↦ ok id
]

unfoldable pub resolve_hypothesis : HandleTable → String → Result String
resolve_hypothesis t handle = elim (get t.hypotheses handle) [
  | none ↦ err (rejection unknown_hypothesis_reference (handle ∷ []) none)
  | some id ↦ ok id
]

unfoldable pub resolve_participant : HandleTable → String → Result String
resolve_participant t label = elim (get t.participants label) [
  | none ↦ err (boundary_rejection appraisal (label ∷ []) none)
  | some id ↦ ok id
]
