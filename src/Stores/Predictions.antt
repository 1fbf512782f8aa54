-- ===== src/Stores/Predictions.antt =====
-- `InMemoryPredictionRepository` of src/sanuvia/adapters/persistence/in_memory.py. `F` is the type of the
-- program's floats.
use mathlib.Core.Option
use sanuvia_reasoning_engine.Prelude.{String, ◌&&◌, Option, none, some, List, [], ◌∷◌, ◌++◌}
use sanuvia_reasoning_engine.Prelude.Tests.{if◌then◌else◌, ◌==◌, string_eq}
use sanuvia_reasoning_engine.Prelude.Dict.{Dict, get, has, put}
use sanuvia_reasoning_engine.Domain.Prediction.{Prediction}

pub record PredictionStore (F : Type 0) : Type 0 where
  pub by_id : Dict String (Prediction F)
  pub order : List String

module _ {F : Type 0} where
  unfoldable pub add_prediction : PredictionStore F → Prediction F → PredictionStore F
  add_prediction s p = record {
    by_id = put s.by_id p.id p;
    order = if has s.by_id p.id then s.order else s.order ++ p.id ∷ [];
  }

  abbrev get_prediction : PredictionStore F → String → Option (Prediction F)
  get_prediction s id = get s.by_id id

  -- The predictions of the ids in their order; an id without one raises, which is `none`.
  abbrev pick_scoped :
      String → String → Dict String (Prediction F) → List String → Option (List (Prediction F))
  pick_scoped subject space found [] = some []
  pick_scoped subject space found (id ∷ ids) =
      let rest = pick_scoped subject space found ids in
      elim (get found id) [
        | none ↦ none
        | some p ↦
            if p.subject_id == subject && p.space_id == space
            then Option.map (λ ps. p ∷ ps) rest
            else rest
      ]

  abbrev pub predictions_for : PredictionStore F → String → String → Option (List (Prediction F))
  predictions_for s subject space = pick_scoped subject space s.by_id s.order
