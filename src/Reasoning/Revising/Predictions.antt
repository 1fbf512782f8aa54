-- ===== src/Reasoning/Revising/Predictions.antt =====
-- Which predictions a run regenerates (src/sanuvia/application/reasoning/model_revision.py). `F` is the type of
-- the program's floats.
use sanuvia_reasoning_engine.Prelude.{String, ◌≡◌, refl, sym, inl, inr, not, ◌&&◌, List, [], ◌∷◌}
use sanuvia_reasoning_engine.Prelude.Tests.{Bool-cases, ◌==◌, string_eq}
use sanuvia_reasoning_engine.Prelude.Lists.{keep}
use sanuvia_reasoning_engine.Prelude.Dict.{Dict, get}
use sanuvia_reasoning_engine.Domain.Errors.{ok}
use sanuvia_reasoning_engine.Domain.Hypothesis.{Hypothesis}
use sanuvia_reasoning_engine.Domain.Prediction.{Prediction, FutureTrajectory, make_prediction}
use sanuvia_reasoning_engine.Domain.Dependency.{derived_from}
use sanuvia_reasoning_engine.Domain.Revision.{no_ids}
use sanuvia_reasoning_engine.Reasoning.Scoring.{Floats, in_unit, le, make_unit}
use sanuvia_reasoning_engine.Reasoning.Revising.{Engine, Scene, Run, new_edge}
use sanuvia_reasoning_engine.Reasoning.Revising.Forecast.{predict, regenerate, choose_trajectory}
use sanuvia_reasoning_engine.Reasoning.Revising.Replay.{
  Then, Then-ok, bind-Then, bind-any, if-Then, ok-Then, err-Then,
}

make_unit-same : {F : Type 0} (o : Floats F) (v : F) → Then (λ w. v ≡ w) (make_unit o v)
unfolding make_unit
make_unit-same o v = if-Then _ (not (in_unit o v)) _ _ (err-Then _ _) (ok-Then _ _ refl)

make_prediction-keeps :
    {F : Type 0} (P : Prediction F → Type 0) (p : Prediction F) → P p → Then P (make_prediction p)
unfolding make_prediction
make_prediction-keeps P p k =
    if-Then P (no_ids p.derived_from_hypothesis_ids && no_ids p.derived_from_evidence_ids) _ _
      (err-Then _ _) (if-Then P (p.space_id == "") _ _ (err-Then _ _) (ok-Then P p k))

module _ {F S : Type 0} (d : Engine F S) (c : Scene F) where
  -- The prediction is of the hypothesis, with its support as the likelihood and its supporting evidence.
  abbrev Foresees : Hypothesis F → Prediction F → Type 0
  Foresees h p =
      (p.derived_from_hypothesis_ids ≡ h.hypothesis_id ∷ [])
      × (p.likelihood ≡ h.support)
      × (p.derived_from_evidence_ids ≡ h.supporting_evidence_ids)
      × (p.model_version_id ≡ c.new_version_id)

  -- One by one
  abbrev pub Matches : List (Hypothesis F) → List (Prediction F) → Type 0
  Matches [] [] = Unit
  Matches [] (p ∷ ps) = ⊥
  Matches (h ∷ hs) [] = ⊥
  Matches (h ∷ hs) (p ∷ ps) = Foresees h p × Matches hs ps

  predict-Foresees :
      (prior : Dict String FutureTrajectory) (h : Hypothesis F) (r : Run F S)
      → Then (λ q. Foresees h q.0) (predict d c prior h r)
  unfolding predict
  predict-Foresees prior h r =
      bind-any _
        (choose_trajectory (get r.traj_hints h.hypothesis_id) (get prior h.hypothesis_id)
          h.statement)
        _
        (λ trajectory. bind-Then _ _ _ _ (make_unit-same d.floats h.support) (λ likelihood same.
          bind-Then (Foresees h) _ _ _
            (make_prediction-keeps (Foresees h) _ (refl, sym same, refl, refl))
            (λ p k.
              bind-any _ (new_edge d c (d.new_id r.ids "pred").1 p.id h.hypothesis_id derived_from)
                _ (λ (edge, ids''). ok-Then _ _ k))))

  -- The hypotheses whose support reaches the threshold
  abbrev pub reaching : List (Hypothesis F) → List (Hypothesis F)
  reaching =
      keep (λ (h : Hypothesis F). le d.floats d.config.prediction_support_threshold h.support)

  regenerate-Then :
      (prior : Dict String FutureTrajectory) (hs : List (Hypothesis F)) (r : Run F S)
      → Then (λ q. Matches (reaching hs) q.0) (regenerate d c prior hs r)
  unfolding regenerate
  regenerate-Then prior [] r = ok-Then _ _ tt
  regenerate-Then prior (h ∷ hs) r =
      elim (Bool-cases (d.floats.lt h.support d.config.prediction_support_threshold)) [
        | inl t ↦ rw t (regenerate-Then prior hs r)
        | inr t ↦ rw t (
            bind-Then (λ q. Foresees h q.0) _ _ _ (predict-Foresees prior h r)
              (λ (p, r') k.
                bind-Then (λ q. Matches (reaching hs) q.0) _ _ _ (regenerate-Then prior hs r')
                  (λ (ps, r'') ks. ok-Then _ _ (k, ks))))
      ]

  -- The predictions that are regenerated are, one by one and in order, those of the hypotheses whose support
  -- reaches the threshold: each is derived from its hypothesis and from that one's supporting evidence, in the
  -- new version, and its likelihood is the hypothesis's support.
  pub regenerate-Matches :
      (prior : Dict String FutureTrajectory) (hs : List (Hypothesis F)) (r : Run F S)
      (q : List (Prediction F) × Run F S)
      → regenerate d c prior hs r ≡ ok q
      → Matches (reaching hs) q.0
  regenerate-Matches prior hs r q done =
      Then-ok (λ q. Matches (reaching hs) q.0) _ q (regenerate-Then prior hs r) done
