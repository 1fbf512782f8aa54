-- ===== src/Reasoning/Revising/Forecast.antt =====
-- What a run foresees and asks: `_regenerate_predictions` and `_maybe_open_inquiry` of
-- src/sanuvia/application/reasoning/model_revision.py.
use Prim.Native.String.{◌++◌ as append_text}
use sanuvia_reasoning_engine.Prelude.{String, Option, none, some, List, [], ◌∷◌, ◌++◌, map}
use sanuvia_reasoning_engine.Prelude.Tests.{if◌then◌else◌, string_eq, pair_eq}
use sanuvia_reasoning_engine.Prelude.Dict.{Dict, get, put}
use sanuvia_reasoning_engine.Domain.Errors.{Result, ok, ◌>>=◌}
use sanuvia_reasoning_engine.Domain.Hypothesis.{Hypothesis}
use sanuvia_reasoning_engine.Domain.Dependency.{derived_from}
use sanuvia_reasoning_engine.Domain.Inquiry.{Inquiry, make_inquiry, proposed_inquiry}
use sanuvia_reasoning_engine.Domain.Prediction.{
  Prediction, make_prediction, FutureTrajectory, make_trajectory, observed_trajectory,
}
use sanuvia_reasoning_engine.Domain.Revision.{RevisionEvent}
use sanuvia_reasoning_engine.Reasoning.Scoring.{le, make_unit, sort_down, expected_information_gain}
use sanuvia_reasoning_engine.Reasoning.Revising.{Engine, Scene, Run, dedup, new_edge}

-- The trajectory of the last prediction of each hypothesis
abbrev note_prior :
    FutureTrajectory → Dict String FutureTrajectory → List String → Dict String FutureTrajectory
note_prior t d [] = d
note_prior t d (hid ∷ hids) = note_prior t (put d hid t) hids

abbrev pub prior_trajectories :
    {F : Type 0} → Dict String FutureTrajectory → List (Prediction F) → Dict String FutureTrajectory
prior_trajectories d [] = d
prior_trajectories d (p ∷ ps) =
    prior_trajectories (note_prior p.trajectory d p.derived_from_hypothesis_ids) ps

-- `a or b or FutureTrajectory(…)`
abbrev pub choose_trajectory :
    Option FutureTrajectory → Option FutureTrajectory → String → Result FutureTrajectory
choose_trajectory (some t) prior statement = ok t
choose_trajectory none (some t) statement = ok t
choose_trajectory none none statement = make_trajectory (record {
  kind = observed_trajectory;
  description = append_text "trajectory consistent with: " statement;
})

abbrev pub first_event : List RevisionEvent → Option String
first_event [] = none
first_event (e ∷ es) = some e.id

abbrev quoted : String → String → String
quoted a b =
    append_text "Which explanation better fits the evidence: '"
      (append_text a (append_text "' or '" (append_text b "'?")))

module _ {F S : Type 0} (d : Engine F S) (c : Scene F) where
  -- The prediction of one hypothesis and its edge, which joins the plan
  unfoldable pub predict :
      Dict String FutureTrajectory → Hypothesis F → Run F S → Result (Prediction F × Run F S)
  predict prior h r =
      choose_trajectory (get r.traj_hints h.hypothesis_id) (get prior h.hypothesis_id) h.statement
      >>= λ trajectory.
          let (id, ids') = d.new_id r.ids "pred" in
          make_unit d.floats h.support >>= λ likelihood.
          make_prediction (record {
            id = id;
            subject_id = c.subject_id;
            trajectory = trajectory;
            likelihood = likelihood;
            derived_from_hypothesis_ids = h.hypothesis_id ∷ [];
            derived_from_evidence_ids = h.supporting_evidence_ids;
            model_version_id = c.new_version_id;
            created_at = c.now;
            space_id = c.space_id;
          })
          >>= λ p. new_edge d c ids' p.id h.hypothesis_id derived_from >>= λ (e, ids'').
              ok (p, record r { ids = ids''; edges = r.edges ++ e ∷ [] })

  unfoldable pub regenerate :
      Dict String FutureTrajectory
      → List (Hypothesis F)
      → Run F S
      → Result (List (Prediction F) × Run F S)
  unfolding predict
  regenerate prior [] r = ok ([], r)
  regenerate prior (h ∷ hs) r =
      if d.floats.lt h.support d.config.prediction_support_threshold
      then regenerate prior hs r
      else predict prior h r >>= λ (p, r'). regenerate prior hs r' >>= λ (ps, r''). ok (p ∷ ps, r'')

  -- The inquiry between the two hypotheses with the most support
  unfoldable pub inquire :
      List (Hypothesis F) → F → List RevisionEvent → S → Result (Option (Inquiry F) × S)
  inquire [] uncertainty events ids = ok (none, ids)
  inquire (h ∷ []) uncertainty events ids = ok (none, ids)
  inquire (h ∷ k ∷ more) uncertainty events ids =
      let (id, ids') = d.new_id ids "inq" in
      make_unit d.floats uncertainty >>= λ current_uncertainty.
      make_inquiry (record {
        id = id;
        subject_id = c.subject_id;
        statement = quoted h.statement k.statement;
        status = proposed_inquiry;
        activated_hypothesis_ids = h.hypothesis_id ∷ k.hypothesis_id ∷ [];
        motivating_evidence_ids = dedup h.supporting_evidence_ids k.supporting_evidence_ids;
        current_uncertainty = current_uncertainty;
        created_at = c.now;
        produced_by_revision_id = first_event events;
        space_id = c.space_id;
      })
      >>= λ i. ok (some i, ids')

  unfoldable pub maybe_open_inquiry :
      List (Hypothesis F) → F → List RevisionEvent → S → Result (Option (Inquiry F) × S)
  unfolding inquire
  maybe_open_inquiry active uncertainty events ids =
      let supports = map (λ (h : Hypothesis F). h.support) active in
      if d.floats.lt uncertainty d.config.inquiry_uncertainty_threshold
      then ok (none, ids)
      else if le d.floats (expected_information_gain d.floats supports) d.floats.zero_float
      then ok (none, ids)
      else inquire (sort_down d.floats (λ (h : Hypothesis F). h.support) active) uncertainty events
          ids
