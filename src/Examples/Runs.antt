-- ===== src/Examples/Runs.antt =====
-- Examples of revision runs, of their plans and of their commits.
use sanuvia_reasoning_engine.Prelude.{ℕ, ◌≡◌, refl, false, none, [], ◌∷◌, List}
use sanuvia_reasoning_engine.Prelude.Lists.{keep}
use sanuvia_reasoning_engine.Prelude.Tests.{string_eq}
use sanuvia_reasoning_engine.Domain.Errors.{ok, err, invariant_violation}
use sanuvia_reasoning_engine.Domain.Dependency.{DependencyEdge, is_diverges_with, make_edge}
use sanuvia_reasoning_engine.Domain.Hypothesis.{Hypothesis, make_hypothesis}
use sanuvia_reasoning_engine.Domain.Prediction.{Prediction, make_prediction, make_trajectory}
use sanuvia_reasoning_engine.Domain.Revision.{make_event}
use sanuvia_reasoning_engine.Reasoning.Ports.{weakens}
use sanuvia_reasoning_engine.Reasoning.Revising.{
  Run, strengthen_with, contradict_with, dedup, dedup_onto, hyp_record, enter, proposed_event,
  new_edge, strengthen_hypothesis,
}
use sanuvia_reasoning_engine.Reasoning.Revising.Ingest.{apply_bearing, ingest_all}
use sanuvia_reasoning_engine.Reasoning.Revising.Plan.{
  PlannedRevision, conclude, records_of, committed_intents,
}
use sanuvia_reasoning_engine.Reasoning.Revising.Forecast.{regenerate, predict}
use sanuvia_reasoning_engine.Reasoning.Revising.Commit.{commit_plan}
use sanuvia_reasoning_engine.Reasoning.Revising.Replay.{Then, IsRun}
use sanuvia_reasoning_engine.Reasoning.Revising.Steps.{ingest_all-IsRun}
use sanuvia_reasoning_engine.Reasoning.Revising.Bearings.{
  strengthen_with_twice, strengthen_then_weaken,
}
use sanuvia_reasoning_engine.Reasoning.Revising.Hold.{SameUnderstanding, hold-SameUnderstanding}
use sanuvia_reasoning_engine.Reasoning.Revising.Predictions.{Matches, reaching, regenerate-Matches}
use sanuvia_reasoning_engine.Reasoning.Scoring.{make_unit, clamp_unit, support_after_support}
use sanuvia_reasoning_engine.Stores.Hypotheses.Table.{replay}
use sanuvia_reasoning_engine.Support.{Counters}
use sanuvia_reasoning_engine.Examples.Engine.{
  engine, scene, fresh_run, reliable, established, empty_bundle, returned_or,
}

ingest_all-IsRun_example :
    Then
      (IsRun engine scene (("hyp-1", established) ∷ []))
      (ingest_all engine scene (reliable ∷ []) fresh_run)
unfolding replay records_of
ingest_all-IsRun_example =
    ingest_all-IsRun engine scene (("hyp-1", established) ∷ []) (reliable ∷ []) fresh_run
      (refl, tt, tt)

abbrev strengthened : Run ℕ Counters
strengthened = returned_or fresh_run (strengthen_with engine scene reliable "hyp-1" fresh_run)

strengthened-ok : strengthen_with engine scene reliable "hyp-1" fresh_run ≡ ok strengthened
unfolding strengthen_with strengthen_hypothesis hyp_record enter proposed_event new_edge make_unit
    clamp_unit support_after_support make_hypothesis dedup dedup_onto make_event make_edge
strengthened-ok = refl

strengthen_with_twice_example :
    strengthen_with engine scene reliable "hyp-1" strengthened ≡ ok strengthened
strengthen_with_twice_example =
    strengthen_with_twice engine scene reliable "hyp-1" fresh_run strengthened strengthened-ok

strengthen_then_weaken_example :
    apply_bearing engine scene reliable "hyp-1" weakens strengthened ≡ err invariant_violation
strengthen_then_weaken_example =
    strengthen_then_weaken engine scene reliable "hyp-1" established fresh_run strengthened refl
      strengthened-ok

abbrev contradicted : Run ℕ Counters
contradicted = returned_or fresh_run (contradict_with engine scene reliable "hyp-1" fresh_run)

hold-SameUnderstanding_example :
    (p : PlannedRevision ℕ) × (conclude engine scene (reliable ∷ []) none [] fresh_run ≡ ok (p, []))
    × (p.is_committed_plan ≡ false)
    × (p.edges ≡ keep (λ (e : DependencyEdge). is_diverges_with e.relation) [])
    × (p.anomalies ≡ [])
    × (p.adjudications ≡ [])
    × SameUnderstanding empty_bundle (commit_plan p empty_bundle).0
unfolding committed_intents
hold-SameUnderstanding_example =
    hold-SameUnderstanding engine scene (reliable ∷ []) none [] fresh_run empty_bundle refl

abbrev foreseen : List (Prediction ℕ) × Run ℕ Counters
foreseen = returned_or ([], fresh_run) (regenerate engine scene [] (established ∷ []) fresh_run)

foreseen-ok : regenerate engine scene [] (established ∷ []) fresh_run ≡ ok foreseen
unfolding regenerate predict make_trajectory make_prediction new_edge make_unit make_edge
foreseen-ok = refl

regenerate-Matches_example :
    Matches engine scene (reaching engine scene (established ∷ [])) foreseen.0
regenerate-Matches_example =
    regenerate-Matches engine scene [] (established ∷ []) fresh_run foreseen foreseen-ok
