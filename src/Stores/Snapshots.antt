-- ===== src/Stores/Snapshots.antt =====
-- The stores of the bundle under their names, and their snapshots: `bundle_stores` of
-- src/sanuvia/application/reasoning/unit_of_work.py, and `snapshot` and `restore` of every store of
-- src/sanuvia/adapters/persistence/in_memory.py. Each of them copies every container that the store owns, so that a
-- token is the store's state as a value. `F` is the type of the program's floats.
use sanuvia_reasoning_engine.Prelude.{String, some, List, [], ◌∷◌}
use sanuvia_reasoning_engine.Prelude.Dict.{Dict}
use sanuvia_reasoning_engine.Domain.Dependency.{DependencyEdge}
use sanuvia_reasoning_engine.Domain.Hypothesis.{Hypothesis}
use sanuvia_reasoning_engine.Domain.Identity.{IdentityAdjudication}
use sanuvia_reasoning_engine.Domain.Inquiry.{Inquiry}
use sanuvia_reasoning_engine.Domain.Recognition.{RecognitionEvent}
use sanuvia_reasoning_engine.Domain.Revision.{AnomalyResolution}
use sanuvia_reasoning_engine.Domain.WorldModel.{ProvenanceRecord}
use sanuvia_reasoning_engine.Stores.Bundle.{Bundle}
use sanuvia_reasoning_engine.Stores.Evidence.{EvidenceStore}
use sanuvia_reasoning_engine.Stores.Ledger.{Ledger}
use sanuvia_reasoning_engine.Stores.Lineages.{LineageStore}
use sanuvia_reasoning_engine.Stores.Predictions.{PredictionStore}
use sanuvia_reasoning_engine.Stores.Versions.{Versions}
use sanuvia_reasoning_engine.Stores.WorldModels.{WorldModelStore}
use sanuvia_reasoning_engine.Reasoning.UnitOfWork.{Snapshots}

-- The state of one store
pub data StoreState (F : Type 0) : Type 0 where
  evidence_state : EvidenceStore F → StoreState F
  hypotheses_state : List (Hypothesis F) → StoreState F
  predictions_state : PredictionStore F → StoreState F
  inquiries_state : List (Inquiry F) → StoreState F
  world_models_state : WorldModelStore F → StoreState F
  ledger_state : Ledger → StoreState F
  anomalies_state : Dict String AnomalyResolution → StoreState F
  provenance_state : Dict String ProvenanceRecord → StoreState F
  recognition_state : List RecognitionEvent → StoreState F
  dependencies_state : List DependencyEdge → StoreState F
  lineages_state : LineageStore → StoreState F
  statement_versions_state : Versions → StoreState F
  identity_adjudications_state : Dict String (IdentityAdjudication F) → StoreState F

module _ {F : Type 0} where
  unfoldable pub bundle_stores : Bundle F → Dict String (StoreState F)
  bundle_stores b =
      ("evidence", evidence_state b.evidence)
      ∷ ("hypotheses", hypotheses_state b.hypotheses)
      ∷ ("predictions", predictions_state b.predictions)
      ∷ ("inquiries", inquiries_state b.inquiries)
      ∷ ("world_models", world_models_state b.world_models)
      ∷ ("ledger", ledger_state b.ledger)
      ∷ ("anomalies", anomalies_state b.anomalies)
      ∷ ("provenance", provenance_state b.provenance)
      ∷ ("recognition", recognition_state b.recognition)
      ∷ ("dependencies", dependencies_state b.dependencies)
      ∷ ("lineages", lineages_state b.lineages)
      ∷ ("statement_versions", statement_versions_state b.statement_versions)
      ∷ ("identity_adjudications", identity_adjudications_state b.identity_adjudications)
      ∷ []

  -- The names lead to the bundle's own stores: a store of the dictionary that changes is the bundle's.
  unfoldable pub with_store : Bundle F → StoreState F → Bundle F
  with_store b (evidence_state s) = record b { evidence = s }
  with_store b (hypotheses_state s) = record b { hypotheses = s }
  with_store b (predictions_state s) = record b { predictions = s }
  with_store b (inquiries_state s) = record b { inquiries = s }
  with_store b (world_models_state s) = record b { world_models = s }
  with_store b (ledger_state s) = record b { ledger = s }
  with_store b (anomalies_state s) = record b { anomalies = s }
  with_store b (provenance_state s) = record b { provenance = s }
  with_store b (recognition_state s) = record b { recognition = s }
  with_store b (dependencies_state s) = record b { dependencies = s }
  with_store b (lineages_state s) = record b { lineages = s }
  with_store b (statement_versions_state s) = record b { statement_versions = s }
  with_store b (identity_adjudications_state s) = record b { identity_adjudications = s }

  unfoldable pub with_stores : Bundle F → Dict String (StoreState F) → Bundle F
  unfolding with_store
  with_stores b [] = b
  with_stores b ((name, s) ∷ rest) = with_stores (with_store b s) rest

  abbrev pub store_snapshots : Snapshots (StoreState F) (StoreState F)
  store_snapshots = record { snapshot = λ s. some s; reinstate = λ s token. token }
