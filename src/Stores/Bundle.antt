-- ===== src/Stores/Bundle.antt =====
-- The bundle `InMemoryReasoningStore` of src/sanuvia/adapters/persistence/in_memory.py, and the stores that are
-- one dictionary or one list. The stores of inferences and of modelling contexts are left out. `F` is the type of the
-- program's floats.
use sanuvia_reasoning_engine.Prelude.{String, ◌&&◌, Option, List, [], ◌∷◌, ◌++◌}
use sanuvia_reasoning_engine.Prelude.Tests.{if◌then◌else◌, ◌==◌, string_eq}
use sanuvia_reasoning_engine.Prelude.Lists.{keep}
use sanuvia_reasoning_engine.Prelude.Dict.{Dict, get, has, put, values}
use sanuvia_reasoning_engine.Domain.Errors.{Result, ok, err, invariant_violation}
use sanuvia_reasoning_engine.Domain.Dependency.{DependencyEdge}
use sanuvia_reasoning_engine.Domain.Hypothesis.{Hypothesis}
use sanuvia_reasoning_engine.Domain.Identity.{IdentityAdjudication}
use sanuvia_reasoning_engine.Domain.Inquiry.{Inquiry}
use sanuvia_reasoning_engine.Domain.Recognition.{RecognitionEvent}
use sanuvia_reasoning_engine.Domain.Revision.{AnomalyResolution}
use sanuvia_reasoning_engine.Domain.WorldModel.{ProvenanceRecord}
use sanuvia_reasoning_engine.Stores.Evidence.{EvidenceStore}
use sanuvia_reasoning_engine.Stores.Ledger.{Ledger}
use sanuvia_reasoning_engine.Stores.Lineages.{LineageStore}
use sanuvia_reasoning_engine.Stores.Predictions.{PredictionStore}
use sanuvia_reasoning_engine.Stores.Versions.{Versions}
use sanuvia_reasoning_engine.Stores.WorldModels.{WorldModelStore}

-- `InMemoryAnomalyResolutionStore`
abbrev pub add_resolution :
    Dict String AnomalyResolution → AnomalyResolution → Dict String AnomalyResolution
add_resolution s a = put s a.id a

abbrev get_resolution : Dict String AnomalyResolution → String → Option AnomalyResolution
get_resolution s id = get s id

-- `InMemoryProvenanceRepository`
abbrev pub add_provenance :
    Dict String ProvenanceRecord → ProvenanceRecord → Dict String ProvenanceRecord
add_provenance s p = put s p.id p

abbrev get_provenance : Dict String ProvenanceRecord → String → Option ProvenanceRecord
get_provenance s id = get s id

-- `InMemoryDependencyGraphStore`
abbrev pub add_edge : List DependencyEdge → DependencyEdge → List DependencyEdge
add_edge s e = s ++ e ∷ []

abbrev edges_from : List DependencyEdge → String → List DependencyEdge
edges_from s ref = keep (λ (e : DependencyEdge). e.from_ref == ref) s

abbrev edges_to : List DependencyEdge → String → List DependencyEdge
edges_to s ref = keep (λ (e : DependencyEdge). e.to_ref == ref) s

-- `InMemoryIdentityAdjudicationStore`
module _ {F : Type 0} where
  unfoldable pub add_adjudication :
      Dict String (IdentityAdjudication F)
      → IdentityAdjudication F
      → Result (Dict String (IdentityAdjudication F))
  add_adjudication s a = if has s a.id then err invariant_violation else ok (put s a.id a)

  abbrev get_adjudication :
      Dict String (IdentityAdjudication F) → String → Option (IdentityAdjudication F)
  get_adjudication s id = get s id

  abbrev adjudications_for :
      Dict String (IdentityAdjudication F) → String → String → List (IdentityAdjudication F)
  adjudications_for s subject space =
      keep (λ (a : IdentityAdjudication F). a.subject_id == subject && a.space_id == space)
        (values s)

pub record Bundle (F : Type 0) : Type 0 where
  pub evidence : EvidenceStore F
  pub hypotheses : List (Hypothesis F)
  pub predictions : PredictionStore F
  pub inquiries : List (Inquiry F)
  pub world_models : WorldModelStore F
  pub ledger : Ledger
  pub anomalies : Dict String AnomalyResolution
  pub recognition : List RecognitionEvent
  pub provenance : Dict String ProvenanceRecord
  pub dependencies : List DependencyEdge
  pub lineages : LineageStore
  pub statement_versions : Versions
  pub identity_adjudications : Dict String (IdentityAdjudication F)
