-- ===== src/Reasoning/Service.antt =====
-- `ReasoningService` of src/sanuvia/application/api/service.py, over the in-memory bundle, each store of which has
-- snapshots, as the id generator has. `F` is the type of the program's floats and `S` the state of the id
-- generator; times are numbers.
pub mod Atomic
use sanuvia_reasoning_engine.Prelude.{ℕ, suc, String, Option, none, some, List, [], ◌∷◌}
use sanuvia_reasoning_engine.Prelude.Tests.{if◌then◌else◌}
use sanuvia_reasoning_engine.Domain.Cognitive.{CognitiveState}
use sanuvia_reasoning_engine.Domain.Errors.{Result, ok, err, ◌>>=◌}
use sanuvia_reasoning_engine.Domain.Evidence.{
  EvidenceRecord, EvidenceClass, EvidenceStanding, SourceObservationRef, make_evidence,
  make_provenance, truthy,
}
use sanuvia_reasoning_engine.Stores.Bundle.{Bundle}
use sanuvia_reasoning_engine.Stores.Snapshots.{
  StoreState, bundle_stores, with_stores, store_snapshots,
}
use sanuvia_reasoning_engine.Reasoning.CoreLoop.{InteractionResult, ingest_batch}
use sanuvia_reasoning_engine.Reasoning.Revising.{Engine}
use sanuvia_reasoning_engine.Reasoning.Scoring.{make_unit}
use sanuvia_reasoning_engine.Reasoning.UnitOfWork.{UnitOfWork, new_unit, begin, restore}

pub record EvidenceInput (F : Type 0) : Type 0 where
  pub subject_id : String
  pub evidence_class : EvidenceClass
  pub content : String
  pub source : String
  pub reliability : F
  pub classification_confidence : F
  pub provenance_confidence : F
  pub occurred_at : Option ℕ
  pub acquisition_metadata : List (String × String)
  pub space_id : Option String
  pub actor_id : Option String
  pub source_ref : Option SourceObservationRef
  pub standing : Option EvidenceStanding

abbrev time_or : Option ℕ → ℕ → ℕ
time_or none now = now
time_or (some t) now = t

abbrev text_or : Option String → String → String
text_or none other = other
text_or (some t) other = if truthy (some t) then t else other

-- `read_at n` is what the clock reads for the record of the `n`-th input.
module _ {F S : Type 0} (d : Engine F S) (read_at : ℕ → ℕ) (space : String) where
  -- `_to_record`: the id is issued first, and every uncertainty value is in its range.
  to_record : ℕ → EvidenceInput F → S → Result (EvidenceRecord F × S)
  to_record n item ids =
      let (id, ids') = d.new_id ids "evidence" in
      make_unit d.floats item.provenance_confidence >>= λ provenance_confidence.
      make_provenance (record {
        source = item.source;
        confidence = provenance_confidence;
        acquisition_metadata = item.acquisition_metadata;
      })
      >>= λ provenance. make_unit d.floats item.reliability >>= λ reliability.
          make_unit d.floats item.classification_confidence >>= λ classification_confidence.
          make_evidence (record {
            id = id;
            subject_id = item.subject_id;
            evidence_class = item.evidence_class;
            content = item.content;
            provenance = provenance;
            reliability = reliability;
            classification_confidence = classification_confidence;
            occurred_at = time_or item.occurred_at (read_at n);
            origin_ref = none;
            space_id = text_or item.space_id space;
            actor_id = item.actor_id;
            source_ref = item.source_ref;
            standing = item.standing;
          })
          >>= λ r. ok (r, ids')

  to_records_from : ℕ → List (EvidenceInput F) → S → Result (List (EvidenceRecord F) × S)
  unfolding to_record
  to_records_from n [] ids = ok ([], ids)
  to_records_from n (i ∷ is) ids = to_record n i ids >>= λ (r, ids').
      to_records_from (suc n) is ids' >>= λ (rs, ids''). ok (r ∷ rs, ids'')

  pub to_records : List (EvidenceInput F) → S → Result (List (EvidenceRecord F) × S)
  unfolding to_records_from
  to_records = to_records_from 0

-- What the caller has after an interaction: the stores, the ids, and what is returned or raised
abbrev Interaction : Type 0 → Type 0 → Type 0
Interaction F S = (Bundle F × S) × Result (InteractionResult F)

-- `issued` is the state of the ids where a step raises, whatever it is. The unit is the interaction's own, and
-- its `commit` changes nothing else.
module _ {F S : Type 0} (issued : S) where
  -- `except BaseException: uow.restore(); raise`, and what the loop returns otherwise
  pub settle :
      UnitOfWork (StoreState F) S → Bundle F × Result (InteractionResult F × S) → Interaction F S
  unfolding bundle_stores with_stores restore
  settle u (b, ok (r, ids)) = ((b, ids), ok r)
  settle u (b, err e) =
      let (stores, ids) = (restore store_snapshots u (bundle_stores b) issued).1 in
      ((with_stores b stores, ids), err e)

module _ {F S : Type 0} (d : Engine F S) (current_state : String → CognitiveState) (now : ℕ)
    (subject space : String) where
  pub taken :
      Bundle F → Result (List (EvidenceRecord F) × S) → Bundle F × Result (InteractionResult F × S)
  unfolding ingest_batch
  taken b (err e) = (b, err e)
  taken b (ok (records, ids)) = ingest_batch d current_state now subject space b records ids

-- `now` is what the clock reads for the plan.
module _ {F S : Type 0} (d : Engine F S) (current_state : String → CognitiveState) (read_at : ℕ → ℕ)
    (now : ℕ) (subject space : String) where
  -- The body of `try`
  pub take_inputs :
      Bundle F → List (EvidenceInput F) → S → Bundle F × Result (InteractionResult F × S)
  unfolding to_records taken
  take_inputs b inputs ids =
      taken d current_state now subject space b (to_records d read_at space inputs ids)

  unfoldable pub record_interaction : S → Bundle F → List (EvidenceInput F) → S → Interaction F S
  unfolding settle take_inputs begin bundle_stores
  record_interaction issued b inputs ids =
      elim (begin store_snapshots new_unit (bundle_stores b) (some ids)) [
        | err e ↦ ((b, ids), err e)
        | ok u ↦ settle issued u (take_inputs b inputs ids)
      ]
