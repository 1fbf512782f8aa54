-- ===== src/Reasoning/Service/Atomic.antt =====
-- The rollback of an interaction of src/sanuvia/application/api/service.py. `F` is the type of the program's floats
-- and `S` the state of the id generator.
use mathlib.Core.Path.{ap₂}
use sanuvia_reasoning_engine.Prelude.{
  ℕ, String, ◌≡◌, refl, sym, ◌∙◌, true, subst, ◌⊎◌, inl, inr, some, List,
}
use sanuvia_reasoning_engine.Domain.Cognitive.{CognitiveState}
use sanuvia_reasoning_engine.Domain.Errors.{Result, Error, ok, err}
use sanuvia_reasoning_engine.Domain.Evidence.{EvidenceRecord}
use sanuvia_reasoning_engine.Stores.Bundle.{Bundle}
use sanuvia_reasoning_engine.Stores.Snapshots.{
  StoreState, bundle_stores, with_store, with_stores, store_snapshots,
}
use sanuvia_reasoning_engine.Reasoning.CoreLoop.{InteractionResult}
use sanuvia_reasoning_engine.Reasoning.CoreLoop.Gate.{IsCommitOf, ingest_batch-returns}
use sanuvia_reasoning_engine.Reasoning.Revising.{Engine}
use sanuvia_reasoning_engine.Reasoning.Revising.Orphans.{HasNoOrphan, commit_plan-HasNoOrphan}
use sanuvia_reasoning_engine.Reasoning.Service.{
  EvidenceInput, to_records, settle, taken, take_inputs, record_interaction,
}
use sanuvia_reasoning_engine.Reasoning.UnitOfWork.{
  take_tokens, reinstate_at, reinstate_all, UnitOfWork, begin, restore, or_kept,
}

module _ {F S : Type 0} (issued : S) where
  -- The unit's restore makes of the bundle, in whatever state, the bundle `b` and of the ids `ids`.
  abbrev IsUndone : Bundle F → S → UnitOfWork (StoreState F) S → Bundle F → Type 0
  IsUndone b ids u b' =
      (with_stores b' (restore store_snapshots u (bundle_stores b') issued).1.0 ≡ b)
      × ((restore store_snapshots u (bundle_stores b') issued).1.1 ≡ ids)

  -- A unit that brings back the stores `b` and the ids `ids` does so whenever the body raises.
  settle-cases :
      (u : UnitOfWork (StoreState F) S) (b : Bundle F) (ids : S)
      (w : Bundle F × Result (InteractionResult F × S))
      → ((b' : Bundle F) → IsUndone b ids u b')
      → (((settle issued u w).0 ≡ (b, ids)) × ((e : Error) × ((settle issued u w).1 ≡ err e)))
        ⊎ ((r : InteractionResult F × S) × (w.1 ≡ ok r)
            × ((settle issued u w).1 ≡ ok r.0)
            × ((settle issued u w).0.0 ≡ w.0))
  unfolding settle
  settle-cases u b ids (b', ok r) back = inr (r, refl, refl, refl)
  settle-cases u b ids (b', err e) back =
      inl (let (p, q) = back b' in ap₂ (λ x y. (x, y)) p q, (e, refl))

module _ {F S : Type 0} (d : Engine F S) (current_state : String → CognitiveState) (now : ℕ)
    (subject space : String) where
  taken-returns :
      (b : Bundle F) (m : Result (List (EvidenceRecord F) × S)) (r : InteractionResult F × S)
      → (taken d current_state now subject space b m).1 ≡ ok r
      → (q : List (EvidenceRecord F) × S) × (m ≡ ok q)
        × IsCommitOf d now subject space b q.0 q.1 (taken d current_state now subject space b m).0
  unfolding taken
  taken-returns b (err e) r h = cc
  taken-returns b (ok q) r h =
      (q, refl, ingest_batch-returns d current_state now subject space b q.0 q.1 r h)

module _ {F S : Type 0} (d : Engine F S) (current_state : String → CognitiveState) (read_at : ℕ → ℕ)
    (now : ℕ) (subject space : String) where
  -- For stores in which every lineage, and every lineage with a statement, has a hypothesis record, and
  -- whatever the ids are where a step raises and whatever the clock reads: an interaction either raises, and
  -- the stores and the ids are those from before it; or it returns, its inputs make records that all belong
  -- to its subject and its space, the engine has a plan of them, this plan passes the validation over the
  -- stores, its commit returns and leaves the stores that the interaction leaves, and in these, too, every
  -- such lineage has a hypothesis record.
  pub record_interaction-IsAtomic :
      (issued : S) (b : Bundle F) (inputs : List (EvidenceInput F)) (ids : S)
      → HasNoOrphan b
      → (((record_interaction d current_state read_at now subject space issued b inputs ids).0
            ≡ (b, ids))
          × ((e : Error) × ((record_interaction d current_state read_at now subject space issued b
                  inputs ids).1
                ≡ err e)))
        ⊎ ((r : InteractionResult F) × ((record_interaction d current_state read_at now subject
                space issued b inputs ids).1
              ≡ ok r)
            × ((q : List (EvidenceRecord F) × S) × (to_records d read_at space inputs ids ≡ ok q)
                × IsCommitOf d now subject space b q.0 q.1
                    (record_interaction d current_state read_at now subject space issued b inputs
                      ids).0.0)
            × HasNoOrphan
                (record_interaction d current_state read_at now subject space issued b inputs
                  ids).0.0)
  unfolding record_interaction begin take_tokens restore reinstate_all reinstate_at or_kept
      take_inputs bundle_stores with_stores with_store
  record_interaction-IsAtomic issued b inputs ids held =
      let u : UnitOfWork (StoreState F) S = record {
        tokens = bundle_stores b;
        ids_token = some ids;
        is_open = true;
      } in
      let w = take_inputs d current_state read_at now subject space b inputs ids in
      elim (settle-cases issued u b ids w (λ b'. (refl, refl))) [
        | inl raised ↦ inl raised
        | inr (r, ran, returned, left) ↦
            let (q, made, (owned, (p, planned, valid, wrote, same))) =
              taken-returns d current_state now subject space b
                (to_records d read_at space inputs ids) r ran in
            let stores = left ∙ same in
            inr (
              r.0,
              returned,
              (q, made, (owned, (p, planned, valid, wrote, stores))),
              subst HasNoOrphan (sym stores) (commit_plan-HasNoOrphan p.0 b held wrote).0,
            )
      ]
