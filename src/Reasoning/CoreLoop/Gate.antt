-- ===== src/Reasoning/CoreLoop/Gate.antt =====
-- What `CoreLoop.ingest` of src/sanuvia/application/reasoning/core_loop.py requires before it writes. `F` is the
-- type of the program's floats and `S` the state of the id generator.
use sanuvia_reasoning_engine.Prelude.{ℕ, String, ◌≡◌, refl, subst, ◌↔◌, inl, inr, List}
use sanuvia_reasoning_engine.Prelude.Tests.{◌==◌, string_eq, pair_eq, Bool-cases}
use sanuvia_reasoning_engine.Prelude.Lists.{In}
use sanuvia_reasoning_engine.Domain.Cognitive.{CognitiveState}
use sanuvia_reasoning_engine.Domain.Errors.{Result, Check, ok, err, ◌>>◌, ok-injective}
use sanuvia_reasoning_engine.Domain.Evidence.{EvidenceRecord}
use sanuvia_reasoning_engine.Stores.Bundle.{Bundle}
use sanuvia_reasoning_engine.Stores.WorldModels.{get_current_model}
use sanuvia_reasoning_engine.Reasoning.Validation.Loops.{each, each_iff, Passes, bind-ok}
use sanuvia_reasoning_engine.Reasoning.Revising.{Engine}
use sanuvia_reasoning_engine.Reasoning.Revising.Commit.{Written, commit_plan}
use sanuvia_reasoning_engine.Reasoning.Revising.Plan.{PlannedRevision, plan}
use sanuvia_reasoning_engine.Reasoning.CoreLoop.{
  check_owner, validate, prepare, observed, finish, ingest_batch, InteractionResult,
}

seq-ok : {A : Type 0} (c : Check) (m : Result A) (a : A) → (c >> m) ≡ ok a → Passes c × (m ≡ ok a)
seq-ok (ok tt) m a h = (refl, h)
seq-ok (err e) m a h = cc

module _ {F : Type 0} (subject space : String) where
  -- The record belongs to the subject and the space.
  abbrev IsOwned : EvidenceRecord F → Type 0
  IsOwned e = (e.subject_id ≡ subject) × (e.space_id ≡ space)

  check_owner_iff : (e : EvidenceRecord F) → Passes (check_owner subject space e) ↔ IsOwned e
  check_owner_iff e =
      let by_subject = string_eq.beq_iff e.subject_id subject in
      let by_space = string_eq.beq_iff e.space_id space in
      elim (Bool-cases (e.subject_id == subject)) [
        | inr t ↦ rw t (λ h. cc, λ (p, q). cc (by_subject.1 p, t))
        | inl t ↦ elim (Bool-cases (e.space_id == space)) [
          | inr k ↦ rw (t, k) (λ h. cc, λ (p, q). cc (by_space.1 q, k))
          | inl k ↦ rw (t, k) (λ h. (by_subject.0 t, by_space.0 k), λ h. refl)
        ]
      ]

module _ {F S : Type 0} (d : Engine F S) (now : ℕ) (subject space : String) where
  prepare-ok :
      (b : Bundle F) (batch : List (EvidenceRecord F)) (ids : S) (p : PlannedRevision F × S)
      → prepare d now subject space b batch ids ≡ ok p
      → ((e : EvidenceRecord F) → In e batch → IsOwned subject space e)
        × (plan d b now subject space batch (get_current_model b.world_models subject space) ids
            ≡ ok p)
        × Passes (validate d subject space b p.0)
  unfolding prepare
  prepare-ok b batch ids p h =
      let m =
        plan d b now subject space batch (get_current_model b.world_models subject space) ids in
      let (owned, rest) = seq-ok (each (check_owner subject space) batch) _ p h in
      let (q, planned, kept) =
        (bind-ok m (λ (planned, ids'). validate d subject space b planned >> ok (planned, ids'))
            p).0
          rest in
      let (valid, same) = seq-ok (validate d subject space b q.0) (ok q) p kept in
      let e = ok-injective same in
      (
        (each_iff (check_owner subject space) (IsOwned subject space)
              (check_owner_iff subject space) batch).0
            owned,
        subst (λ x. m ≡ ok x) e planned,
        subst (λ x. Passes (validate d subject space b x.0)) e valid,
      )

  -- What is known of the stores that an interaction that returns leaves
  abbrev pub IsCommitOf : Bundle F → List (EvidenceRecord F) → S → Bundle F → Type 0
  IsCommitOf b batch ids b' =
      ((e : EvidenceRecord F) → In e batch → IsOwned subject space e)
      × ((p : PlannedRevision F × S) × (plan d b now subject space batch
              (get_current_model b.world_models subject space) ids
            ≡ ok p)
          × Passes (validate d subject space b p.0)
          × ((commit_plan p.0 b).1 ≡ ok tt)
          × (b' ≡ (commit_plan p.0 b).0))

module _ {F S : Type 0} (d : Engine F S) (current_state : String → CognitiveState)
    (subject space : String) where
  observed-stores :
      (b : Bundle F) (batch : List (EvidenceRecord F)) (p : PlannedRevision F × S)
      (w : Written (Bundle F))
      → (observed d current_state subject space b batch p w).0 ≡ w.0
  observed-stores b batch p (b', ok _) = refl
  observed-stores b batch p (b', err e) = refl

  observed-returns :
      (b : Bundle F) (batch : List (EvidenceRecord F)) (p : PlannedRevision F × S)
      (w : Written (Bundle F)) (r : InteractionResult F × S)
      → (observed d current_state subject space b batch p w).1 ≡ ok r
      → w.1 ≡ ok tt
  observed-returns b batch p (b', ok tt) r h = refl
  observed-returns b batch p (b', err e) r h = cc

  finish-returns :
      (b : Bundle F) (batch : List (EvidenceRecord F)) (m : Result (PlannedRevision F × S))
      (r : InteractionResult F × S)
      → (finish d current_state subject space b batch m).1 ≡ ok r
      → (p : PlannedRevision F × S) × (m ≡ ok p)
        × ((finish d current_state subject space b batch m).0 ≡ (commit_plan p.0 b).0)
        × ((commit_plan p.0 b).1 ≡ ok tt)
  finish-returns b batch (err e) r h = cc
  finish-returns b batch (ok p) r h = (
    p,
    refl,
    observed-stores b batch p (commit_plan p.0 b),
    observed-returns b batch p (commit_plan p.0 b) r h,
  )

module _ {F S : Type 0} (d : Engine F S) (current_state : String → CognitiveState) (now : ℕ)
    (subject space : String) where
  pub ingest_batch-returns :
      (b : Bundle F) (batch : List (EvidenceRecord F)) (ids : S) (r : InteractionResult F × S)
      → (ingest_batch d current_state now subject space b batch ids).1 ≡ ok r
      → IsCommitOf d now subject space b batch ids
          (ingest_batch d current_state now subject space b batch ids).0
  unfolding ingest_batch
  ingest_batch-returns b batch ids r h =
      let (p, e, stores, wrote) =
        finish-returns d current_state subject space b batch
          (prepare d now subject space b batch ids) r h in
      let (owned, planned, valid) = prepare-ok d now subject space b batch ids p e in
      (owned, (p, planned, valid, wrote, stores))
