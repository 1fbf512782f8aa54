-- ===== src/Reasoning/Revising/Writes.antt =====
-- Writes one after another, of src/sanuvia/application/reasoning/model_revision.py: what each of them keeps, the
-- sequence keeps, also where it raises. `F` is the type of the program's floats.
use sanuvia_reasoning_engine.Prelude.{◌≡◌, refl, subst, ◌⊎◌, inl, inr, List, [], ◌∷◌}
use sanuvia_reasoning_engine.Prelude.Tests.{Bool-cases, string_eq}
use sanuvia_reasoning_engine.Domain.Errors.{Result, Error, ok, err, ◌>>=◌, ok-injective}
use sanuvia_reasoning_engine.Domain.Evidence.{EvidenceRecord}
use sanuvia_reasoning_engine.Domain.Identity.{IdentityAdjudication}
use sanuvia_reasoning_engine.Domain.Revision.{RevisionEvent}
use sanuvia_reasoning_engine.Domain.WorldModel.{WorldModel}
use sanuvia_reasoning_engine.Stores.Bundle.{Bundle}
use sanuvia_reasoning_engine.Reasoning.Revising.Plan.{PlannedRevision}
use sanuvia_reasoning_engine.Reasoning.Revising.Commit.{
  Written, after_write, then_write, write_all, write_evidence, write_adjudication, write_event,
  write_edge, write_prediction, write_inquiry, write_provenance, write_model, write_pointer,
  write_committed, write_history, listed_option,
}

-- Cases of a result
pub Result-cases :
    {A : Type 0} (m : Result A) → ((a : A) × (m ≡ ok a)) ⊎ ((e : Error) × (m ≡ err e))
Result-cases (ok a) = inl (a, refl)
Result-cases (err e) = inr (e, refl)

-- The property holds of the stores that the writes leave.
unfoldable pub Leaves : {B : Type 0} → (B → Type 0) → Written B → Type 0
Leaves P w = P w.0

module _ {B : Type 0} (P : B → Type 0) where
  -- What every single write keeps, a loop of writes keeps, also where it raises.
  pub write_all-keeps :
      {A : Type 0} (write : A → B → Result B) (xs : List A)
      → ((x : A) (b b' : B) → P b → write x b ≡ ok b' → P b')
      → (b : B) → P b
      → Leaves P (write_all write xs b)
  unfolding write_all after_write Leaves
  write_all-keeps write [] step b p = p
  write_all-keeps write (x ∷ xs) step b p = elim (Result-cases (write x b)) [
    | inl (b', e) ↦ rw e (write_all-keeps write xs step b' (step x b b' p e))
    | inr (x', e) ↦ rw e p
  ]

  pub then_write-keeps :
      (w : Written B) (f : B → Written B)
      → Leaves P w
      → ((b : B) → P b → Leaves P (f b))
      → Leaves P (then_write w f)
  unfolding then_write Leaves
  then_write-keeps (b, ok t) f p step = step b p
  then_write-keeps (b, err e) f p step = p

pub then_write-returns :
    {B : Type 0} (w : Written B) (f : B → Written B)
    → (then_write w f).1 ≡ ok tt
    → (w.1 ≡ ok tt) × (then_write w f ≡ f w.0)
unfolding then_write
then_write-returns (b, ok tt) f h = (refl, refl)
then_write-returns (b, err e) f h = cc

module _ {F : Type 0} where
  -- A write that is none of a lineage, of a statement or of a hypothesis
  abbrev pub IsAside : Bundle F → Bundle F → Type 0
  IsAside b b' =
      (b.lineages ≡ b'.lineages)
      × (b.statement_versions ≡ b'.statement_versions)
      × (b.hypotheses ≡ b'.hypotheses)

  pub returns-IsAside : (b c b' : Bundle F) → IsAside b c → ok c ≡ ok b' → IsAside b b'
  returns-IsAside b c b' a h = subst (IsAside b) (ok-injective h) a

  bind-IsAside :
      {A : Type 0} (b b' : Bundle F) (m : Result A) (f : A → Bundle F)
      → ((a : A) → IsAside b (f a))
      → (m >>= λ a. ok (f a)) ≡ ok b'
      → IsAside b b'
  bind-IsAside b b' (ok a) f s h = returns-IsAside b (f a) b' (s a) h
  bind-IsAside b b' (err e) f s h = cc

  pub write_evidence-IsAside :
      (x : EvidenceRecord F) (b b' : Bundle F) → write_evidence x b ≡ ok b' → IsAside b b'
  unfolding write_evidence
  write_evidence-IsAside x b b' h = bind-IsAside b b' _ _ (λ s. (refl, refl, refl)) h

  pub write_adjudication-IsAside :
      (x : IdentityAdjudication F) (b b' : Bundle F) → write_adjudication x b ≡ ok b' → IsAside b b'
  unfolding write_adjudication
  write_adjudication-IsAside x b b' h = bind-IsAside b b' _ _ (λ s. (refl, refl, refl)) h

  write_model-IsAside :
      (x : WorldModel F) (b b' : Bundle F) → write_model x b ≡ ok b' → IsAside b b'
  unfolding write_model
  write_model-IsAside x b b' h = bind-IsAside b b' _ _ (λ s. (refl, refl, refl)) h

  write_event-IsAside :
      (x : RevisionEvent) (b b' : Bundle F) → write_event x b ≡ ok b' → IsAside b b'
  unfolding write_event
  write_event-IsAside x b b' h = bind-IsAside b b' _ _ (λ s. (refl, refl, refl)) h

-- A property that the writes aside keep
module _ {F : Type 0} (P : Bundle F → Type 0)
    (keeps : (b b' : Bundle F) → IsAside b b' → P b → P b') where
  pub aside-keeps :
      {A : Type 0} (write : A → Bundle F → Result (Bundle F)) (xs : List A)
      → ((x : A) (b b' : Bundle F) → write x b ≡ ok b' → IsAside b b')
      → (b : Bundle F) → P b
      → Leaves P (write_all write xs b)
  aside-keeps write xs aside =
      write_all-keeps P write xs (λ x b b' c h. keeps b b' (aside x b b' h) c)

  pub write_history-keeps :
      (p : PlannedRevision F) (b : Bundle F) → P b → Leaves P (write_history p b)
  unfolding write_history write_edge write_prediction write_inquiry
  write_history-keeps p b c =
      then_write-keeps P _ _
        (then_write-keeps P _ _
          (then_write-keeps P _ _
            (aside-keeps write_event p.committed_events write_event-IsAside b c)
            (aside-keeps write_edge p.edges
              (λ x b b' h. returns-IsAside b _ b' (refl, refl, refl) h)))
          (aside-keeps write_prediction p.predictions
            (λ x b b' h. returns-IsAside b _ b' (refl, refl, refl) h)))
        (aside-keeps write_inquiry (listed_option p.inquiry)
          (λ x b b' h. returns-IsAside b _ b' (refl, refl, refl) h))

  pub write_committed-keeps :
      (p : PlannedRevision F) (b : Bundle F) → P b → Leaves P (write_committed p b)
  unfolding Leaves write_committed write_provenance write_pointer
  write_committed-keeps p b c = elim (Bool-cases p.is_committed_plan) [
    | inr t ↦ rw t c
    | inl t ↦ rw t (
        then_write-keeps P _ _
          (then_write-keeps P _ _
            (aside-keeps write_provenance (listed_option p.provenance)
              (λ x b b' h. returns-IsAside b _ b' (refl, refl, refl) h) b c)
            (aside-keeps write_model (listed_option p.model) write_model-IsAside))
          (aside-keeps write_pointer (listed_option p.current_pointer)
            (λ x b b' h. returns-IsAside b _ b' (refl, refl, refl) h)))
  ]
