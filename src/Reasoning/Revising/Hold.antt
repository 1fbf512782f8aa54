-- ===== src/Reasoning/Revising/Hold.antt =====
-- A plan in which nothing commits (src/sanuvia/application/reasoning/model_revision.py): what it writes, and what
-- it leaves alone. `F` is the type of the program's floats.
use sanuvia_reasoning_engine.Prelude.{String, ◌≡◌, refl, ap, subst, false, Option, none, List, []}
use sanuvia_reasoning_engine.Domain.Errors.{Result, ok, err, ◌>>=◌, ok-injective}
use sanuvia_reasoning_engine.Domain.Evidence.{EvidenceRecord}
use sanuvia_reasoning_engine.Domain.Dependency.{DependencyEdge, is_diverges_with}
use sanuvia_reasoning_engine.Domain.Prediction.{FutureTrajectory}
use sanuvia_reasoning_engine.Domain.WorldModel.{WorldModel}
use sanuvia_reasoning_engine.Prelude.Lists.{keep}
use sanuvia_reasoning_engine.Prelude.Dict.{Dict}
use sanuvia_reasoning_engine.Stores.Bundle.{Bundle}
use sanuvia_reasoning_engine.Reasoning.Revising.{Engine, Scene, Run}
use sanuvia_reasoning_engine.Reasoning.Revising.Commit.{
  write_all, write_evidence, write_anomaly, write_lineage, write_version, write_adjudication,
  write_hypothesis, write_event, write_edge, write_prediction, write_inquiry, write_committed,
  write_semantics, write_history, commit_plan,
}
use sanuvia_reasoning_engine.Reasoning.Revising.Writes.{Leaves, write_all-keeps, then_write-keeps}
use sanuvia_reasoning_engine.Reasoning.Revising.Plan.{
  PlannedRevision, conclude, committed_intents, or_hold, held_plan,
}

module _ {F : Type 0} where
  -- The understanding is the same: hypotheses, lineages, statements, ledger, predictions, inquiries, models
  -- and their provenance.
  abbrev pub SameUnderstanding : Bundle F → Bundle F → Type 0
  SameUnderstanding b b' =
      (b'.hypotheses ≡ b.hypotheses)
      × (b'.lineages ≡ b.lineages)
      × (b'.statement_versions ≡ b.statement_versions)
      × (b'.ledger ≡ b.ledger)
      × (b'.predictions ≡ b.predictions)
      × (b'.inquiries ≡ b.inquiries)
      × (b'.world_models ≡ b.world_models)
      × (b'.provenance ≡ b.provenance)

  returns-keeps : (P : Bundle F → Type 0) (c b' : Bundle F) → P c → ok c ≡ ok b' → P b'
  returns-keeps P c b' k h = subst P (ok-injective h) k

  bind-keeps :
      {A : Type 0} (P : Bundle F → Type 0) (b' : Bundle F) (m : Result A) (f : A → Bundle F)
      → ((a : A) → P (f a))
      → (m >>= λ a. ok (f a)) ≡ ok b'
      → P b'
  bind-keeps P b' (ok a) f s h = subst P (ok-injective h) (s a)
  bind-keeps P b' (err e) f s h = cc

  none-keeps :
      {A : Type 0} (P : Bundle F → Type 0) (write : A → Bundle F → Result (Bundle F)) (b : Bundle F)
      → P b
      → Leaves P (write_all write [] b)
  unfolding write_all Leaves
  none-keeps P write b k = k

  -- A plan without records, events, predictions, inquiry and model
  abbrev nothing_of : PlannedRevision F → PlannedRevision F
  nothing_of p = record p {
    records = [];
    committed_events = [];
    predictions = [];
    inquiry = none;
    is_committed_plan = false;
  }

  semantics-Same :
      (p : PlannedRevision F) (b : Bundle F)
      → Leaves (SameUnderstanding b) (write_semantics (nothing_of p) b)
  unfolding write_semantics write_evidence write_anomaly write_lineage write_version
      write_adjudication
  semantics-Same p b =
      let P = SameUnderstanding b in
      then_write-keeps P _ _
        (then_write-keeps P _ _
          (then_write-keeps P _ _
            (then_write-keeps P _ _
              (write_all-keeps P write_evidence p.evidence
                (λ x b b' k h. bind-keeps P b' _ _ (λ s. k) h) b
                (refl, refl, refl, refl, refl, refl, refl, refl))
              (write_all-keeps P write_anomaly p.anomalies
                (λ x b b' k h. returns-keeps P _ b' k h)))
            (write_all-keeps P (write_lineage []) p.lineages
              (λ x b b' k h. returns-keeps P b b' k h)))
          (write_all-keeps P (write_version []) p.statement_versions
            (λ x b b' k h. returns-keeps P b b' k h)))
        (write_all-keeps P write_adjudication p.adjudications
          (λ x b b' k h. bind-keeps P b' _ _ (λ s. k) h))

  committed-Same :
      (b : Bundle F) (p : PlannedRevision F) (b' : Bundle F)
      → SameUnderstanding b b'
      → Leaves (SameUnderstanding b) (write_committed (nothing_of p) b')
  unfolding write_committed Leaves
  committed-Same b p b' k = k

  commit-Same :
      (p : PlannedRevision F) (b : Bundle F)
      → Leaves (SameUnderstanding b) (commit_plan (nothing_of p) b)
  unfolding commit_plan write_history write_edge
  commit-Same p b =
      let P = SameUnderstanding b in
      then_write-keeps P _ _
        (then_write-keeps P _ _
          (then_write-keeps P _ _ (semantics-Same p b) (none-keeps P write_hypothesis))
          (λ b' k.
            then_write-keeps P _ _
              (then_write-keeps P _ _
                (then_write-keeps P _ _ (none-keeps P write_event b' k)
                  (write_all-keeps P write_edge p.edges (λ x b b' k h. returns-keeps P _ b' k h)))
                (none-keeps P write_prediction))
              (none-keeps P write_inquiry)))
        (committed-Same b p)

  -- When the policy commits no event of a finished run, the run gives a plan that commits nothing, with the
  -- divergences among the run's edges and no other edge, and with the run's anomalies and parked candidates;
  -- and writing that plan, whether it returns or raises, leaves the hypotheses, lineages, statements, ledger,
  -- predictions, inquiries, models and provenance as they are.
  pub hold-SameUnderstanding :
      {S : Type 0} (d : Engine F S) (c : Scene F) (batch : List (EvidenceRecord F))
      (current_model : Option (WorldModel F)) (prior : Dict String FutureTrajectory) (r : Run F S)
      (b : Bundle F)
      → committed_intents d.should_commit r.intents ≡ []
      → (p : PlannedRevision F) × (conclude d c batch current_model prior r ≡ ok (p, r.ids))
        × (p.is_committed_plan ≡ false)
        × (p.edges ≡ keep (λ (e : DependencyEdge). is_diverges_with e.relation) r.edges)
        × (p.anomalies ≡ r.anomalies)
        × (p.adjudications ≡ r.adjudications)
        × SameUnderstanding b (commit_plan p b).0
  unfolding conclude held_plan Leaves
  hold-SameUnderstanding d c batch current_model prior r b quiet =
      let p = held_plan d c batch current_model r in
      (
        p,
        ap (or_hold d c batch current_model prior r) quiet,
        refl,
        refl,
        refl,
        refl,
        commit-Same p b,
      )
