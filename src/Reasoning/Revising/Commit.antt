-- ===== src/Reasoning/Revising/Commit.antt =====
-- `commit_plan`, the sole writer, of src/sanuvia/application/reasoning/model_revision.py, on the bundle of the
-- in-memory stores, which keeps every optional store. A write that raises leaves what was written before it.
use sanuvia_reasoning_engine.Prelude.{String, not, Option, none, some, List, [], ◌∷◌, map}
use sanuvia_reasoning_engine.Prelude.Tests.{if◌then◌else◌, string_eq}
use sanuvia_reasoning_engine.Prelude.Lists.{contains}
use sanuvia_reasoning_engine.Domain.Errors.{Result, Check, ok, err, ◌>>=◌}
use sanuvia_reasoning_engine.Domain.Evidence.{EvidenceRecord}
use sanuvia_reasoning_engine.Domain.Hypothesis.{Hypothesis, HypothesisLineage, StatementVersion}
use sanuvia_reasoning_engine.Domain.Dependency.{DependencyEdge}
use sanuvia_reasoning_engine.Domain.Identity.{IdentityAdjudication}
use sanuvia_reasoning_engine.Domain.Inquiry.{Inquiry}
use sanuvia_reasoning_engine.Domain.Prediction.{Prediction}
use sanuvia_reasoning_engine.Domain.Revision.{AnomalyResolution, RevisionEvent}
use sanuvia_reasoning_engine.Domain.WorldModel.{WorldModel, ProvenanceRecord, CurrentModelSnapshot}
use sanuvia_reasoning_engine.Stores.Bundle.{
  Bundle, add_resolution, add_provenance, add_edge, add_adjudication,
}
use sanuvia_reasoning_engine.Stores.Evidence.{add as add_evidence}
use sanuvia_reasoning_engine.Stores.Hypotheses.{add as add_hypothesis}
use sanuvia_reasoning_engine.Stores.Inquiries.{add_inquiry}
use sanuvia_reasoning_engine.Stores.Ledger.{append}
use sanuvia_reasoning_engine.Stores.Lineages.{add_lineage}
use sanuvia_reasoning_engine.Stores.Predictions.{add_prediction}
use sanuvia_reasoning_engine.Stores.Versions.{append_version}
use sanuvia_reasoning_engine.Stores.WorldModels.{append_model, set_current_pointer}
use sanuvia_reasoning_engine.Reasoning.Revising.Plan.{PlannedRevision}

-- The stores when a sequence of writes returns or raises
abbrev pub Written : Type 0 → Type 0
Written B = B × Check

unfoldable pub then_write : {B : Type 0} → Written B → (B → Written B) → Written B
then_write (b, ok _) f = f b
then_write (b, err e) f = (b, err e)

unfoldable pub after_write : {B : Type 0} → B → Result B → (B → Written B) → Written B
after_write b (ok b') f = f b'
after_write b (err e) f = (b, err e)

-- `for x in xs: write(x)`
unfoldable pub write_all : {A B : Type 0} → (A → B → Result B) → List A → B → Written B
unfolding after_write
write_all write [] b = (b, ok tt)
write_all write (x ∷ xs) b = after_write b (write x b) (λ b'. write_all write xs b')

abbrev pub listed_option : {A : Type 0} → Option A → List A
listed_option none = []
listed_option (some a) = a ∷ []

module _ {F : Type 0} where
  unfoldable pub write_evidence : EvidenceRecord F → Bundle F → Result (Bundle F)
  write_evidence r b = add_evidence b.evidence r >>= λ s. ok (record b { evidence = s })

  unfoldable pub write_anomaly : AnomalyResolution → Bundle F → Result (Bundle F)
  write_anomaly a b = ok (record b { anomalies = add_resolution b.anomalies a })

  -- Only a hypothesis that commits gets its lineage.
  unfoldable pub write_lineage : List String → HypothesisLineage → Bundle F → Result (Bundle F)
  write_lineage ids l b =
      if not (contains l.hypothesis_id ids)
      then ok b
      else add_lineage b.lineages l >>= λ s. ok (record b { lineages = s })

  unfoldable pub write_version : List String → StatementVersion → Bundle F → Result (Bundle F)
  write_version ids v b =
      if contains v.hypothesis_id ids
      then ok (record b { statement_versions = append_version b.statement_versions v })
      else ok b

  unfoldable pub write_adjudication : IdentityAdjudication F → Bundle F → Result (Bundle F)
  write_adjudication a b = add_adjudication b.identity_adjudications a >>= λ s.
      ok (record b { identity_adjudications = s })

  unfoldable pub write_hypothesis : Hypothesis F → Bundle F → Result (Bundle F)
  write_hypothesis h b = ok (record b { hypotheses = add_hypothesis b.hypotheses h })

  unfoldable pub write_event : RevisionEvent → Bundle F → Result (Bundle F)
  write_event e b = append b.ledger e >>= λ (l, entry). ok (record b { ledger = l })

  unfoldable pub write_edge : DependencyEdge → Bundle F → Result (Bundle F)
  write_edge e b = ok (record b { dependencies = add_edge b.dependencies e })

  unfoldable pub write_prediction : Prediction F → Bundle F → Result (Bundle F)
  write_prediction p b = ok (record b { predictions = add_prediction b.predictions p })

  unfoldable pub write_inquiry : Inquiry F → Bundle F → Result (Bundle F)
  write_inquiry i b = ok (record b { inquiries = add_inquiry b.inquiries i })

  unfoldable pub write_provenance : ProvenanceRecord → Bundle F → Result (Bundle F)
  write_provenance p b = ok (record b { provenance = add_provenance b.provenance p })

  unfoldable pub write_model : WorldModel F → Bundle F → Result (Bundle F)
  write_model m b = append_model b.world_models m >>= λ s. ok (record b { world_models = s })

  unfoldable pub write_pointer : CurrentModelSnapshot → Bundle F → Result (Bundle F)
  write_pointer p b = ok (record b { world_models = set_current_pointer b.world_models p })

  -- `if plan.committed:` the provenance, the model and its pointer
  unfoldable pub write_committed : PlannedRevision F → Bundle F → Written (Bundle F)
  unfolding write_provenance write_model write_pointer write_all then_write
  write_committed p b =
      if p.is_committed_plan
      then then_write
          (then_write (write_all write_provenance (listed_option p.provenance) b)
            (write_all write_model (listed_option p.model)))
          (write_all write_pointer (listed_option p.current_pointer))
      else (b, ok tt)

  -- `{record.hypothesis_id for record in plan.records}`
  abbrev pub committed_hypotheses : PlannedRevision F → List String
  committed_hypotheses p = map (λ (h : Hypothesis F). h.hypothesis_id) p.records

  -- What comes before the hypotheses
  unfoldable pub write_semantics : PlannedRevision F → Bundle F → Written (Bundle F)
  unfolding write_evidence write_anomaly write_lineage write_version write_adjudication write_all
      then_write
  write_semantics p b =
      let ids = committed_hypotheses p in
      then_write
        (then_write
          (then_write
            (then_write (write_all write_evidence p.evidence b)
              (write_all write_anomaly p.anomalies))
            (write_all (write_lineage ids) p.lineages))
          (write_all (write_version ids) p.statement_versions))
        (write_all write_adjudication p.adjudications)

  -- What comes after them, but for the committed model
  unfoldable pub write_history : PlannedRevision F → Bundle F → Written (Bundle F)
  unfolding write_event write_edge write_prediction write_inquiry write_all then_write
  write_history p b =
      then_write
        (then_write
          (then_write (write_all write_event p.committed_events b) (write_all write_edge p.edges))
          (write_all write_prediction p.predictions))
        (write_all write_inquiry (listed_option p.inquiry))

  unfoldable pub commit_plan : PlannedRevision F → Bundle F → Written (Bundle F)
  unfolding write_semantics write_hypothesis write_history write_committed then_write write_all
  commit_plan p b =
      then_write
        (then_write (then_write (write_semantics p b) (write_all write_hypothesis p.records))
          (write_history p))
        (write_committed p)
