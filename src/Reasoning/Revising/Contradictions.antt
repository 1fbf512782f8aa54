-- ===== src/Reasoning/Revising/Contradictions.antt =====
-- What a contradiction does to a run (`_contradict` and `_weaken` of
-- src/sanuvia/application/reasoning/model_revision.py). `F` is the type of the program's floats.
use sanuvia_reasoning_engine.Prelude.{String, ◌≡◌, ◌⊎◌, true, false, Option, some, [], ◌∷◌, ◌++◌}
use sanuvia_reasoning_engine.Prelude.Tests.{string_eq}
use sanuvia_reasoning_engine.Prelude.Lists.{contains}
use sanuvia_reasoning_engine.Prelude.Dict.{put}
use sanuvia_reasoning_engine.Domain.Evidence.{EvidenceRecord}
use sanuvia_reasoning_engine.Domain.Hypothesis.{Hypothesis}
use sanuvia_reasoning_engine.Domain.Revision.{RevisionEvent, AnomalyResolution}
use sanuvia_reasoning_engine.Reasoning.Revising.{Engine, Scene, Run, disposition_for, is_revise}

-- The next evaluation of a hypothesis, given by an observation that contradicts it
pub record IsContradicted {F : Type 0} (eid : String) (prev h : Hypothesis F) : Type 0 where
  pub hypothesis : h.hypothesis_id ≡ prev.hypothesis_id
  pub statement : h.statement ≡ prev.statement
  pub supersedes : h.supersedes_record_id ≡ some prev.record_id
  pub supporting : h.supporting_evidence_ids ≡ prev.supporting_evidence_ids
  pub contradicting : contains eid h.contradicting_evidence_ids ≡ true

-- An event about the hypothesis, triggered by the observation, that cites the anomaly, if there is one
abbrev IsTriggered : String → String → Option String → RevisionEvent → Type 0
IsTriggered hid eid anomaly e =
    (e.affected_object_id ≡ hid)
    × (e.triggering_evidence_ids ≡ eid ∷ [])
    × (e.anomaly_resolution_id ≡ anomaly)

module _ {F S : Type 0} where
  -- The run goes on with one evaluation and one event more, and otherwise differs in ids, anomalies and edges
  -- alone.
  abbrev pub IsWeakened :
      EvidenceRecord F → Hypothesis F → Option String → Run F S → Run F S → Type 0
  IsWeakened evidence prev anomaly r r' =
      (h : Hypothesis F) × (e : RevisionEvent) × IsContradicted evidence.id prev h
      × IsTriggered prev.hypothesis_id evidence.id anomaly e
      × (r'.working ≡ put r.working prev.hypothesis_id h)
      × (r'.intents ≡ r.intents ++ record { event = e; record_written = some h } ∷ [])
      × (r' ≡ record r {
        ids = r'.ids;
        anomalies = r'.anomalies;
        working = r'.working;
        intents = r'.intents;
        edges = r'.edges;
      })

module _ {F S : Type 0} (d : Engine F S) (c : Scene F) where
  -- The anomaly of the contradiction of an established hypothesis
  abbrev IsAnomaly : EvidenceRecord F → AnomalyResolution → Type 0
  IsAnomaly evidence a =
      (a.disposition ≡ disposition_for d c evidence.reliability)
      × (a.triggering_evidence_ids ≡ evidence.id ∷ [])
      × (a.subject_id ≡ c.subject_id)
      × (a.space_id ≡ c.space_id)

  -- What the run is after the contradiction of an established hypothesis
  abbrev pub IsResolved : EvidenceRecord F → Hypothesis F → Run F S → Run F S → Type 0
  IsResolved evidence prev r r' =
      (a : AnomalyResolution) × IsAnomaly evidence a
      × (r'.anomalies ≡ r.anomalies ++ a ∷ [])
      × (((is_revise (disposition_for d c evidence.reliability) ≡ true)
            × IsWeakened evidence prev (some a.id) r r')
          ⊎ ((is_revise (disposition_for d c evidence.reliability) ≡ false)
              × (r' ≡ record r { ids = r'.ids; anomalies = r'.anomalies })))
