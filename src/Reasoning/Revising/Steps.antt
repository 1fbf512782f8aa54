-- ===== src/Reasoning/Revising/Steps.antt =====
-- The run's invariant through every step of src/sanuvia/application/reasoning/model_revision.py: bearings,
-- decisions, divergences and the ingestion of a batch.
use sanuvia_reasoning_engine.Prelude.{String, inl, inr, not, Option, none, some, List, [], ◌∷◌}
use sanuvia_reasoning_engine.Prelude.Tests.{string_eq, pair_eq}
use sanuvia_reasoning_engine.Prelude.Lists.{contains}
use sanuvia_reasoning_engine.Prelude.Dict.{Dict, get}
use sanuvia_reasoning_engine.Domain.Errors.{Result, ok, err}
use sanuvia_reasoning_engine.Domain.Dependency.{canonical_divergence_pair}
use sanuvia_reasoning_engine.Domain.Evidence.{EvidenceRecord}
use sanuvia_reasoning_engine.Domain.Hypothesis.{Hypothesis, CommitmentSignature}
use sanuvia_reasoning_engine.Domain.Identity.{
  IdentityDecision, match_existing, refine_existing, distinct_new, ambiguous_review_required,
}
use sanuvia_reasoning_engine.Domain.Prediction.{FutureTrajectory}
use sanuvia_reasoning_engine.Reasoning.Ports.{
  CandidateProposal, BearingKind, DivergenceProposal, AppraisalResponse, supports, weakens,
  contradicts, unchanged,
}
use sanuvia_reasoning_engine.Reasoning.Handles.{HandleTable, resolve_divergence_candidate}
use sanuvia_reasoning_engine.Reasoning.Identity.{adjudicate}
use sanuvia_reasoning_engine.Reasoning.Scoring.{le}
use sanuvia_reasoning_engine.Reasoning.Revising.{
  Engine, Scene, Run, weaken_hypothesis, strengthen_hypothesis, strengthen_with,
  contradict_established, contradict_with, note_trajectory, is_revise, disposition_for,
}
use sanuvia_reasoning_engine.Reasoning.Revising.Decisions.{
  resolve_signature, apply_decision, park_candidate, attach_match, refine_lineage, found_lineage,
}
use sanuvia_reasoning_engine.Reasoning.Revising.Ingest.{
  record_divergence, add_divergences, adjudicate_proposals, interpret, apply_bearing,
  apply_bearings, audited, take_response, ingest, ingest_all, is_proposed, is_blank,
  resolve_bearings,
}
use sanuvia_reasoning_engine.Reasoning.Revising.Projection.{
  request_for, request_table, may_appraise,
}
use sanuvia_reasoning_engine.Reasoning.Revising.Replay.{
  Then, bind-Then, bind-any, if-Then, option-Then, ok-Then, err-Then, IsRun, enter-IsRun,
  hyp_record-IsScoped, All-append, All-map,
}

audited-Then :
    {A : Type 0} (P : A → Type 0) (raws : List (String × Option String))
    (response : AppraisalResponse) (m : Result A)
    → Then P m
    → Then P (audited raws response m)
unfolding audited
audited-Then P raws response (ok a) h = h
audited-Then P raws response (err e) h = err-Then _ _

note_trajectory-IsRun :
    {F S : Type 0} (d : Engine F S) (c : Scene F) (base : Dict String (Hypothesis F)) (hid : String)
    (o : Option FutureTrajectory) (r : Run F S)
    → IsRun d c base r
    → IsRun d c base (note_trajectory hid o r)
unfolding note_trajectory
note_trajectory-IsRun d c base hid none r h = h
note_trajectory-IsRun d c base hid (some t) r h = h

module _ {F S : Type 0} (d : Engine F S) (c : Scene F) (base : Dict String (Hypothesis F)) where
  weaken_hypothesis-IsRun :
      (evidence : EvidenceRecord F) (prev : Hypothesis F) (o : Option String) (r : Run F S)
      → IsRun d c base r
      → Then (IsRun d c base) (weaken_hypothesis d c evidence prev o r)
  unfolding weaken_hypothesis
  weaken_hypothesis-IsRun evidence prev o r h =
      bind-Then _ _ _ _ (hyp_record-IsScoped d c r.ids prev.hypothesis_id prev.statement _ _ _ _)
        (λ (k, ids') (scoped, e).
          enter-IsRun d c base evidence k _ o _ (record r { ids = ids' }) scoped h.0 h.1
            (All-map (λ l q. inl q) r.lineages h.2))

  strengthen_hypothesis-IsRun :
      (evidence : EvidenceRecord F) (hid : String) (prev : Hypothesis F) (r : Run F S)
      → IsRun d c base r
      → Then (IsRun d c base) (strengthen_hypothesis d c evidence hid prev r)
  unfolding strengthen_hypothesis
  strengthen_hypothesis-IsRun evidence hid prev r h =
      bind-Then _ _ _ _ (hyp_record-IsScoped d c r.ids hid prev.statement _ _ _ _)
        (λ (k, ids') (scoped, e).
          enter-IsRun d c base evidence k _ none _ (record r { ids = ids' }) scoped h.0 h.1
            (All-map (λ l q. inl q) r.lineages h.2))

  strengthen_with-IsRun :
      (evidence : EvidenceRecord F) (hid : String) (r : Run F S)
      → IsRun d c base r
      → Then (IsRun d c base) (strengthen_with d c evidence hid r)
  unfolding strengthen_with
  strengthen_with-IsRun evidence hid r h =
      option-Then _ (get r.working hid) _ _ (ok-Then _ _ h) (λ prev.
        if-Then _ (contains evidence.id prev.supporting_evidence_ids) _ _ (ok-Then _ _ h)
          (strengthen_hypothesis-IsRun evidence hid prev r h))

  contradict_established-IsRun :
      (evidence : EvidenceRecord F) (hid : String) (prev : Hypothesis F) (r : Run F S)
      → IsRun d c base r
      → Then (IsRun d c base) (contradict_established d c evidence hid prev r)
  unfolding contradict_established
  contradict_established-IsRun evidence hid prev r h = bind-any _ _ _ (λ a.
      if-Then _ (is_revise (disposition_for d c evidence.reliability)) _ _
        (weaken_hypothesis-IsRun evidence prev _ _ h) (ok-Then _ _ h))

  contradict_with-IsRun :
      (evidence : EvidenceRecord F) (hid : String) (r : Run F S)
      → IsRun d c base r
      → Then (IsRun d c base) (contradict_with d c evidence hid r)
  unfolding contradict_with
  contradict_with-IsRun evidence hid r h =
      option-Then _ (get r.working hid) _ _ (ok-Then _ _ h) (λ prev.
        if-Then _ (le d.floats d.config.established_support_threshold prev.support) _ _
          (contradict_established-IsRun evidence hid prev r h)
          (weaken_hypothesis-IsRun evidence prev none r h))

  found_lineage-IsRun :
      (signature : CommitmentSignature) (p : CandidateProposal) (evidence : EvidenceRecord F)
      (r : Run F S)
      → IsRun d c base r
      → Then (IsRun d c base) (found_lineage d c signature p evidence r)
  unfolding found_lineage
  found_lineage-IsRun signature p evidence r h =
      let hid = (d.new_id r.ids "hyp").0 in
      let hinted = note_trajectory hid p.predicted_trajectory r in
      let k = note_trajectory-IsRun d c base hid p.predicted_trajectory r h in
      bind-any _ _ _ (λ (v, ids'').
        bind-Then _ _ _ _ (hyp_record-IsScoped d c ids'' hid p.statement _ _ _ _)
          (λ (new, ids''') (scoped, e).
            enter-IsRun d c base evidence new _ none _ _ scoped k.0 k.1 (
              All-append _ hinted.lineages _ (All-map (λ l q. inl q) hinted.lineages k.2) (inr e))))

  attach_match-IsRun :
      (o : Option String) (p : CandidateProposal) (evidence : EvidenceRecord F) (r : Run F S)
      → IsRun d c base r
      → Then (IsRun d c base) (attach_match d c o p evidence r)
  unfolding attach_match
  attach_match-IsRun none p evidence r h = ok-Then _ _ h
  attach_match-IsRun (some hid) p evidence r h =
      strengthen_with-IsRun evidence hid _
        (note_trajectory-IsRun d c base hid p.predicted_trajectory r h)

  refine_lineage-IsRun :
      (o : Option String) (signature : CommitmentSignature) (p : CandidateProposal)
      (evidence : EvidenceRecord F) (r : Run F S)
      → IsRun d c base r
      → Then (IsRun d c base) (refine_lineage d c o signature p evidence r)
  unfolding refine_lineage
  refine_lineage-IsRun none signature p evidence r h = ok-Then _ _ h
  refine_lineage-IsRun (some hid) signature p evidence r h = bind-any _ _ _ (λ (v, ids').
      strengthen_with-IsRun evidence hid _
        (note_trajectory-IsRun d c base hid p.predicted_trajectory _ h))

  apply_decision-IsRun :
      (decision : IdentityDecision F) (signature : CommitmentSignature) (p : CandidateProposal)
      (evidence : EvidenceRecord F) (r : Run F S)
      → IsRun d c base r
      → Then (IsRun d c base) (apply_decision d c decision signature p evidence r)
  unfolding apply_decision park_candidate
  apply_decision-IsRun decision signature p evidence r h =
      elim decision.outcome
        as (λ o. Then (IsRun d c base) (elim o [
          | ambiguous_review_required ↦ park_candidate d c decision signature p evidence r
          | match_existing ↦ attach_match d c decision.matched_hypothesis_id p evidence r
          | refine_existing ↦
              refine_lineage d c decision.matched_hypothesis_id signature p evidence r
          | distinct_new ↦ found_lineage d c signature p evidence r
        ])) [
          | ambiguous_review_required ↦ bind-any _ _ _ (λ a. ok-Then _ _ h)
          | match_existing ↦ attach_match-IsRun decision.matched_hypothesis_id p evidence r h
          | refine_existing ↦
              refine_lineage-IsRun decision.matched_hypothesis_id signature p evidence r h
          | distinct_new ↦ found_lineage-IsRun signature p evidence r h
        ]

  record_divergence-IsRun :
      (pair : String × String) (r : Run F S)
      → IsRun d c base r
      → Then (IsRun d c base) (record_divergence d c pair r)
  unfolding record_divergence
  record_divergence-IsRun pair r h =
      if-Then _ (contains pair c.existing_divergence_pairs) _ _ (ok-Then _ _ h) (
        if-Then _ (is_proposed pair r.edges) _ _ (ok-Then _ _ h)
          (bind-any _ _ _ (λ e. ok-Then _ _ h)))

  add_divergences-IsRun :
      (t : HandleTable) (evidence : EvidenceRecord F) (ps : List DivergenceProposal) (r : Run F S)
      → IsRun d c base r
      → Then (IsRun d c base) (add_divergences d c t evidence ps r)
  unfolding add_divergences
  add_divergences-IsRun t evidence [] r h = ok-Then _ _ h
  add_divergences-IsRun t evidence (p ∷ ps) r h =
      bind-any _ (resolve_divergence_candidate t p.with_evidence) _ (λ other.
        bind-any _ (canonical_divergence_pair evidence.id other) _ (λ pair.
          bind-Then _ _ _ _ (record_divergence-IsRun pair r h)
            (λ r' k. add_divergences-IsRun t evidence ps r' k)))

  adjudicate_proposals-IsRun :
      (t : HandleTable) (evidence : EvidenceRecord F) (raw : Option String)
      (ps : List CandidateProposal) (found : Dict String (String × Option String)) (r : Run F S)
      → IsRun d c base r
      → Then (λ p. IsRun d c base p.0) (adjudicate_proposals d c t evidence raw ps found r)
  unfolding adjudicate_proposals
  adjudicate_proposals-IsRun t evidence raw [] found r h = ok-Then _ _ h
  adjudicate_proposals-IsRun t evidence raw (p ∷ ps) found r h =
      if-Then _ (is_blank d.unicode p.statement) _ _ (err-Then _ _) (
        bind-any _ (resolve_signature p t) _ (λ signature.
          bind-any _ (adjudicate d.unicode p signature d.resolver c.committed_views r.in_flight) _
            (λ decision.
              bind-Then _ _ _ _ (apply_decision-IsRun decision signature p evidence _ h)
                (λ r' k. adjudicate_proposals-IsRun t evidence raw ps _ r' k))))

  apply_bearing-IsRun :
      (evidence : EvidenceRecord F) (hid : String) (kind : BearingKind) (r : Run F S)
      → IsRun d c base r
      → Then (IsRun d c base) (apply_bearing d c evidence hid kind r)
  unfolding apply_bearing
  apply_bearing-IsRun evidence hid supports r h = strengthen_with-IsRun evidence hid r h
  apply_bearing-IsRun evidence hid contradicts r h = contradict_with-IsRun evidence hid r h
  apply_bearing-IsRun evidence hid weakens r h =
      option-Then _ (get r.working hid) _ _ (ok-Then _ _ h)
        (λ prev. weaken_hypothesis-IsRun evidence prev none r h)
  apply_bearing-IsRun evidence hid unchanged r h = ok-Then _ _ h

  apply_bearings-IsRun :
      (evidence : EvidenceRecord F) (bs : List (String × BearingKind)) (r : Run F S)
      → IsRun d c base r
      → Then (IsRun d c base) (apply_bearings d c evidence bs r)
  unfolding apply_bearings
  apply_bearings-IsRun evidence [] r h = ok-Then _ _ h
  apply_bearings-IsRun evidence ((hid, kind) ∷ bs) r h =
      bind-Then _ _ _ _ (apply_bearing-IsRun evidence hid kind r h)
        (λ r' k. apply_bearings-IsRun evidence bs r' k)

  take_response-IsRun :
      (t : HandleTable) (evidence : EvidenceRecord F) (response : AppraisalResponse) (r : Run F S)
      → IsRun d c base r
      → Then (IsRun d c base) (take_response d c t evidence response r)
  unfolding take_response interpret
  take_response-IsRun t evidence response r h =
      bind-Then (λ p. IsRun d c base p.1.0) _ _ _
        (audited-Then _ _ _ _ (
          bind-any _ (resolve_bearings t response.bearings) _ (λ bearings.
            bind-Then _ _ _ _ (add_divergences-IsRun t evidence response.divergences _ h) (λ r' k.
              bind-Then _ _ _ _
                (adjudicate_proposals-IsRun t evidence response.raw_response response.proposals []
                  r' k)
                (λ done k'. ok-Then _ _ k')))))
        (λ (bearings, (r', found)) k. apply_bearings-IsRun evidence bearings _ k)

  ingest-IsRun :
      (evidence : EvidenceRecord F) (r : Run F S)
      → IsRun d c base r
      → Then (IsRun d c base) (ingest d c evidence r)
  unfolding ingest
  ingest-IsRun evidence r h = if-Then _ (not (may_appraise evidence.standing)) _ _ (ok-Then _ _ h) (
      bind-any _
        (d.appraise (request_for c (request_table c (d.new_id r.ids "req").0 evidence) evidence)) _
        (λ response. take_response-IsRun _ evidence response _ h))

  -- Whatever the appraiser and the resolver answer, a batch that is ingested leaves a run in which the working
  -- set is the entering one with the records of the intents written over it in their order, every intent
  -- proposes an event about the hypothesis whose evaluation it would write, in the run's subject and space and
  -- with a support in the unit range, and every new lineage has such an evaluation, if all this held before.
  pub ingest_all-IsRun :
      (batch : List (EvidenceRecord F)) (r : Run F S)
      → IsRun d c base r
      → Then (IsRun d c base) (ingest_all d c batch r)
  unfolding ingest_all
  ingest_all-IsRun [] r h = ok-Then _ _ h
  ingest_all-IsRun (e ∷ es) r h =
      bind-Then _ _ _ _ (ingest-IsRun e r h) (λ r' k. ingest_all-IsRun es r' k)
