-- ===== src/Reasoning/Revising/Decisions.antt =====
-- How a run turns an identity decision into plan entries: `_apply_decision` and `_resolve_signature` of
-- src/sanuvia/application/reasoning/model_revision.py.
use sanuvia_reasoning_engine.Prelude.{String, true, Option, none, some, [], ◌∷◌, ◌++◌}
use sanuvia_reasoning_engine.Prelude.Tests.{string_eq, pair_eq}
use sanuvia_reasoning_engine.Prelude.Dict.{append_at}
use sanuvia_reasoning_engine.Domain.Errors.{Result, ok, ◌>>=◌}
use sanuvia_reasoning_engine.Domain.Evidence.{EvidenceRecord}
use sanuvia_reasoning_engine.Domain.Hypothesis.{
  CommitmentSignature, make_signature, StatementVersion, make_version,
}
use sanuvia_reasoning_engine.Domain.Dependency.{supports}
use sanuvia_reasoning_engine.Domain.Revision.{hypothesize}
use sanuvia_reasoning_engine.Domain.Identity.{
  IdentityDecision, match_existing, refine_existing, distinct_new, ambiguous_review_required,
  make_adjudication, parked,
}
use sanuvia_reasoning_engine.Reasoning.Ports.{CandidateProposal}
use sanuvia_reasoning_engine.Reasoning.Handles.{HandleTable, resolve_participant}
use sanuvia_reasoning_engine.Reasoning.Identity.{candidate_key}
use sanuvia_reasoning_engine.Reasoning.Scoring.{support_after_support}
use sanuvia_reasoning_engine.Reasoning.Revising.{
  Engine, Scene, Run, hyp_record, enter, strengthen_with, note_trajectory,
}

unfoldable pub resolve_signature : CandidateProposal → HandleTable → Result CommitmentSignature
resolve_signature p table = resolve_participant table p.signature.subject >>= λ subject.
    make_signature (record {
      subject = subject;
      attribution = p.signature.attribution;
      claim_class = p.signature.claim_class;
      stance = p.signature.stance;
      temporal_scope = p.signature.temporal_scope;
    })

module _ {F S : Type 0} (d : Engine F S) (c : Scene F) where
  -- A new `StatementVersion` of the proposal's statement, with its id
  unfoldable pub new_version :
      S → String → CommitmentSignature → CandidateProposal → Result (StatementVersion × S)
  new_version ids hid signature p =
      let (id, ids') = d.new_id ids "sv" in
      make_version (record {
        id = id;
        hypothesis_id = hid;
        statement = p.statement;
        claim_class = signature.claim_class;
        stance = signature.stance;
        created_at_version = c.new_version_id;
        temporal_scope = signature.temporal_scope;
        supersedes = none;
      })
      >>= λ v. ok (v, ids')

  -- `AMBIGUOUS_REVIEW_REQUIRED`
  unfoldable pub park_candidate :
      IdentityDecision F
      → CommitmentSignature
      → CandidateProposal
      → EvidenceRecord F
      → Run F S
      → Result (Run F S)
  park_candidate decision signature p evidence r =
      let (id, ids') = d.new_id r.ids "adj" in
      make_adjudication (record {
        id = id;
        subject_id = c.subject_id;
        candidate_statement = p.statement;
        candidate_signature = signature;
        decision = decision;
        created_at = c.now;
        source_evidence_ids = evidence.id ∷ [];
        plausible_matches = decision.plausible_matches;
        created_by_revision_id = none;
        status = parked;
        space_id = c.space_id;
      })
      >>= λ a. ok (record r { ids = ids'; adjudications = r.adjudications ++ a ∷ [] })

  -- `MATCH_EXISTING`: a match with a lineage in flight that has no id attaches nothing.
  unfoldable pub attach_match :
      Option String → CandidateProposal → EvidenceRecord F → Run F S → Result (Run F S)
  unfolding strengthen_with
  attach_match none p evidence r = ok r
  attach_match (some hid) p evidence r =
      strengthen_with d c evidence hid (note_trajectory hid p.predicted_trajectory r)

  -- `REFINE_EXISTING`
  unfoldable pub refine_lineage :
      Option String
      → CommitmentSignature
      → CandidateProposal
      → EvidenceRecord F
      → Run F S
      → Result (Run F S)
  unfolding strengthen_with new_version
  refine_lineage none signature p evidence r = ok r
  refine_lineage (some hid) signature p evidence r =
      new_version r.ids hid signature p >>= λ (v, ids'). strengthen_with d c evidence hid (
        note_trajectory hid p.predicted_trajectory
          (record r { ids = ids'; statement_versions = r.statement_versions ++ v ∷ [] }))

  -- `DISTINCT_NEW`: the durable id is issued here.
  unfoldable pub found_lineage :
      CommitmentSignature → CandidateProposal → EvidenceRecord F → Run F S → Result (Run F S)
  unfolding new_version
  found_lineage signature p evidence r =
      let (hid, ids') = d.new_id r.ids "hyp" in
      let key = candidate_key signature in
      let hinted = note_trajectory hid p.predicted_trajectory r in
      new_version ids' hid signature p >>= λ (v, ids'').
      hyp_record d c ids'' hid p.statement
        (support_after_support d.floats d.floats.zero_float evidence.reliability
          d.config.support_learning_rate)
        (evidence.id ∷ []) [] none
      >>= λ (h, ids'''). enter d c evidence h hypothesize none supports (record hinted {
        ids = ids''';
        lineages =
            hinted.lineages
            ++ record {
              hypothesis_id = hid;
              subject_id = c.subject_id;
              space_id = c.space_id;
              signature_subject = signature.subject;
              attribution = signature.attribution;
              created_at = c.now;
            }
              ∷ [];
        statement_versions = hinted.statement_versions ++ v ∷ [];
        in_flight = append_at hinted.in_flight key (record {
          hypothesis_id = some hid;
          key = key;
          current_stance = signature.stance;
          versions = [];
          in_flight = true;
          in_flight_statement = some p.statement;
          in_flight_signature = some signature;
        });
      })

  unfoldable pub apply_decision :
      IdentityDecision F
      → CommitmentSignature
      → CandidateProposal
      → EvidenceRecord F
      → Run F S
      → Result (Run F S)
  unfolding attach_match refine_lineage found_lineage park_candidate
  apply_decision decision signature p evidence r = elim decision.outcome [
    | ambiguous_review_required ↦ park_candidate decision signature p evidence r
    | match_existing ↦ attach_match decision.matched_hypothesis_id p evidence r
    | refine_existing ↦ refine_lineage decision.matched_hypothesis_id signature p evidence r
    | distinct_new ↦ found_lineage signature p evidence r
  ]
