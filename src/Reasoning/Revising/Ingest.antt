-- ===== src/Reasoning/Revising/Ingest.antt =====
-- One admitted record through a run: `ingest` of src/sanuvia/application/reasoning/model_revision.py, with the
-- projections that it gives to the appraiser.
use sanuvia_reasoning_engine.Prelude.{
  ℕ, String, Bool, true, not, ◌&&◌, Option, none, some, List, [], ◌∷◌, ◌++◌,
}
use sanuvia_reasoning_engine.Prelude.Tests.{if◌then◌else◌, ◌==◌, string_eq, pair_eq, nat_eq}
use sanuvia_reasoning_engine.Prelude.Lists.{any, contains}
use sanuvia_reasoning_engine.Prelude.Dict.{Dict, get, put}
use sanuvia_reasoning_engine.Domain.Errors.{
  Result, Error, rejected, invariant_violation, ok, err, ◌>>=◌, governed_rejection, rejection,
  statement_capture_failure,
}
use sanuvia_reasoning_engine.Domain.Evidence.{EvidenceRecord}
use sanuvia_reasoning_engine.Domain.Dependency.{
  DependencyEdge, make_edge, diverges_with, is_diverges_with, canonical_divergence_pair,
}
use sanuvia_reasoning_engine.Domain.Identity.{
  IdentityOutcome, match_existing, refine_existing, distinct_new, ambiguous_review_required,
}
use sanuvia_reasoning_engine.Reasoning.Ports.{
  AppraisalResponse, Bearing, BearingKind, CandidateProposal, DivergenceProposal, supports, weakens,
  contradicts, unchanged,
}
use sanuvia_reasoning_engine.Reasoning.Statement.{Unicode, codes}
use sanuvia_reasoning_engine.Reasoning.Handles.{
  HandleTable, resolve_hypothesis, resolve_divergence_candidate,
}
use sanuvia_reasoning_engine.Reasoning.Identity.{adjudicate}
use sanuvia_reasoning_engine.Reasoning.Revising.{
  Engine, Scene, Run, strengthen_with, contradict_with, weaken_hypothesis,
}
use sanuvia_reasoning_engine.Reasoning.Revising.Decisions.{resolve_signature, apply_decision}
use sanuvia_reasoning_engine.Reasoning.Revising.Projection.{
  may_appraise, request_table, request_for,
}

-- `not statement or not statement.strip()`
abbrev all_space : (ℕ → Bool) → List ℕ → Bool
all_space p [] = true
all_space p (x ∷ xs) = p x && all_space p xs

abbrev pub is_blank : Unicode → String → Bool
is_blank u s = all_space u.is_space (codes s)

-- `IdentityOutcome.value`
abbrev outcome_value : IdentityOutcome → String
outcome_value match_existing = "MATCH_EXISTING"
outcome_value refine_existing = "REFINE_EXISTING"
outcome_value distinct_new = "DISTINCT_NEW"
outcome_value ambiguous_review_required = "AMBIGUOUS_REVIEW_REQUIRED"

-- Step 6: the bearings with their handles resolved
unfoldable pub resolve_bearings : HandleTable → List Bearing → Result (List (String × BearingKind))
resolve_bearings t [] = ok []
resolve_bearings t (b ∷ bs) = resolve_hypothesis t b.target >>= λ hid.
    resolve_bearings t bs >>= λ rest. ok ((hid, b.kind) ∷ rest)

-- `_with_appraisal_audit`
abbrev raw_or : Option String → Option String → Option String
raw_or none own = own
raw_or (some raw) own = some raw

pub with_appraisal_audit : List (String × Option String) → AppraisalResponse → Error → Error
with_appraisal_audit raws response invariant_violation = invariant_violation
with_appraisal_audit raws response (rejected x) = governed_rejection (record x {
  raw_response = raw_or x.raw_response response.raw_response;
  appraisal_responses = raws;
})

unfoldable pub audited :
    {A : Type 0} → List (String × Option String) → AppraisalResponse → Result A → Result A
audited raws response (ok a) = ok a
audited raws response (err e) = err (with_appraisal_audit raws response e)

-- The pair has an edge already, proposed in this interaction.
unfoldable pub is_proposed : String × String → List DependencyEdge → Bool
is_proposed pair edges =
    any (λ (e : DependencyEdge). is_diverges_with e.relation && (e.from_ref, e.to_ref) == pair)
      edges

module _ {F S : Type 0} (d : Engine F S) (c : Scene F) where
  -- An edge of the divergence `pair`, unless it is recorded or was proposed before.
  unfoldable pub record_divergence : String × String → Run F S → Result (Run F S)
  record_divergence pair r =
      let (id, ids') = d.new_id r.ids "dep" in
      if contains pair c.existing_divergence_pairs
      then ok r
      else if is_proposed pair r.edges
      then ok r
      else make_edge (record {
        id = id;
        from_ref = pair.0;
        to_ref = pair.1;
        relation = diverges_with;
        created_at = c.now;
      })
        >>= λ e. ok (record r { ids = ids'; edges = r.edges ++ e ∷ [] })

  unfoldable pub add_divergences :
      HandleTable → EvidenceRecord F → List DivergenceProposal → Run F S → Result (Run F S)
  unfolding record_divergence
  add_divergences t evidence [] r = ok r
  add_divergences t evidence (p ∷ ps) r =
      resolve_divergence_candidate t p.with_evidence >>= λ other.
      canonical_divergence_pair evidence.id other >>= λ pair.
      record_divergence pair r >>= λ r'. add_divergences t evidence ps r'

  -- Step 8: each proposal is adjudicated and applied before the next one.
  unfoldable pub adjudicate_proposals :
      HandleTable
      → EvidenceRecord F
      → Option String
      → List CandidateProposal
      → Dict String (String × Option String)
      → Run F S
      → Result (Run F S × Dict String (String × Option String))
  unfolding apply_decision
  adjudicate_proposals t evidence raw [] found r = ok (r, found)
  adjudicate_proposals t evidence raw (p ∷ ps) found r =
      if is_blank d.unicode p.statement
      then err (rejection statement_capture_failure (p.local_ref ∷ []) raw)
      else resolve_signature p t >>= λ signature.
          adjudicate d.unicode p signature d.resolver c.committed_views r.in_flight >>= λ decision.
          apply_decision d c decision signature p evidence
            (record r { decisions = r.decisions ++ (decision, (signature, (p, evidence))) ∷ [] })
          >>= λ r'.
              adjudicate_proposals t evidence raw ps
                (put found p.local_ref
                  (outcome_value decision.outcome, decision.matched_hypothesis_id))
                r'

  -- What the `try` block computes
  unfoldable pub interpret :
      HandleTable
      → EvidenceRecord F
      → AppraisalResponse
      → Run F S
      → Result (List (String × BearingKind) × (Run F S × Dict String (String × Option String)))
  unfolding add_divergences adjudicate_proposals
  interpret t evidence response r = resolve_bearings t response.bearings >>= λ bearings.
      add_divergences t evidence response.divergences r >>= λ r'.
      adjudicate_proposals t evidence response.raw_response response.proposals [] r' >>= λ done.
      ok (bearings, done)

  unfoldable pub apply_bearing :
      EvidenceRecord F → String → BearingKind → Run F S → Result (Run F S)
  apply_bearing evidence hid supports r = strengthen_with d c evidence hid r
  apply_bearing evidence hid contradicts r = contradict_with d c evidence hid r
  apply_bearing evidence hid weakens r = elim (get r.working hid) [
    | none ↦ ok r
    | some prev ↦ weaken_hypothesis d c evidence prev none r
  ]
  apply_bearing evidence hid unchanged r = ok r

  unfoldable pub apply_bearings :
      EvidenceRecord F → List (String × BearingKind) → Run F S → Result (Run F S)
  unfolding apply_bearing
  apply_bearings evidence [] r = ok r
  apply_bearings evidence ((hid, kind) ∷ rest) r =
      apply_bearing evidence hid kind r >>= λ r'. apply_bearings evidence rest r'

  -- The run after a response, from the moment it is recorded
  unfoldable pub take_response :
      HandleTable → EvidenceRecord F → AppraisalResponse → Run F S → Result (Run F S)
  unfolding interpret apply_bearings audited
  take_response t evidence response r =
      let raws = r.raw_responses ++ (evidence.id, response.raw_response) ∷ [] in
      audited raws response (interpret t evidence response (record r { raw_responses = raws }))
      >>= λ (bearings, (r', found)). apply_bearings evidence bearings (record r' {
        appraised =
            r'.appraised
            ++ record {
              evidence_id = evidence.id;
              table = t;
              proposals = response.proposals;
              bearings = response.bearings;
              divergences = response.divergences;
              raw_response = response.raw_response;
              decisions = found;
            }
              ∷ [];
      })

  unfoldable pub ingest : EvidenceRecord F → Run F S → Result (Run F S)
  unfolding take_response
  ingest evidence r =
      let (request_id, ids') = d.new_id r.ids "req" in
      let t = request_table c request_id evidence in
      if not (may_appraise evidence.standing)
      then ok r
      else d.appraise (request_for c t evidence) >>= λ response.
          take_response t evidence response (record r { ids = ids' })

  unfoldable pub ingest_all : List (EvidenceRecord F) → Run F S → Result (Run F S)
  unfolding ingest
  ingest_all [] r = ok r
  ingest_all (e ∷ es) r = ingest e r >>= λ r'. ingest_all es r'
