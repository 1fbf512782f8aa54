-- ===== src/Reasoning/Validation/Responses.antt =====
-- The checks of one appraisal response: 1, 2 (a) to (f), 3 and 3a.
use sanuvia_reasoning_engine.Prelude.{
  ℕ, String, Bool, true, false, not, Option, none, some, List, [], ◌∷◌,
}
use sanuvia_reasoning_engine.Prelude.Tests.{
  ◌==◌, if◌then◌else◌, ltb, nat_eq, string_eq, pair_eq, list_eq, option_eq,
}
use sanuvia_reasoning_engine.Prelude.Lists.{length, keep, contains}
use sanuvia_reasoning_engine.Prelude.Sets.{set_add}
use sanuvia_reasoning_engine.Prelude.Dict.{Dict, get, put, has, values, get_list}
use sanuvia_reasoning_engine.Domain.Errors.{
  Check, ok, err, ◌>>=◌, ◌>>◌, rejection, boundary_rejection, breach_rejection, appraisal,
  adjudication_order, unknown_hypothesis_reference, duplicate_hypothesis_proposal,
  invalid_divergence_plan,
}
use sanuvia_reasoning_engine.Domain.Evidence.{role_eq}
use sanuvia_reasoning_engine.Domain.Hypothesis.{ClaimClass, claim_eq, Stance, stance_eq}
use sanuvia_reasoning_engine.Reasoning.Ports.{
  Bearing, BearingKind, weakens, contradicts, unchanged, bearing_eq, CandidateProposal,
  DivergenceProposal,
}
use sanuvia_reasoning_engine.Reasoning.Handles.{
  HandleTable, resolve_hypothesis, resolve_divergence_candidate, resolve_participant,
}
use sanuvia_reasoning_engine.Reasoning.Statement.{Unicode, normalise_statement}
use sanuvia_reasoning_engine.Reasoning.Validation.Plan.{AppraisedObservation}
use sanuvia_reasoning_engine.Reasoning.Validation.Loops.{each, no_repeat}

abbrev pub resolves_hypothesis : HandleTable → Bearing → Check
resolves_hypothesis t b = resolve_hypothesis t b.target >>= λ _. ok tt

abbrev pub resolves_divergence : HandleTable → DivergenceProposal → Check
resolves_divergence t d = resolve_divergence_candidate t d.with_evidence >>= λ _. ok tt

abbrev pub resolves_subject : HandleTable → CandidateProposal → Check
resolves_subject t p = resolve_participant t p.signature.subject >>= λ _. ok tt

unfoldable pub check_1_handles_resolve : AppraisedObservation → Check
check_1_handles_resolve obs =
    each (resolves_hypothesis obs.table) obs.bearings
    >> (each (resolves_divergence obs.table) obs.divergences
        >> each (resolves_subject obs.table) obs.proposals)

-- `kind in SUPPORT_AXIS`
abbrev pub on_support_axis : BearingKind → Bool
on_support_axis unchanged = false
on_support_axis _ = true

-- `kind in MATCH_INCOMPATIBLE`
abbrev pub match_incompatible : BearingKind → Bool
match_incompatible weakens = true
match_incompatible contradicts = true
match_incompatible _ = false

unfoldable pub check_2a_repeated_handle : AppraisedObservation → Check
check_2a_repeated_handle obs =
    no_repeat (λ (b : Bearing). b.target)
      (λ b. rejection unknown_hypothesis_reference (b.target ∷ []) obs.raw_response) [] obs.bearings

unfoldable pub check_2b_duplicate_pair : AppraisedObservation → Check
check_2b_duplicate_pair obs =
    no_repeat {K = String × BearingKind} (λ (b : Bearing). (b.target, b.kind))
      (λ b. boundary_rejection appraisal (b.target ∷ []) obs.raw_response) [] obs.bearings

-- The lineage that a bearing's handle resolves to, or the handle itself.
abbrev pub target_key : HandleTable → Bearing → String
target_key t b = elim (get t.hypotheses b.target) [ none ↦ b.target | some hid ↦ hid ]

-- `by_target.setdefault(key, set()).add(b.kind)`
abbrev pub add_kind :
    HandleTable → Dict String (List BearingKind) → Bearing → Dict String (List BearingKind)
add_kind t by_target b =
    let k = target_key t b in put by_target k (set_add b.kind (get_list by_target k))

unfoldable pub group_kinds :
    HandleTable → Dict String (List BearingKind) → List Bearing → Dict String (List BearingKind)
group_kinds t by_target [] = by_target
group_kinds t by_target (b ∷ bs) = group_kinds t (add_kind t by_target b) bs

abbrev pub one_axis_kind : Option String → String × List BearingKind → Check
one_axis_kind raw (target, kinds) =
    if ltb 1 (length (keep on_support_axis kinds))
    then err (boundary_rejection appraisal (target ∷ []) raw)
    else ok tt

unfoldable pub check_2c_conflicting_kinds : AppraisedObservation → Check
check_2c_conflicting_kinds obs =
    each (one_axis_kind obs.raw_response) (group_kinds obs.table [] obs.bearings)

unfoldable pub check_2d_local_refs : AppraisedObservation → Check
check_2d_local_refs obs =
    no_repeat (λ (p : CandidateProposal). p.local_ref)
      (λ p. boundary_rejection appraisal (p.local_ref ∷ []) obs.raw_response) [] obs.proposals

unfoldable pub check_2e_divergence_partners : AppraisedObservation → Check
check_2e_divergence_partners obs =
    no_repeat (λ (d : DivergenceProposal). d.with_evidence)
      (λ d. rejection invalid_divergence_plan (d.with_evidence ∷ []) obs.raw_response) []
      obs.divergences

-- `IdentityOutcome.MATCH_EXISTING` of this module is a text.
abbrev pub match_existing_text : String
match_existing_text = "MATCH_EXISTING"

unfoldable pub matched_ids : List (String × Option String) → List String
matched_ids [] = []
matched_ids ((outcome, none) ∷ ds) = matched_ids ds
matched_ids ((outcome, some hid) ∷ ds) =
    let rest = matched_ids ds in if outcome == match_existing_text then hid ∷ rest else rest

abbrev pub not_matched : Option String → HandleTable → List String → Bearing → Check
not_matched raw t matched b =
    if not (match_incompatible b.kind) then ok tt else elim (get t.hypotheses b.target) [
      | none ↦ ok tt
      | some hid ↦
          if contains hid matched
          then err (boundary_rejection appraisal (b.target ∷ hid ∷ []) raw)
          else ok tt
    ]

unfoldable pub check_2f_bearing_and_match : AppraisedObservation → Check
check_2f_bearing_and_match obs =
    each (not_matched obs.raw_response obs.table (matched_ids (values obs.decisions))) obs.bearings

unfoldable pub check_2_duplicates_and_conflicts : AppraisedObservation → Check
check_2_duplicates_and_conflicts obs =
    check_2a_repeated_handle obs
    >> (check_2b_duplicate_pair obs
        >> (check_2c_conflicting_kinds obs
            >> (check_2d_local_refs obs
                >> (check_2e_divergence_partners obs >> check_2f_bearing_and_match obs))))

abbrev pub ProposalKey : Type 0
ProposalKey = List ℕ × (String × (String × (ClaimClass × Stance)))

abbrev pub proposal_key : Unicode → CandidateProposal → ProposalKey
proposal_key u p = (
  normalise_statement u p.statement,
  (p.signature.subject, (p.signature.attribution, (p.signature.claim_class, p.signature.stance))),
)

-- What the loop does with the earlier proposal of the same key.
abbrev pub not_seen : Option String → CandidateProposal → Option String → Check
not_seen raw p none = ok tt
not_seen raw p (some prior) =
    err (rejection duplicate_hypothesis_proposal (prior ∷ p.local_ref ∷ []) raw)

unfoldable pub no_duplicate_proposal :
    Unicode → Option String → Dict ProposalKey String → List CandidateProposal → Check
no_duplicate_proposal u raw seen [] = ok tt
no_duplicate_proposal u raw seen (p ∷ ps) =
    not_seen raw p (get seen (proposal_key u p))
    >> no_duplicate_proposal u raw (put seen (proposal_key u p) p.local_ref) ps

unfoldable pub check_3_duplicate_proposals : Unicode → AppraisedObservation → Check
check_3_duplicate_proposals u obs = no_duplicate_proposal u obs.raw_response [] obs.proposals

abbrev pub is_decided : Dict String (String × Option String) → CandidateProposal → Check
is_decided decisions p =
    if has decisions p.local_ref
    then ok tt
    else err (breach_rejection adjudication_order (p.local_ref ∷ []))

unfoldable pub check_3a_adjudication_order : AppraisedObservation → Check
check_3a_adjudication_order obs = each (is_decided obs.decisions) obs.proposals
