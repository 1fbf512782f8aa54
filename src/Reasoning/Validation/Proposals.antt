-- ===== src/Reasoning/Validation/Proposals.antt =====
-- What the checks 3, 3a, 4, 5 and 10 admit.
use sanuvia_reasoning_engine.Prelude.{
  String, ◌≡◌, refl, sym, ap, ◌∙◌, ◌↔◌, inl, inr, Bool, true, false, Option, none, some, List, [],
  ◌∷◌, map, ◌||◌,
}
use sanuvia_reasoning_engine.Prelude.Tests.{
  string_eq, pair_eq, list_eq, nat_eq, Bool-cases, if◌then◌else◌, ◌==◌,
}
use sanuvia_reasoning_engine.Prelude.Lists.{In, Distinct, contains}
use sanuvia_reasoning_engine.Prelude.Dict.{Dict, get, put, has, get-some→has, get-none→has, has-put}
use sanuvia_reasoning_engine.Domain.Errors.{
  Check, Error, err, ◌>>◌, rejection, duplicate_hypothesis_proposal,
}
use sanuvia_reasoning_engine.Domain.Hypothesis.{stance_eq, claim_eq}
use sanuvia_reasoning_engine.Reasoning.Ports.{CandidateProposal}
use sanuvia_reasoning_engine.Reasoning.Statement.{Unicode}
use sanuvia_reasoning_engine.Reasoning.Validation.Plan.{AppraisedObservation}
use sanuvia_reasoning_engine.Reasoning.Validation.Loops.{
  Passes, each_iff, no_repeat, no_repeat-Passes,
}
use sanuvia_reasoning_engine.Reasoning.Validation.Responses.{
  ProposalKey, proposal_key, not_seen, no_duplicate_proposal, check_3_duplicate_proposals,
  is_decided, check_3a_adjudication_order,
}

not_seen-step :
    (raw : Option String) (p : CandidateProposal) (o : Option String) (b : Bool) (c d : Check)
    (e : Error)
    → (o ≡ none → b ≡ false)
    → ((v : String) → o ≡ some v → b ≡ true)
    → (Passes c ↔ Passes d)
    → Passes (not_seen raw p o >> c) ↔ Passes (if b then err e else d)
not_seen-step raw p none b c d e n s h = rw (n refl) h
not_seen-step raw p (some v) b c d e n s h = rw (s v refl) (λ z. cc, λ z. cc)

module _ (u : Unicode) (raw : Option String) where
  abbrev key_of : CandidateProposal → ProposalKey
  key_of = proposal_key u

  -- The dictionary of earlier proposals does the work of a set of their keys.
  no_duplicate_proposal-eq :
      (ps : List CandidateProposal) (seen : Dict ProposalKey String) (ks : List ProposalKey)
      → ((k : ProposalKey) → has seen k ≡ contains k ks)
      → Passes (no_duplicate_proposal u raw seen ps)
        ↔ Passes (no_repeat key_of (λ p. rejection duplicate_hypothesis_proposal [] raw) ks ps)
  unfolding no_duplicate_proposal no_repeat
  no_duplicate_proposal-eq [] seen ks same = (λ h. refl, λ h. refl)
  no_duplicate_proposal-eq (p ∷ ps) seen ks same =
      let k = key_of p in
      let ih =
        no_duplicate_proposal-eq ps (put seen k p.local_ref) (k ∷ ks)
          (λ j. has-put seen k j p.local_ref ∙ ap (λ b. (k == j) || b) (same j)) in
      not_seen-step raw p (get seen k) (contains k ks) _ _ _
        (λ e. sym (same k) ∙ get-none→has seen k e) (λ v e. sym (same k) ∙ get-some→has seen k e) ih

-- Check 3 passes exactly when no two proposals share a normalised statement and a signature.
pub check_3-Passes :
    (u : Unicode) (obs : AppraisedObservation)
    → Passes (check_3_duplicate_proposals u obs) ↔ Distinct (map (proposal_key u) obs.proposals)
unfolding check_3_duplicate_proposals
check_3-Passes u obs =
    let e = no_duplicate_proposal-eq u obs.raw_response obs.proposals [] [] (λ k. refl) in
    let d =
      no_repeat-Passes (proposal_key u)
        (λ p. rejection duplicate_hypothesis_proposal [] obs.raw_response) obs.proposals in
    (λ h. d.0 (e.0 h), λ h. e.1 (d.1 h))

is_decided-Passes :
    (decisions : Dict String (String × Option String)) (p : CandidateProposal)
    → Passes (is_decided decisions p) ↔ (has decisions p.local_ref ≡ true)
is_decided-Passes decisions p = elim (Bool-cases (has decisions p.local_ref)) [
  | inl t ↦ rw t (λ h. refl, λ h. refl)
  | inr t ↦ rw t (λ h. cc, λ h. cc)
]

-- Check 3a passes exactly when every proposal has a decision.
pub check_3a-Passes :
    (obs : AppraisedObservation)
    → Passes (check_3a_adjudication_order obs)
      ↔ ((p : CandidateProposal) → In p obs.proposals → has obs.decisions p.local_ref ≡ true)
unfolding check_3a_adjudication_order
check_3a-Passes obs =
    each_iff (is_decided obs.decisions) (λ p. has obs.decisions p.local_ref ≡ true)
      (is_decided-Passes obs.decisions) obs.proposals
