-- ===== src/Reasoning/Validation/Lineages.antt =====
-- The checks of one response against the lineages on record: 4, 5 and 10.
use sanuvia_reasoning_engine.Prelude.{
  String, Bool, true, false, not, Option, none, some, List, [], ◌∷◌,
}
use sanuvia_reasoning_engine.Prelude.Tests.{if◌then◌else◌, string_eq, pair_eq}
use sanuvia_reasoning_engine.Prelude.Lists.{contains}
use sanuvia_reasoning_engine.Prelude.Dict.{Dict, get, has, keys, get_list}
use sanuvia_reasoning_engine.Domain.Errors.{
  Check, ok, err, ◌>>=◌, rejection, breach_rejection, adjudication_order,
  unknown_hypothesis_reference, invalid_contradiction_plan,
}
use sanuvia_reasoning_engine.Domain.Hypothesis.{Hypothesis, Stance, inverts, LineageKey}
use sanuvia_reasoning_engine.Reasoning.Ports.{Bearing, BearingKind, contradicts, CandidateProposal}
use sanuvia_reasoning_engine.Reasoning.Handles.{
  HandleTable, resolve_hypothesis, resolve_participant,
}
use sanuvia_reasoning_engine.Reasoning.Validation.Plan.{AppraisedObservation}
use sanuvia_reasoning_engine.Reasoning.Validation.Loops.{each}

module _ {F : Type 0} (active : Dict String (Hypothesis F)) (obs : AppraisedObservation) where
  unfoldable pub is_eligible : Bearing → Check
  is_eligible b = resolve_hypothesis obs.table b.target >>= λ hid.
      if has active hid
      then ok tt
      else err (rejection unknown_hypothesis_reference (b.target ∷ hid ∷ []) obs.raw_response)

  unfoldable pub check_4_targets_eligible : Check
  check_4_targets_eligible = each is_eligible obs.bearings

  unfoldable pub is_not_durable : CandidateProposal → Check
  is_not_durable p =
      if contains p.local_ref (keys active)
      then err (breach_rejection adjudication_order (p.local_ref ∷ []))
      else ok tt

  unfoldable pub check_5_local_refs_not_durable : Check
  check_5_local_refs_not_durable = each is_not_durable obs.proposals

abbrev pub is_contradicts : BearingKind → Bool
is_contradicts contradicts = true
is_contradicts _ = false

abbrev pub add_resolved : Option String → List String → List String
add_resolved none rest = rest
add_resolved (some hid) rest = hid ∷ rest

-- The lineages that carry a CONTRADICTS bearing.
unfoldable pub contradicted : HandleTable → List Bearing → List String
contradicted t [] = []
contradicted t (b ∷ bs) =
    let rest = contradicted t bs in
    if is_contradicts b.kind then add_resolved (get t.hypotheses b.target) rest else rest

module _ (lineage_stance : Dict String Stance) (lineage_key_index : Dict LineageKey (List String))
    (obs : AppraisedObservation) where
  unfoldable pub is_consistent : CandidateProposal → String → Check
  is_consistent p hid = elim (get lineage_stance hid) [
    | none ↦ ok tt
    | some current ↦
        if not (inverts current p.signature.stance)
        then ok tt
        else if contains hid (contradicted obs.table obs.bearings)
        then ok tt
        else err (rejection invalid_contradiction_plan (p.local_ref ∷ hid ∷ []) obs.raw_response)
  ]

  unfoldable pub is_consistent_everywhere : CandidateProposal → Check
  is_consistent_everywhere p = resolve_participant obs.table p.signature.subject >>= λ subject.
      each (is_consistent p) (get_list lineage_key_index (subject, p.signature.attribution))

  unfoldable pub check_10_structural_contradiction : Check
  check_10_structural_contradiction = each is_consistent_everywhere obs.proposals
