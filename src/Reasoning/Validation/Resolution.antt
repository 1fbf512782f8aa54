-- ===== src/Reasoning/Validation/Resolution.antt =====
-- What check 1 admits, and how 2 (a) and 2 (b) relate.
use sanuvia_reasoning_engine.Prelude.{
  String, ◌≡◌, ap, ◌↔◌, inl, inr, some, List, [], ◌∷◌, map, arith,
}
use sanuvia_reasoning_engine.Prelude.Tests.{string_eq, pair_eq, Option-cases}
use sanuvia_reasoning_engine.Prelude.Lists.{In, Distinct}
use sanuvia_reasoning_engine.Prelude.Dict.{Dict, get}
use sanuvia_reasoning_engine.Domain.Errors.{◌>>◌}
use sanuvia_reasoning_engine.Reasoning.Ports.{
  Bearing, BearingKind, bearing_eq, CandidateProposal, DivergenceProposal,
}
use sanuvia_reasoning_engine.Reasoning.Handles.{
  HandleTable, resolve_hypothesis, resolve_divergence_candidate, resolve_participant,
}
use sanuvia_reasoning_engine.Reasoning.Validation.Plan.{AppraisedObservation}
use sanuvia_reasoning_engine.Reasoning.Validation.Conflicts.{AxisAgrees, check_2c-Passes}
use sanuvia_reasoning_engine.Reasoning.Validation.Matches.{NoMatchedWeakening, check_2f-Passes}
use sanuvia_reasoning_engine.Reasoning.Validation.Loops.{
  each_iff, Passes, Passes-seq, each, no_repeat-Passes,
}
use sanuvia_reasoning_engine.Reasoning.Validation.Responses.{
  resolves_hypothesis, resolves_divergence, resolves_subject, check_1_handles_resolve,
  check_2a_repeated_handle, check_2b_duplicate_pair, check_2c_conflicting_kinds,
  check_2d_local_refs, check_2e_divergence_partners, check_2_duplicates_and_conflicts,
}

-- `k` was supplied in the table.
abbrev Resolves : Dict String String → String → Type 0
Resolves d k = (v : String) × (get d k ≡ some v)

module _ (t : HandleTable) where
  resolves_hypothesis-Passes :
      (b : Bearing) → Passes (resolves_hypothesis t b) ↔ Resolves t.hypotheses b.target
  unfolding resolve_hypothesis
  resolves_hypothesis-Passes b = elim (Option-cases (get t.hypotheses b.target)) [
    | inl e ↦ (λ h. cc, λ (v, h). cc)
    | inr (v, e) ↦ (λ h. (v, e), λ h. ground arith)
  ]

  resolves_divergence-Passes :
      (d : DivergenceProposal)
      → Passes (resolves_divergence t d) ↔ Resolves t.divergence_candidates d.with_evidence
  unfolding resolve_divergence_candidate
  resolves_divergence-Passes d = elim (Option-cases (get t.divergence_candidates d.with_evidence)) [
    | inl e ↦ (λ h. cc, λ (v, h). cc)
    | inr (v, e) ↦ (λ h. (v, e), λ h. ground arith)
  ]

  resolves_subject-Passes :
      (p : CandidateProposal)
      → Passes (resolves_subject t p) ↔ Resolves t.participants p.signature.subject
  unfolding resolve_participant
  resolves_subject-Passes p = elim (Option-cases (get t.participants p.signature.subject)) [
    | inl e ↦ (λ h. cc, λ (v, h). cc)
    | inr (v, e) ↦ (λ h. (v, e), λ h. ground arith)
  ]

Distinct-pairs :
    (bs : List Bearing)
    → Distinct (map (λ (b : Bearing). b.target) bs)
    → Distinct {A = String × BearingKind} (map (λ (b : Bearing). (b.target, b.kind)) bs)
Distinct-pairs [] d = tt
Distinct-pairs (b ∷ bs) d = (λ m. d.0 (In-targets bs m), Distinct-pairs bs d.1)
  where
    In-targets :
        (cs : List Bearing)
        → In {A = String × BearingKind}
            (b.target, b.kind)
            (map (λ (c : Bearing). (c.target, c.kind)) cs)
        → In b.target (map (λ (c : Bearing). c.target) cs)
    In-targets [] m = m
    In-targets (c ∷ cs) (inl p) = inl (ap (λ (q : String × BearingKind). q.0) p)
    In-targets (c ∷ cs) (inr m) = inr (In-targets cs m)

-- Check 2 (b) rejects nothing that check 2 (a) lets through.
pub check_2b-of_2a :
    (obs : AppraisedObservation)
    → Passes (check_2a_repeated_handle obs)
    → Passes (check_2b_duplicate_pair obs)
unfolding check_2a_repeated_handle check_2b_duplicate_pair
check_2b-of_2a obs h = (no_repeat-Passes (λ (b : Bearing). (b.target, b.kind)) _ obs.bearings).1 (
    Distinct-pairs obs.bearings ((no_repeat-Passes (λ (b : Bearing). b.target) _ obs.bearings).0 h))

-- Every handle and label of the response was supplied in its own request.
pub record AllResolve (obs : AppraisedObservation) : Type 0 where
  pub bearings : (b : Bearing) → In b obs.bearings → Resolves obs.table.hypotheses b.target
  pub divergences :
      (d : DivergenceProposal)
      → In d obs.divergences
      → Resolves obs.table.divergence_candidates d.with_evidence
  pub subjects :
      (p : CandidateProposal)
      → In p obs.proposals
      → Resolves obs.table.participants p.signature.subject

pub check_1-Passes :
    (obs : AppraisedObservation) → Passes (check_1_handles_resolve obs) ↔ AllResolve obs
unfolding check_1_handles_resolve
check_1-Passes obs =
    let t = obs.table in
    let b =
      each_iff (resolves_hypothesis t) (λ x. Resolves t.hypotheses x.target)
        (resolves_hypothesis-Passes t) obs.bearings in
    let d =
      each_iff (resolves_divergence t) (λ x. Resolves t.divergence_candidates x.with_evidence)
        (resolves_divergence-Passes t) obs.divergences in
    let p =
      each_iff (resolves_subject t) (λ x. Resolves t.participants x.signature.subject)
        (resolves_subject-Passes t) obs.proposals in
    let outer =
      Passes-seq (each (resolves_hypothesis t) obs.bearings)
        (each (resolves_divergence t) obs.divergences >> each (resolves_subject t) obs.proposals) in
    let inner =
      Passes-seq (each (resolves_divergence t) obs.divergences)
        (each (resolves_subject t) obs.proposals) in
    (
      λ h.
          let (hb, rest) = outer.0 h in
          let (hd, hp) = inner.0 rest in
          record { bearings = b.0 hb; divergences = d.0 hd; subjects = p.0 hp },
      λ r. outer.1 (b.1 r.bearings, inner.1 (d.1 r.divergences, p.1 r.subjects)),
    )

-- What check 2 asks: nothing twice, and nothing that conflicts.
pub record NoConflict (obs : AppraisedObservation) : Type 0 where
  pub targets : Distinct (map (λ (b : Bearing). b.target) obs.bearings)
  pub axis : AxisAgrees obs.table obs.bearings
  pub local_refs : Distinct (map (λ (p : CandidateProposal). p.local_ref) obs.proposals)
  pub partners : Distinct (map (λ (d : DivergenceProposal). d.with_evidence) obs.divergences)
  pub matches : NoMatchedWeakening obs

-- Check 2 passes exactly when no handle, local reference or partner is repeated, bearings on one lineage
-- agree on its support, and no lineage is both matched and weakened.
pub check_2-Passes :
    (obs : AppraisedObservation) → Passes (check_2_duplicates_and_conflicts obs) ↔ NoConflict obs
unfolding check_2_duplicates_and_conflicts check_2a_repeated_handle check_2d_local_refs
    check_2e_divergence_partners
check_2-Passes obs =
    let a = no_repeat-Passes (λ (b : Bearing). b.target) _ obs.bearings in
    let d = no_repeat-Passes (λ (p : CandidateProposal). p.local_ref) _ obs.proposals in
    let e = no_repeat-Passes (λ (d : DivergenceProposal). d.with_evidence) _ obs.divergences in
    (
      λ h.
          let (ha, h1) = (Passes-seq (check_2a_repeated_handle obs) _).0 h in
          let (hb, h2) = (Passes-seq (check_2b_duplicate_pair obs) _).0 h1 in
          let (hc, h3) = (Passes-seq (check_2c_conflicting_kinds obs) _).0 h2 in
          let (hd, h4) = (Passes-seq (check_2d_local_refs obs) _).0 h3 in
          let (he, hf) = (Passes-seq (check_2e_divergence_partners obs) _).0 h4 in
          record {
            targets = a.0 ha;
            axis = (check_2c-Passes obs).0 hc;
            local_refs = d.0 hd;
            partners = e.0 he;
            matches = (check_2f-Passes obs).0 hf;
          },
      λ r.
          let pa : Passes (check_2a_repeated_handle obs) = a.1 r.targets in
          (Passes-seq (check_2a_repeated_handle obs) _).1 (
            pa,
            (Passes-seq (check_2b_duplicate_pair obs) _).1 (
              check_2b-of_2a obs pa,
              (Passes-seq (check_2c_conflicting_kinds obs) _).1 (
                (check_2c-Passes obs).1 r.axis,
                (Passes-seq (check_2d_local_refs obs) _).1 (
                  d.1 r.local_refs,
                  (Passes-seq (check_2e_divergence_partners obs) _).1
                      (e.1 r.partners, (check_2f-Passes obs).1 r.matches),
                ),
              ),
            ),
          ),
    )
