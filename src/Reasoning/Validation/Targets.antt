-- ===== src/Reasoning/Validation/Targets.antt =====
-- What the checks 4, 5 and 10 admit: targets that are active, references that are not durable, and
-- inversions that are declared.
use sanuvia_reasoning_engine.Prelude.{
  String, ◌≡◌, refl, sym, ap, ◌∙◌, subst, ◌↔◌, ◌⊎◌, inl, inr, true, some, List, [], ◌∷◌, arith,
}
use sanuvia_reasoning_engine.Prelude.Tests.{string_eq, pair_eq, Bool-cases, Option-cases}
use sanuvia_reasoning_engine.Prelude.Lists.{In, contains, contains→In, not-contains}
use sanuvia_reasoning_engine.Prelude.Dict.{Dict, get, has, keys, get_list}
use sanuvia_reasoning_engine.Domain.Hypothesis.{Hypothesis, Stance, inverts, LineageKey}
use sanuvia_reasoning_engine.Reasoning.Ports.{Bearing, BearingKind, contradicts, CandidateProposal}
use sanuvia_reasoning_engine.Reasoning.Handles.{
  HandleTable, resolve_hypothesis, resolve_participant,
}
use sanuvia_reasoning_engine.Reasoning.Validation.Plan.{AppraisedObservation}
use sanuvia_reasoning_engine.Reasoning.Validation.Loops.{Passes, each, each_iff}
use sanuvia_reasoning_engine.Reasoning.Validation.Lineages.{
  is_eligible, check_4_targets_eligible, is_not_durable, check_5_local_refs_not_durable,
  is_contradicts, add_resolved, contradicted, is_consistent, is_consistent_everywhere,
  check_10_structural_contradiction,
}

module _ {F : Type 0} (active : Dict String (Hypothesis F)) (obs : AppraisedObservation) where
  -- The bearing's handle names an active hypothesis.
  abbrev pub IsEligible : Bearing → Type 0
  IsEligible b =
      (hid : String) × (get obs.table.hypotheses b.target ≡ some hid) × (has active hid ≡ true)

  is_eligible-Passes : (b : Bearing) → Passes (is_eligible active obs b) ↔ IsEligible b
  unfolding is_eligible resolve_hypothesis
  is_eligible-Passes b = elim (Option-cases (get obs.table.hypotheses b.target)) [
    | inl e ↦ (λ h. cc, λ (v, r, a). cc)
    | inr (v, e) ↦ (λ h. (v, e, ground arith), λ (w, r, a). ground arith)
  ]

  pub check_4-Passes :
      Passes (check_4_targets_eligible active obs)
      ↔ ((b : Bearing) → In b obs.bearings → IsEligible b)
  unfolding check_4_targets_eligible
  check_4-Passes = each_iff (is_eligible active obs) IsEligible is_eligible-Passes obs.bearings

  is_not_durable-Passes :
      (p : CandidateProposal)
      → Passes (is_not_durable active obs p) ↔ (¬ In p.local_ref (keys active))
  unfolding is_not_durable
  is_not_durable-Passes p = elim (Bool-cases (contains p.local_ref (keys active))) [
    | inl t ↦ rw t (λ h. cc, λ n. absurd (n (contains→In p.local_ref (keys active) t)))
    | inr t ↦ rw t (λ h. not-contains p.local_ref (keys active) t, λ n. refl)
  ]

  pub check_5-Passes :
      Passes (check_5_local_refs_not_durable active obs)
      ↔ ((p : CandidateProposal) → In p obs.proposals → ¬ In p.local_ref (keys active))
  unfolding check_5_local_refs_not_durable
  check_5-Passes =
      each_iff (is_not_durable active obs) (λ p. ¬ In p.local_ref (keys active))
        is_not_durable-Passes obs.proposals

-- A CONTRADICTS bearing of the response resolves to the lineage.
abbrev IsContradicted : AppraisedObservation → String → Type 0
IsContradicted obs hid =
    (b : Bearing) × In b obs.bearings
    × (b.kind ≡ contradicts)
    × (get obs.table.hypotheses b.target ≡ some hid)

is_contradicts-eq : (k : BearingKind) → is_contradicts k ≡ true → k ≡ contradicts
is_contradicts-eq k h = ground arith

abbrev Contradicting : HandleTable → String → List Bearing → Type 0
Contradicting t hid bs =
    (b : Bearing) × In b bs × (b.kind ≡ contradicts) × (get t.hypotheses b.target ≡ some hid)

contradicted_sound :
    (t : HandleTable) (hid : String) (bs : List Bearing)
    → In hid (contradicted t bs)
    → Contradicting t hid bs
unfolding contradicted
contradicted_sound t hid [] m = absurd m
contradicted_sound t hid (b ∷ bs) m =
    let ih = contradicted_sound t hid bs in
    let later : In hid (contradicted t bs) → Contradicting t hid (b ∷ bs) =
      λ r. let (c, mc, k, e) = ih r in (c, inr mc, k, e) in
    elim (Bool-cases (is_contradicts b.kind)) [
      | inl t' ↦ elim (Option-cases (get t.hypotheses b.target)) [
        | inl e ↦ later (rw (t', e, add_resolved) at m)
        | inr (v, e) ↦
            let m' : (v ≡ hid) ⊎ In hid (contradicted t bs) = rw (t', e, add_resolved) at m in
            elim m' [
              | inl p ↦ (b, inl refl, is_contradicts-eq b.kind t', e ∙ ap some p)
              | inr r ↦ later r
            ]
      ]
      | inr t' ↦ later (rw t' at m)
    ]

contradicted_complete :
    (t : HandleTable) (hid : String) (bs : List Bearing)
    → Contradicting t hid bs
    → In hid (contradicted t bs)
unfolding contradicted
contradicted_complete t hid [] (b, m, k, e) = absurd m
contradicted_complete t hid (c ∷ bs) (b, inl p, k, e) =
    let kc : c.kind ≡ contradicts = ap (λ (x : Bearing). x.kind) p ∙ k in
    let ec : get t.hypotheses c.target ≡ some hid =
      ap (λ (x : Bearing). get t.hypotheses x.target) p ∙ e in
    rw (ap is_contradicts kc, ec, add_resolved) (inl refl)
contradicted_complete t hid (c ∷ bs) (b, inr m, k, e) =
    let ih = contradicted_complete t hid bs (b, m, k, e) in
    elim (Bool-cases (is_contradicts c.kind)) [
      | inl t' ↦ elim (Option-cases (get t.hypotheses c.target)) [
        | inl ec ↦ rw (t', ec, add_resolved) ih
        | inr (v, ec) ↦ rw (t', ec, add_resolved) (inr ih)
      ]
      | inr t' ↦ rw t' ih
    ]

module _ (lineage_stance : Dict String Stance) (lineage_key_index : Dict LineageKey (List String))
    (obs : AppraisedObservation) where
  abbrev DeclaresInversion : CandidateProposal → String → Type 0
  DeclaresInversion p hid =
      (current : Stance)
      → get lineage_stance hid ≡ some current
      → inverts current p.signature.stance ≡ true
      → IsContradicted obs hid

  is_consistent-Passes :
      (p : CandidateProposal) (hid : String)
      → Passes (is_consistent lineage_stance lineage_key_index obs p hid) ↔ DeclaresInversion p hid
  unfolding is_consistent
  is_consistent-Passes p hid = elim (Option-cases (get lineage_stance hid)) [
    | inl e ↦ (λ h current c i. cc, λ h. ground arith)
    | inr (s, e) ↦ elim (Bool-cases (inverts s p.signature.stance)) [
      | inr i ↦ (λ h current c j. ground arith, λ h. ground arith)
      | inl i ↦ elim (Bool-cases (contains hid (contradicted obs.table obs.bearings))) [
        | inl m ↦ (
          λ h current c j.
              contradicted_sound obs.table hid obs.bearings
                (contains→In hid (contradicted obs.table obs.bearings) m),
          λ h. ground arith,
        )
        | inr m ↦ (
          λ h current c j. ground arith,
          λ h. absurd (
              not-contains hid (contradicted obs.table obs.bearings) m
                (contradicted_complete obs.table hid obs.bearings (h s e i))),
        )
      ]
    ]
  ]

  -- Whatever lineage the candidate's own bound retrieves, an inversion of its stance is declared.
  abbrev pub DeclaresInversions : CandidateProposal → Type 0
  DeclaresInversions p =
      (subject : String) × (get obs.table.participants p.signature.subject ≡ some subject)
      × ((hid : String)
          → In hid (get_list lineage_key_index (subject, p.signature.attribution))
          → DeclaresInversion p hid)

  everywhere-Passes :
      (p : CandidateProposal)
      → Passes (is_consistent_everywhere lineage_stance lineage_key_index obs p)
        ↔ DeclaresInversions p
  unfolding is_consistent_everywhere resolve_participant
  everywhere-Passes p = elim (Option-cases (get obs.table.participants p.signature.subject)) [
    | inl e ↦ (λ h. cc, λ (s, r, d). cc)
    | inr (s, e) ↦
        let hids = get_list lineage_key_index (s, p.signature.attribution) in
        let q : is_consistent_everywhere lineage_stance lineage_key_index obs p
            ≡ each (is_consistent lineage_stance lineage_key_index obs p) hids =
          ground arith in
        let here =
          each_iff (is_consistent lineage_stance lineage_key_index obs p) (DeclaresInversion p)
            (is_consistent-Passes p) hids in
        (
          λ h. (s, e, here.0 (sym q ∙ h)),
          λ (s', r, d).
              let same : s' ≡ s = cc in
              q
              ∙ here.1 (λ hid m. d hid (
                  subst
                    (λ (x : String).
                      In hid (get_list lineage_key_index (x, p.signature.attribution)))
                    (sym same) m)),
        )
  ]

  -- Check 10 passes exactly when each proposal whose stance inverts the current stance of a lineage with its
  -- subject and attribution stands beside a CONTRADICTS bearing on that lineage.
  pub check_10-Passes :
      Passes (check_10_structural_contradiction lineage_stance lineage_key_index obs)
      ↔ ((p : CandidateProposal) → In p obs.proposals → DeclaresInversions p)
  unfolding check_10_structural_contradiction
  check_10-Passes =
      each_iff (is_consistent_everywhere lineage_stance lineage_key_index obs) DeclaresInversions
        everywhere-Passes obs.proposals
