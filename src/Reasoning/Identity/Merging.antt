-- ===== src/Reasoning/Identity/Merging.antt =====
-- Merge protection of the adjudicator (src/sanuvia/application/reasoning/identity.py): R1a.
use sanuvia_reasoning_engine.Prelude.{
  String, ◌≡◌, refl, sym, ap, ◌∙◌, subst, ◌⊎◌, inl, inr, Bool, true, false, Option, none, some,
  List, [], ◌∷◌, ◌++◌, map, arith, not, ◌&&◌,
}
use sanuvia_reasoning_engine.Prelude.Tests.{
  ◌==◌, string_eq, pair_eq, option_eq, Bool-cases, Option-cases,
}
use sanuvia_reasoning_engine.Prelude.Lists.{
  In, find, find-some, contains, contains→In, In-append_left, In-append_right,
}
use sanuvia_reasoning_engine.Prelude.Dict.{Dict, get_list}
use sanuvia_reasoning_engine.Domain.Errors.{ok, is_none, ok-injective}
use sanuvia_reasoning_engine.Reasoning.Validation.Loops.{bind-ok}
use sanuvia_reasoning_engine.Domain.Hypothesis.{CommitmentSignature, LineageKey, inverts}
use sanuvia_reasoning_engine.Domain.Identity.{IdentityDecision}
use sanuvia_reasoning_engine.Reasoning.Ports.{CandidateProposal}
use sanuvia_reasoning_engine.Reasoning.Statement.{Unicode}
use sanuvia_reasoning_engine.Reasoning.Identity.{
  LineageView, durable_ids, bounded_views, park, Answer, decision, unusable, Resolver, is_merge,
  is_distinct, names_admitted, protect_merge, govern_resolver_decision, candidate_key, exact_match,
  match_or_park, decide_inexact, adjudicate,
}
use sanuvia_reasoning_engine.Reasoning.Identity.Search.{
  map-bounded_views, durable_ids_sound, find-HasId, plausible_views, adjudicate-committed,
  adjudicate-in_flight, adjudicate-inexact,
}

module _ {F : Type 0} (signature : CommitmentSignature) where
  -- If the decision merges, it merges into a lineage of the list whose stance is not inverted.
  abbrev pub MergesSafely : List LineageView → IdentityDecision F → Type 0
  MergesSafely ls d =
      is_merge d.outcome ≡ true
      → (l : LineageView) × In l ls
        × (l.hypothesis_id ≡ d.matched_hypothesis_id)
        × (inverts l.current_stance signature.stance ≡ false)

match_or_park-MergesSafely :
    (F : Type 0) (candidate : CandidateProposal) (signature : CommitmentSignature)
    → (flight : Bool) (l : LineageView) (ls : List LineageView) → In l ls
    → MergesSafely signature ls (match_or_park {F = F} candidate signature flight l)
unfolding match_or_park park
match_or_park-MergesSafely F candidate signature flight l ls m =
    elim (Bool-cases (inverts l.current_stance signature.stance)) [
      | inl t ↦ rw t (λ h. cc)
      | inr t ↦ rw t (λ h. (l, m, refl, t))
    ]

module _ {F : Type 0} (candidate : CandidateProposal) (signature : CommitmentSignature) where
  protect_merge-MergesSafely :
      (d : IdentityDecision F) (l : LineageView) (ls : List LineageView)
      → In l ls
      → l.hypothesis_id ≡ d.matched_hypothesis_id
      → MergesSafely signature ls (protect_merge candidate signature d (some l))
  unfolding protect_merge park
  protect_merge-MergesSafely d l ls m e =
      elim (Bool-cases (inverts l.current_stance signature.stance)) [
        | inl t ↦ rw t (λ h. cc)
        | inr t ↦ rw t (λ h. (l, m, e, t))
      ]

  find-admitted :
      (d : IdentityDecision F) (ls : List LineageView)
      → names_admitted d.matched_hypothesis_id
          (map (λ (b : String × String). b.0) (bounded_views ls))
        ≡ true
      → is_none d.matched_hypothesis_id ≡ false
      → (l : LineageView) × (find
            (λ (v : LineageView). v.hypothesis_id == d.matched_hypothesis_id)
            ls
          ≡ some l)
        × In l ls
        × (l.hypothesis_id ≡ d.matched_hypothesis_id)
  find-admitted d ls a n = elim (Option-cases d.matched_hypothesis_id) [
    | inl e ↦ cc (ap is_none e)
    | inr (hid, e) ↦
        let c : contains hid (durable_ids ls) ≡ true = rw (e, map-bounded_views ls) at a in
        rw e (find-HasId ls hid (durable_ids_sound ls hid (contains→In hid (durable_ids ls) c)))
  ]

  -- A resolver's decision as it is bound: what is not a merge as returned, a merge under protection.
  abbrev Binds : List LineageView → IdentityDecision F → IdentityDecision F → Type 0
  Binds ls r d =
      ((is_merge r.outcome ≡ false) × (d ≡ r))
      ⊎ (is_merge r.outcome ≡ true)
        × (l : LineageView) × In l ls
        × (l.hypothesis_id ≡ r.matched_hypothesis_id)
        × (protect_merge candidate signature r (some l) ≡ d)

  govern_resolver_decision-Binds :
      (r : IdentityDecision F) (ls : List LineageView) (d : IdentityDecision F)
      → govern_resolver_decision candidate signature (decision r) ls (bounded_views ls) ≡ ok d
      → Binds ls r d
  unfolding govern_resolver_decision
  govern_resolver_decision-Binds r ls d h =
      let admitted = map (λ (b : String × String). b.0) (bounded_views ls) in
      elim (Bool-cases (names_admitted r.matched_hypothesis_id admitted)) [
        | inr a ↦ cc (rw a at h)
        | inl a ↦
            elim (Bool-cases (is_distinct r.outcome && not (is_none r.matched_hypothesis_id))) [
              | inl b ↦ cc (rw (a, b) at h)
              | inr b ↦ elim (Bool-cases (is_merge r.outcome)) [
                | inr m ↦ inl (m, ground arith)
                | inl m ↦ elim (Bool-cases (is_none r.matched_hypothesis_id)) [
                  | inl n ↦ cc (rw (a, b, m, n) at h)
                  | inr n ↦
                      let (l, f, ml, e) = find-admitted r ls a n in
                      inr (m, l, ml, e, ok-injective (rw (a, b, m, n, f) at h))
                ]
              ]
            ]
      ]

  govern_resolver_decision-ok :
      (a : Answer F) (ls : List LineageView) (d : IdentityDecision F)
      → govern_resolver_decision candidate signature a ls (bounded_views ls) ≡ ok d
      → (r : IdentityDecision F) × (a ≡ decision r) × Binds ls r d
  unfolding govern_resolver_decision
  govern_resolver_decision-ok (unusable rid raw) ls d h = cc
  govern_resolver_decision-ok (decision r) ls d h =
      (r, refl, govern_resolver_decision-Binds r ls d h)

  Binds-MergesSafely :
      (r d : IdentityDecision F) (ls : List LineageView)
      → Binds ls r d
      → MergesSafely signature ls d
  Binds-MergesSafely r d ls (inl (m, e)) = λ h. ground arith
  Binds-MergesSafely r d ls (inr (m, l, ml, e, q)) =
      subst (MergesSafely signature ls) q (protect_merge-MergesSafely r l ls ml e)

  decide_inexact-MergesSafely :
      (resolver : Option (Resolver F)) (ls : List LineageView) (d : IdentityDecision F)
      → decide_inexact candidate signature resolver ls ≡ ok d
      → MergesSafely signature ls d
  unfolding decide_inexact park
  decide_inexact-MergesSafely resolver [] d h = λ m. cc
  decide_inexact-MergesSafely none (l ∷ ls) d h = λ m. cc
  decide_inexact-MergesSafely (some resolve) (l ∷ ls) d h =
      let (answer, ra, g) = (bind-ok (resolve candidate (bounded_views (l ∷ ls))) _ d).0 h in
      let (r, ar, b) = govern_resolver_decision-ok answer (l ∷ ls) d g in
      Binds-MergesSafely r d (l ∷ ls) b

-- Whatever the resolver answers, a decision that merges (MATCH_EXISTING or REFINE_EXISTING) names a
-- lineage that the candidate's bound retrieves and whose current stance the candidate does not invert.
pub adjudicate-MergesSafely :
    {F : Type 0} (u : Unicode) (candidate : CandidateProposal) (signature : CommitmentSignature)
    → (resolver : Option (Resolver F)) (committed flying : Dict LineageKey (List LineageView))
    → (d : IdentityDecision F) → adjudicate u candidate signature resolver committed flying ≡ ok d
    → MergesSafely signature (plausible_views signature committed flying) d
unfolding adjudicate
adjudicate-MergesSafely u candidate signature resolver committed flying d h =
    let key = candidate_key signature in
    let old = get_list committed key in
    let new = get_list flying key in
    let test = exact_match u candidate signature in
    elim (Option-cases (find test old)) [
      | inr (l, e) ↦
          let q = adjudicate-committed u candidate signature resolver committed flying l e in
          subst (MergesSafely signature (old ++ new)) (ok-injective (sym q ∙ h)) (
            match_or_park-MergesSafely _ candidate signature false l (old ++ new)
              (In-append_left l old new (find-some test old e).0))
      | inl e ↦ elim (Option-cases (find test new)) [
        | inr (l, e') ↦
            let q = adjudicate-in_flight u candidate signature resolver committed flying l e e' in
            subst (MergesSafely signature (old ++ new)) (ok-injective (sym q ∙ h)) (
              match_or_park-MergesSafely _ candidate signature true l (old ++ new)
                (In-append_right l old new (find-some test new e').0))
        | inl e' ↦
            let q = adjudicate-inexact u candidate signature resolver committed flying e e' in
            decide_inexact-MergesSafely candidate signature resolver (old ++ new) d (sym q ∙ h)
      ]
    ]
