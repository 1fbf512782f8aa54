-- ===== src/Reasoning/Identity/Outcomes.antt =====
-- The outcomes of the adjudicator (src/sanuvia/application/reasoning/identity.py): what a resolver's answer
-- cannot change.
use sanuvia_reasoning_engine.Prelude.{
  String, ◌≡◌, refl, ap, inl, inr, Bool, true, false, Option, none, some, List, [], ◌∷◌, map, not,
  ◌&&◌,
}
use sanuvia_reasoning_engine.Prelude.Tests.{
  ◌==◌, string_eq, pair_eq, option_eq, Bool-cases, Option-cases, if◌then◌else◌,
}
use sanuvia_reasoning_engine.Prelude.Lists.{find}
use sanuvia_reasoning_engine.Prelude.Dict.{Dict}
use sanuvia_reasoning_engine.Domain.Errors.{
  Result, ok, err, ◌>>=◌, is_none, IsGoverned, OnlyGoverned, governed_rejection,
}
use sanuvia_reasoning_engine.Domain.Hypothesis.{CommitmentSignature, LineageKey, inverts}
use sanuvia_reasoning_engine.Domain.Identity.{IdentityDecision, IdentityOutcome}
use sanuvia_reasoning_engine.Reasoning.Ports.{CandidateProposal}
use sanuvia_reasoning_engine.Reasoning.Statement.{Unicode}
use sanuvia_reasoning_engine.Reasoning.Identity.{
  LineageView, bounded_views, park, Answer, decision, unusable, Resolver, resolver_failure,
  is_merge, is_distinct, names_admitted, protect_merge, govern_resolver_decision, decide_inexact,
  adjudicate,
}
use sanuvia_reasoning_engine.Reasoning.Identity.Search.{
  plausible_views, first_committed, first_in_flight, adjudicate-committed, adjudicate-in_flight,
  adjudicate-inexact,
}

resolver_failure-IsGoverned :
    (candidate : CandidateProposal) (rid raw : Option String)
    → IsGoverned (resolver_failure candidate rid raw)
unfolding resolver_failure governed_rejection
resolver_failure-IsGoverned candidate rid raw = refl

bind-OnlyGoverned :
    {A B : Type 0} (m : Result A) (f : A → Result B)
    → OnlyGoverned m
    → ((a : A) → OnlyGoverned (f a))
    → OnlyGoverned (m >>= f)
bind-OnlyGoverned (ok a) f h k = k a
bind-OnlyGoverned (err e) f h k = h

module _ {F : Type 0} (candidate : CandidateProposal) (signature : CommitmentSignature) where
  govern_resolver_decision-OnlyGoverned :
      (a : Answer F) (ls : List LineageView) (bounded : List (String × String))
      → OnlyGoverned (govern_resolver_decision candidate signature a ls bounded)
  unfolding govern_resolver_decision
  govern_resolver_decision-OnlyGoverned (unusable rid raw) ls bounded =
      resolver_failure-IsGoverned candidate rid raw
  govern_resolver_decision-OnlyGoverned (decision d) ls bounded =
      let g = resolver_failure-IsGoverned candidate d.resolver_id d.resolver_raw_response in
      elim (Bool-cases
        (names_admitted d.matched_hypothesis_id (map (λ (b : String × String). b.0) bounded))) [
          | inr a ↦ rw a g
          | inl a ↦
              elim (Bool-cases (is_distinct d.outcome && not (is_none d.matched_hypothesis_id))) [
                | inl b ↦ rw (a, b) g
                | inr b ↦ elim (Bool-cases (is_merge d.outcome)) [
                  | inr m ↦ rw (a, b, m) tt
                  | inl m ↦ elim (Bool-cases (is_none d.matched_hypothesis_id)) [
                    | inl n ↦ rw (a, b, m, n) g
                    | inr n ↦ rw (a, b, m, n) tt
                  ]
                ]
              ]
        ]

  -- The resolver raises nothing but governed outcomes for this candidate.
  abbrev RaisesGoverned : Option (Resolver F) → Type 0
  RaisesGoverned none = Unit
  RaisesGoverned (some resolve) =
      (bounded : List (String × String)) → OnlyGoverned (resolve candidate bounded)

  decide_inexact-OnlyGoverned :
      (resolver : Option (Resolver F)) (ls : List LineageView)
      → RaisesGoverned resolver
      → OnlyGoverned (decide_inexact candidate signature resolver ls)
  unfolding decide_inexact
  decide_inexact-OnlyGoverned resolver [] h = tt
  decide_inexact-OnlyGoverned none (l ∷ ls) h = tt
  decide_inexact-OnlyGoverned (some resolve) (l ∷ ls) h =
      bind-OnlyGoverned (resolve candidate (bounded_views (l ∷ ls))) _ (h (bounded_views (l ∷ ls)))
        (λ a. govern_resolver_decision-OnlyGoverned a (l ∷ ls) (bounded_views (l ∷ ls)))

module _ {F : Type 0} (u : Unicode) (candidate : CandidateProposal)
    (signature : CommitmentSignature) (resolver : Option (Resolver F))
    (committed flying : Dict LineageKey (List LineageView)) where
  -- Whatever a resolver returns, an adjudication ends in a decision or in a governed rejection, if the
  -- resolver itself raises nothing else.
  pub adjudicate-OnlyGoverned :
      RaisesGoverned candidate signature resolver
      → OnlyGoverned (adjudicate u candidate signature resolver committed flying)
  adjudicate-OnlyGoverned h =
      elim (Option-cases (first_committed u candidate signature resolver committed flying)) [
        | inr (l, e) ↦
            rw (adjudicate-committed u candidate signature resolver committed flying l e) tt
        | inl e ↦
            elim (Option-cases (first_in_flight u candidate signature resolver committed flying)) [
              | inr (l, e') ↦
                  rw (adjudicate-in_flight u candidate signature resolver committed flying l e e')
                    tt
              | inl e' ↦
                  rw (adjudicate-inexact u candidate signature resolver committed flying e e') (
                    decide_inexact-OnlyGoverned candidate signature resolver
                      (plausible_views signature committed flying) h)
            ]
      ]

abbrev pub outcome_of : {F : Type 0} → Result (IdentityDecision F) → Option IdentityOutcome
outcome_of (ok d) = some d.outcome
outcome_of (err e) = none

protect_merge-confidence :
    {F : Type 0} (candidate : CandidateProposal) (signature : CommitmentSignature)
    → (d : IdentityDecision F) (c : Option F) (o : Option LineageView)
    → (protect_merge candidate signature (record d { confidence = c }) o).outcome
      ≡ (protect_merge candidate signature d o).outcome
unfolding protect_merge park
protect_merge-confidence candidate signature d c none = refl
protect_merge-confidence candidate signature d c (some l) =
    elim (Bool-cases (inverts l.current_stance signature.stance)) [
      | inl t ↦ rw t refl
      | inr t ↦ rw t refl
    ]

outcome_of-if :
    {F : Type 0} (b : Bool) (x x' y y' : Result (IdentityDecision F))
    → outcome_of x ≡ outcome_of x'
    → outcome_of y ≡ outcome_of y'
    → outcome_of (if b then x else y) ≡ outcome_of (if b then x' else y')
outcome_of-if true x x' y y' h k = h
outcome_of-if false x x' y y' h k = k

-- A resolver's confidence changes no outcome: there is no threshold.
pub govern_resolver_decision-confidence :
    {F : Type 0} (candidate : CandidateProposal) (signature : CommitmentSignature)
    → (d : IdentityDecision F) (c : Option F) (ls : List LineageView)
    → outcome_of (
        govern_resolver_decision candidate signature
          (decision (record d { confidence = c }))
          ls
          (bounded_views ls))
      ≡ outcome_of (govern_resolver_decision candidate signature (decision d) ls (bounded_views ls))
unfolding govern_resolver_decision
govern_resolver_decision-confidence candidate signature d c ls =
    let found = find (λ (l : LineageView). l.hypothesis_id == d.matched_hypothesis_id) ls in
    let merged = protect_merge-confidence candidate signature d c found in
    outcome_of-if
      (not (
        names_admitted d.matched_hypothesis_id
          (map (λ (b : String × String). b.0) (bounded_views ls))))
      _ _ _ _ refl
      (outcome_of-if (is_distinct d.outcome && not (is_none d.matched_hypothesis_id)) _ _ _ _ refl (
        outcome_of-if (is_merge d.outcome && is_none d.matched_hypothesis_id) _ _ _ _ refl
          (outcome_of-if (is_merge d.outcome) _ _ _ _ (ap some merged) refl)))
