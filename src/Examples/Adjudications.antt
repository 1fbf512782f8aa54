-- ===== src/Examples/Adjudications.antt =====
-- Examples of the adjudicator.
use sanuvia_reasoning_engine.Prelude.{ℕ, ◌≡◌, refl, none, some, List, [], ◌∷◌}
use sanuvia_reasoning_engine.Prelude.Dict.{Dict, get_list}
use sanuvia_reasoning_engine.Domain.Errors.{ok, OnlyGoverned}
use sanuvia_reasoning_engine.Domain.Hypothesis.{LineageKey, affirms, negates, inverts}
use sanuvia_reasoning_engine.Domain.Identity.{IdentityDecision, refine_existing}
use sanuvia_reasoning_engine.Prelude.Tests.{string_eq, pair_eq}
use sanuvia_reasoning_engine.Reasoning.Statement.{normalise_statement}
use sanuvia_reasoning_engine.Reasoning.Identity.{
  candidate_key, LineageView, decision, unusable, Resolver, decision_of, adjudicate, bounded_views,
  statement_of, govern_resolver_decision, protect_merge, park, exact_match, version_matches,
  signature_matches, decide_inexact,
}
use sanuvia_reasoning_engine.Reasoning.Identity.Merging.{MergesSafely, adjudicate-MergesSafely}
use sanuvia_reasoning_engine.Reasoning.Identity.Outcomes.{
  adjudicate-OnlyGoverned, govern_resolver_decision-confidence, outcome_of,
}
use sanuvia_reasoning_engine.Reasoning.Identity.Search.{plausible_views}
use sanuvia_reasoning_engine.Reasoning.Identity.Deterministic.{
  IsDeterministic, adjudicate-IsDeterministic,
}
use sanuvia_reasoning_engine.Examples.Data.{plain, proposal, signature, lineage_of}

-- A lineage that says the opposite, and one that says the same.
abbrev opposed : Dict LineageKey (List LineageView)
opposed = (("cleo", "bob"), lineage_of affirms "She leaves." ∷ []) ∷ []

abbrev agreeing : Dict LineageKey (List LineageView)
agreeing = (("cleo", "bob"), lineage_of negates "She  stays!" ∷ []) ∷ []

abbrev nothing : Dict LineageKey (List LineageView)
nothing = []

-- A resolver that would merge, and one that does not answer.
abbrev refine : IdentityDecision ℕ
refine = record (decision_of refine_existing "c1") {
  matched_hypothesis_id = some "hyp-1";
  resolver_id = some "resolver";
  confidence = some 9;
}

abbrev merging : Resolver ℕ
merging candidate bounded = ok (decision refine)

abbrev broken : Resolver ℕ
broken candidate bounded = ok (unusable none (some "?"))

refines :
    adjudicate plain proposal signature
      (some merging)
      ((("cleo", "bob"), lineage_of negates "She sits." ∷ []) ∷ [])
      nothing
    ≡ ok refine
unfolding adjudicate decide_inexact exact_match version_matches normalise_statement
    signature_matches govern_resolver_decision protect_merge bounded_views statement_of inverts
refines = refl

adjudicate-MergesSafely_example :
    MergesSafely signature
      (plausible_views signature
        ((("cleo", "bob"), lineage_of negates "She sits." ∷ []) ∷ [])
        nothing)
      refine
adjudicate-MergesSafely_example =
    adjudicate-MergesSafely plain proposal signature (some merging)
      ((("cleo", "bob"), lineage_of negates "She sits." ∷ []) ∷ []) nothing refine refines

-- The merge into the opposed lineage is discarded, and on record.
discarded :
    adjudicate plain proposal signature (some merging) opposed nothing
    ≡ ok (record (park proposal (lineage_of affirms "She leaves.") []) {
      overridden_resolver_outcome = some refine_existing;
      resolver_id = some "resolver";
      confidence = some 9;
    })
unfolding adjudicate decide_inexact exact_match version_matches normalise_statement
    signature_matches govern_resolver_decision protect_merge bounded_views statement_of inverts park
discarded = refl

adjudicate-IsDeterministic_example :
    (d : IdentityDecision ℕ) × (adjudicate plain proposal signature none agreeing nothing ≡ ok d)
    × IsDeterministic plain proposal signature
        (get_list agreeing (candidate_key signature))
        (get_list nothing (candidate_key signature))
        d
adjudicate-IsDeterministic_example =
    adjudicate-IsDeterministic plain proposal signature agreeing nothing

adjudicate-OnlyGoverned_example :
    OnlyGoverned (adjudicate plain proposal signature (some broken) opposed nothing)
adjudicate-OnlyGoverned_example =
    adjudicate-OnlyGoverned plain proposal signature (some broken) opposed nothing (λ bounded. tt)

govern_resolver_decision-confidence_example :
    outcome_of (
      govern_resolver_decision proposal signature
        (decision (record refine { confidence = some 0 }))
        (lineage_of affirms "She leaves." ∷ [])
        (bounded_views (lineage_of affirms "She leaves." ∷ [])))
    ≡ outcome_of (
        govern_resolver_decision proposal signature
          (decision refine)
          (lineage_of affirms "She leaves." ∷ [])
          (bounded_views (lineage_of affirms "She leaves." ∷ [])))
govern_resolver_decision-confidence_example =
    govern_resolver_decision-confidence proposal signature refine (some 0)
      (lineage_of affirms "She leaves." ∷ [])
