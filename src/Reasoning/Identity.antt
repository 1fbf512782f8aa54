-- ===== src/Reasoning/Identity.antt =====
-- The deterministic adjudicator of src/sanuvia/application/reasoning/identity.py, and the authority that
-- the application keeps over a resolver's answer. A resolver is a parameter. `F` is the type of the
-- program's floats; the text of a decision's `rationale` is not modelled.
pub mod Search
pub mod Merging
pub mod Outcomes
pub mod Deterministic
use sanuvia_reasoning_engine.Prelude.{
  ℕ, String, Bool, true, false, not, ◌&&◌, Option, none, some, List, [], ◌∷◌, ◌++◌, map,
}
use sanuvia_reasoning_engine.Prelude.Tests.{
  ◌==◌, if◌then◌else◌, string_eq, pair_eq, nat_eq, list_eq, option_eq,
}
use sanuvia_reasoning_engine.Prelude.Lists.{any, find, contains, last?}
use sanuvia_reasoning_engine.Prelude.Dict.{Dict, get, get_list, append_at, or_empty}
use sanuvia_reasoning_engine.Domain.Errors.{
  Result, Error, ok, err, ◌>>=◌, governed_rejection, identity_resolver, invalid_appraisal_response,
  is_none,
}
use sanuvia_reasoning_engine.Domain.Evidence.{truthy}
use sanuvia_reasoning_engine.Domain.Hypothesis.{
  CommitmentSignature, ClaimClass, claim_eq, Stance, stance_eq, open_stance, inverts, LineageKey,
  StatementVersion,
}
use sanuvia_reasoning_engine.Domain.Identity.{
  IdentityDecision, IdentityOutcome, match_existing, refine_existing, distinct_new,
  ambiguous_review_required,
}
use sanuvia_reasoning_engine.Reasoning.Ports.{CandidateProposal}
use sanuvia_reasoning_engine.Reasoning.Statement.{Unicode, normalise_statement}

-- What the adjudicator knows about one retrievable lineage.
pub record LineageView : Type 0 where
  pub hypothesis_id : Option String
  pub key : LineageKey
  pub current_stance : Stance
  pub versions : List StatementVersion
  pub in_flight : Bool
  pub in_flight_statement : Option String
  pub in_flight_signature : Option CommitmentSignature

unfoldable pub signature_matches : CommitmentSignature → ClaimClass → Stance → Option String → Bool
signature_matches candidate claim stance scope =
    candidate.claim_class == claim
    && candidate.stance == stance
    && candidate.temporal_scope == scope

-- A new decision: every field that has a default has it.
abbrev pub decision_of : {F : Type 0} → IdentityOutcome → String → IdentityDecision F
decision_of outcome local_ref = record {
  outcome = outcome;
  candidate_local_ref = local_ref;
  matched_hypothesis_id = none;
  matched_lineage_key = none;
  matched_in_flight = false;
  plausible_matches = [];
  confidence = none;
  resolver_id = none;
  resolver_raw_response = none;
  overridden_resolver_outcome = none;
}

-- `tuple(lv.hypothesis_id for lv in views if lv.hypothesis_id is not None)`
pub durable_ids : List LineageView → List String
durable_ids [] = []
durable_ids (l ∷ ls) = elim l.hypothesis_id [
  | none ↦ durable_ids ls
  | some hid ↦ hid ∷ durable_ids ls
]

unfoldable pub signature_of_flight : Option CommitmentSignature → CommitmentSignature → Bool
signature_of_flight none signature = false
signature_of_flight (some s) signature =
    signature_matches signature s.claim_class s.stance s.temporal_scope

unfoldable pub statement_of : LineageView → String
statement_of l =
    if l.in_flight
    then elim l.in_flight_statement [ none ↦ "" | some s ↦ s ]
    else elim (last? l.versions) [ none ↦ "" | some v ↦ v.statement ]

-- The pairs of an id and a statement that a resolver is given.
unfoldable pub bounded_views : List LineageView → List (String × String)
bounded_views [] = []
bounded_views (l ∷ ls) = elim l.hypothesis_id [
  | none ↦ bounded_views ls
  | some hid ↦ (hid, statement_of l) ∷ bounded_views ls
]

-- `_park`, of a list that is not empty: its first element and the others.
unfoldable pub park :
    {F : Type 0} → CandidateProposal → LineageView → List LineageView → IdentityDecision F
park candidate l ls = record (decision_of ambiguous_review_required candidate.local_ref) {
  matched_lineage_key = some l.key;
  matched_in_flight = any (λ (v : LineageView). v.in_flight) (l ∷ ls);
  plausible_matches = durable_ids (l ∷ ls);
}

-- The value that `resolve` returns: a decision, or something else, of which two attributes are read.
pub data Answer (F : Type 0) : Type 0 where
  decision : IdentityDecision F → Answer F
  unusable : Option String → Option String → Answer F

-- An `IdentityResolver`: what it returns or raises for a candidate and the bounded candidates.
abbrev pub Resolver : Type 0 → Type 0
Resolver F = CandidateProposal → List (String × String) → Result (Answer F)

abbrev resolver_provenance : Option String → List (String × String)
resolver_provenance none = []
resolver_provenance (some rid) = if truthy (some rid) then ("resolver_id", rid) ∷ [] else []

pub resolver_failure : CandidateProposal → Option String → Option String → Error
resolver_failure candidate resolver_id raw = governed_rejection (record {
  outcome = invalid_appraisal_response;
  boundary = some identity_resolver;
  breach_kind = none;
  references = candidate.local_ref ∷ [];
  raw_response = raw;
  appraisal_responses = [];
  provenance = resolver_provenance resolver_id;
})

-- `outcome in (MATCH_EXISTING, REFINE_EXISTING)`
abbrev pub is_merge : IdentityOutcome → Bool
is_merge match_existing = true
is_merge refine_existing = true
is_merge _ = false

abbrev pub is_distinct : IdentityOutcome → Bool
is_distinct distinct_new = true
is_distinct _ = false

-- `decision.matched_hypothesis_id` is absent or admitted.
abbrev pub names_admitted : Option String → List String → Bool
names_admitted none admitted = true
names_admitted (some hid) admitted = contains hid admitted

module _ {F : Type 0} (candidate : CandidateProposal) (signature : CommitmentSignature) where
  -- (5): a merge into an inverted lineage is discarded, and the resolver's provenance is kept.
  unfoldable pub protect_merge : IdentityDecision F → Option LineageView → IdentityDecision F
  protect_merge d none = d
  protect_merge d (some matched) =
      if inverts matched.current_stance signature.stance
      then record (park candidate matched []) {
        overridden_resolver_outcome = some d.outcome;
        resolver_id = d.resolver_id;
        resolver_raw_response = d.resolver_raw_response;
        confidence = d.confidence;
      }
      else d

  unfoldable pub govern_resolver_decision :
      Answer F → List LineageView → List (String × String) → Result (IdentityDecision F)
  govern_resolver_decision (unusable rid raw) plausible bounded =
      err (resolver_failure candidate rid raw)
  govern_resolver_decision (decision d) plausible bounded =
      let failure : Result (IdentityDecision F) =
        err (resolver_failure candidate d.resolver_id d.resolver_raw_response) in
      if not (names_admitted d.matched_hypothesis_id (map (λ (b : String × String). b.0) bounded))
      then failure
      else if is_distinct d.outcome && not (is_none d.matched_hypothesis_id)
      then failure
      else if is_merge d.outcome && is_none d.matched_hypothesis_id
      then failure
      else if is_merge d.outcome
      then ok (
          protect_merge d
            (find (λ (l : LineageView). l.hypothesis_id == d.matched_hypothesis_id) plausible))
      else ok d

abbrev pub candidate_key : CommitmentSignature → LineageKey
candidate_key signature = (signature.subject, signature.attribution)

module _ (u : Unicode) (candidate : CandidateProposal) (signature : CommitmentSignature) where
  unfoldable pub version_matches : StatementVersion → Bool
  version_matches v =
      normalise_statement u v.statement == normalise_statement u candidate.statement
      && signature_matches signature v.claim_class v.stance v.temporal_scope

  unfoldable pub flight_matches : Option String → Option CommitmentSignature → Bool
  flight_matches none sig = false
  flight_matches (some s) sig =
      normalise_statement u s == normalise_statement u candidate.statement
      && signature_of_flight sig signature

  unfoldable pub exact_match : LineageView → Bool
  exact_match l =
      if l.in_flight
      then flight_matches l.in_flight_statement l.in_flight_signature
      else any version_matches l.versions

module _ {F : Type 0} (candidate : CandidateProposal) (signature : CommitmentSignature) where
  -- Case 2 for the first lineage that matches exactly.
  pub match_or_park : Bool → LineageView → IdentityDecision F
  match_or_park is_in_flight l =
      if inverts l.current_stance signature.stance
      then park candidate l []
      else record (decision_of match_existing candidate.local_ref) {
        matched_hypothesis_id = l.hypothesis_id;
        matched_lineage_key = some (candidate_key signature);
        matched_in_flight = is_in_flight;
      }

  -- Cases 3 and 4 on the plausible lineages.
  unfoldable pub decide_inexact :
      Option (Resolver F) → List LineageView → Result (IdentityDecision F)
  decide_inexact resolver [] = ok (record (decision_of distinct_new candidate.local_ref) {
    matched_lineage_key = some (candidate_key signature);
  })
  decide_inexact none (l ∷ ls) = ok (park candidate l ls)
  decide_inexact (some resolve) (l ∷ ls) = resolve candidate (bounded_views (l ∷ ls)) >>= λ answer.
      govern_resolver_decision candidate signature answer (l ∷ ls) (bounded_views (l ∷ ls))

-- The committed arm comes first.
unfoldable pub adjudicate :
    {F : Type 0} (u : Unicode) (candidate : CandidateProposal) (signature : CommitmentSignature)
    → Option (Resolver F)
    → Dict LineageKey (List LineageView)
    → Dict LineageKey (List LineageView)
    → Result (IdentityDecision F)
adjudicate u candidate signature resolver committed flying =
    let old = get_list committed (candidate_key signature) in
    let new = get_list flying (candidate_key signature) in
    elim (find (exact_match u candidate signature) old) [
      | some l ↦ ok (match_or_park candidate signature false l)
      | none ↦ elim (find (exact_match u candidate signature) new) [
        | some l ↦ ok (match_or_park candidate signature true l)
        | none ↦ decide_inexact candidate signature resolver (old ++ new)
      ]
    ]

module _ (current_stance : Dict String Stance)
    (histories : Dict String (List StatementVersion)) where
  abbrev committed_view : LineageKey → String → LineageView
  committed_view key hid = record {
    hypothesis_id = some hid;
    key = key;
    current_stance = elim (get current_stance hid) [ none ↦ open_stance | some s ↦ s ];
    versions = get_list histories hid;
    in_flight = false;
    in_flight_statement = none;
    in_flight_signature = none;
  }

  abbrev add_views :
      Dict LineageKey (List LineageView)
      → List (LineageKey × String)
      → Dict LineageKey (List LineageView)
  add_views views [] = views
  add_views views ((key, hid) ∷ rest) =
      add_views (append_at views key (committed_view key hid)) rest

  abbrev build_committed_views : Dict LineageKey String → Dict LineageKey (List LineageView)
  build_committed_views lineage_keys = add_views [] lineage_keys
