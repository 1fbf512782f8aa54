-- ===== src/Reasoning/Identity/Deterministic.antt =====
-- What the adjudicator of src/sanuvia/application/reasoning/identity.py decides without a resolver. `F` is the type
-- of the program's floats.
use sanuvia_reasoning_engine.Prelude.{
  ◌≡◌, refl, sym, ap, ◌∙◌, subst, ◌↔◌, ◌⊎◌, inl, inr, Bool, true, false, none, some, List, [], ◌∷◌,
  ◌++◌, arith,
}
use sanuvia_reasoning_engine.Prelude.Tests.{string_eq, pair_eq, option_eq, Bool-cases, Option-cases}
use sanuvia_reasoning_engine.Prelude.Lists.{find}
use sanuvia_reasoning_engine.Prelude.Dict.{Dict, get_list}
use sanuvia_reasoning_engine.Domain.Errors.{ok, is_none}
use sanuvia_reasoning_engine.Domain.Hypothesis.{CommitmentSignature, LineageKey, inverts}
use sanuvia_reasoning_engine.Domain.Identity.{
  IdentityDecision, match_existing, refine_existing, distinct_new, ambiguous_review_required,
}
use sanuvia_reasoning_engine.Reasoning.Ports.{CandidateProposal}
use sanuvia_reasoning_engine.Reasoning.Statement.{Unicode}
use sanuvia_reasoning_engine.Reasoning.Identity.{
  LineageView, durable_ids, park, candidate_key, exact_match, match_or_park, decide_inexact,
  adjudicate, decision_of,
}
use sanuvia_reasoning_engine.Reasoning.Identity.Search.{
  adjudicate-committed, adjudicate-in_flight, adjudicate-inexact, find-append,
}

-- What the deterministic arm alone decides of the lineages that the bound retrieves, committed ones and then
-- those in flight.
pub record IsDeterministic {F : Type 0} (u : Unicode) (candidate : CandidateProposal)
    (signature : CommitmentSignature) (old new : List LineageView) (d : IdentityDecision F)
    : Type 0 where
  pub about : d.candidate_local_ref ≡ candidate.local_ref
  pub matches : (d.outcome ≡ match_existing) ↔ (
      (l : LineageView) × (find (exact_match u candidate signature) (old ++ new) ≡ some l)
      × (inverts l.current_stance signature.stance ≡ false))
  pub names :
      (l : LineageView)
      → find (exact_match u candidate signature) (old ++ new) ≡ some l
      → d.outcome ≡ match_existing
      → (d.matched_hypothesis_id ≡ l.hypothesis_id)
        × (d.matched_lineage_key ≡ some (candidate_key signature))
        × (d.matched_in_flight ≡ is_none (find (exact_match u candidate signature) old))
  pub names_none : ¬ (d.outcome ≡ match_existing) → d.matched_hypothesis_id ≡ none
  pub parks : (d.outcome ≡ ambiguous_review_required) ↔ (
      ((l : LineageView) × (find (exact_match u candidate signature) (old ++ new) ≡ some l)
        × (inverts l.current_stance signature.stance ≡ true)
        × (d.plausible_matches ≡ durable_ids (l ∷ [])))
      ⊎ ((find (exact_match u candidate signature) (old ++ new) ≡ none)
          × (¬ (old ++ new ≡ []))
          × (d.plausible_matches ≡ durable_ids (old ++ new))))
  pub founds : (d.outcome ≡ distinct_new) ↔ (old ++ new ≡ [])
  pub never_refines : ¬ (d.outcome ≡ refine_existing)

some-injective : {A : Type 0} {a b : A} → some a ≡ some b → a ≡ b
some-injective h = ground arith

module _ {F : Type 0} (u : Unicode) (candidate : CandidateProposal)
    (signature : CommitmentSignature) where
  match_or_park-IsDeterministic :
      (flight : Bool) (l : LineageView) (old new : List LineageView)
      → find (exact_match u candidate signature) (old ++ new) ≡ some l
      → flight ≡ is_none (find (exact_match u candidate signature) old)
      → IsDeterministic u candidate signature old new
          (match_or_park {F = F} candidate signature flight l)
  unfolding match_or_park park
  match_or_park-IsDeterministic flight l old new f arm =
      let nonempty : ¬ (old ++ new ≡ []) =
        λ q. cc (ap (find (exact_match u candidate signature)) q) in
      elim (Bool-cases (inverts l.current_stance signature.stance)) [
        | inl t ↦ record {
          about = rw t refl;
          matches = (
            λ h. cc (rw t at h),
            λ (k, e, n).
                let same = some-injective (sym f ∙ e) in
                cc (
                  subst (λ (v : LineageView). inverts v.current_stance signature.stance ≡ true) same
                    t),
          );
          names = λ k e h. cc (rw t at h);
          names_none = λ h. rw t refl;
          parks = (λ h. inl (l, f, t, rw t refl), λ h. rw t refl);
          founds = (λ h. cc (rw t at h), λ q. absurd (nonempty q));
          never_refines = λ h. cc (rw t at h);
        }
        | inr t ↦ record {
          about = rw t refl;
          matches = (λ h. (l, f, t), λ r. rw t refl);
          names = λ k e h.
              rw t
                (ap (λ (v : LineageView). v.hypothesis_id) (some-injective (sym f ∙ e)), refl, arm);
          names_none = λ h. absurd (h (rw t refl));
          parks = (
            λ h. cc (rw t at h),
            λ h. elim h [
              | inl (k, g, n, p) ↦
                  let same = some-injective (sym f ∙ g) in
                  cc (
                    subst (λ (v : LineageView). inverts v.current_stance signature.stance ≡ false)
                      same t)
              | inr (g, n, p) ↦ cc
            ],
          );
          founds = (λ h. cc (rw t at h), λ q. absurd (nonempty q));
          never_refines = λ h. cc (rw t at h);
        }
      ]

  -- What the unconfigured adjudicator returns when nothing matches exactly.
  inexact : List LineageView → IdentityDecision F
  inexact [] = record (decision_of distinct_new candidate.local_ref) {
    matched_lineage_key = some (candidate_key signature);
  }
  inexact (l ∷ ls) = park candidate l ls

  inexact_founds :
      (old new : List LineageView)
      → old ++ new ≡ []
      → find (exact_match u candidate signature) (old ++ new) ≡ none
      → IsDeterministic u candidate signature old new (inexact [])
  unfolding inexact
  inexact_founds old new e f = record {
    about = refl;
    matches = (λ h. cc, λ (k, e, n). cc);
    names = λ k g h. cc;
    names_none = λ h. refl;
    parks = (λ h. cc, λ h. elim h [ inl (k, g, n, p) ↦ cc | inr (g, n, p) ↦ absurd (n e) ]);
    founds = (λ h. e, λ h. refl);
    never_refines = λ h. cc;
  }

  inexact_parks :
      (old new : List LineageView) (l : LineageView) (ls : List LineageView)
      → old ++ new ≡ l ∷ ls
      → find (exact_match u candidate signature) (old ++ new) ≡ none
      → IsDeterministic u candidate signature old new (inexact (l ∷ ls))
  unfolding inexact park
  inexact_parks old new l ls e f =
      let nonempty : ¬ (old ++ new ≡ []) = λ q. cc (sym e ∙ q) in
      record {
        about = refl;
        matches = (λ h. cc, λ (k, e, n). cc);
        names = λ k g h. cc;
        names_none = λ h. refl;
        parks = (λ h. inr (f, nonempty, ap durable_ids (sym e)), λ h. refl);
        founds = (λ h. cc, λ h. absurd (nonempty h));
        never_refines = λ h. cc;
      }

  inexact-IsDeterministic :
      (old new plausible : List LineageView)
      → old ++ new ≡ plausible
      → find (exact_match u candidate signature) (old ++ new) ≡ none
      → IsDeterministic u candidate signature old new (inexact plausible)
  inexact-IsDeterministic old new [] e f = inexact_founds old new e f
  inexact-IsDeterministic old new (l ∷ ls) e f = inexact_parks old new l ls e f

  decide_inexact-none :
      (ls : List LineageView) → decide_inexact candidate signature none ls ≡ ok (inexact ls)
  unfolding decide_inexact inexact
  decide_inexact-none [] = refl
  decide_inexact-none (l ∷ ls) = refl

-- Without a resolver an adjudication never fails. It looks for the first lineage of the bound, committed ones
-- first, that matches exactly. If there is one and the candidate does not invert its stance, the decision
-- matches, names that lineage and the candidate's key, and says whether it is in flight; it matches in no
-- other case. It parks exactly when that lineage is inverted, and then names it alone as plausible, or when
-- nothing matches exactly and the bound retrieves something, and then names all of that. It founds a lineage
-- exactly when the bound retrieves none, and never refines; a decision that does not match names no lineage.
pub adjudicate-IsDeterministic :
    {F : Type 0} (u : Unicode) (candidate : CandidateProposal) (signature : CommitmentSignature)
    → (committed flying : Dict LineageKey (List LineageView))
    → (d : IdentityDecision F) × (adjudicate u candidate signature none committed flying ≡ ok d)
      × IsDeterministic u candidate signature
          (get_list committed (candidate_key signature))
          (get_list flying (candidate_key signature))
          d
adjudicate-IsDeterministic {F} u candidate signature committed flying =
    let old = get_list committed (candidate_key signature) in
    let new = get_list flying (candidate_key signature) in
    let test = exact_match u candidate signature in
    let all = find-append test old new in
    elim (Option-cases (find test old)) [
      | inr (l, e) ↦ (
        match_or_park candidate signature false l,
        adjudicate-committed u candidate signature none committed flying l e,
        match_or_park-IsDeterministic u candidate signature false l old new (rw e at all)
            (sym (ap is_none e)),
      )
      | inl e ↦ elim (Option-cases (find test new)) [
        | inr (l, e') ↦ (
          match_or_park candidate signature true l,
          adjudicate-in_flight u candidate signature none committed flying l e e',
          match_or_park-IsDeterministic u candidate signature true l old new (rw (e, e') at all)
              (sym (ap is_none e)),
        )
        | inl e' ↦ (
          inexact u candidate signature (old ++ new),
          adjudicate-inexact u candidate signature none committed flying e e'
              ∙ decide_inexact-none u candidate signature (old ++ new),
          inexact-IsDeterministic u candidate signature old new (old ++ new) refl
              (rw (e, e') at all),
        )
      ]
    ]
