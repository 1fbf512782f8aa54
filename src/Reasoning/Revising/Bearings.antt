-- ===== src/Reasoning/Revising/Bearings.antt =====
-- What a support or a contradiction does to a run (src/sanuvia/application/reasoning/model_revision.py). `F` is
-- the type of the program's floats.
use sanuvia_reasoning_engine.Prelude.{
  String, ◌≡◌, refl, sym, ap, ◌∙◌, subst, ◌⊎◌, inl, inr, true, Option, none, some, List, [], ◌∷◌,
  ◌++◌, arith,
}
use sanuvia_reasoning_engine.Prelude.Tests.{
  Bool-cases, Option-cases, string_eq, if◌then◌else◌, ◌==◌,
}
use sanuvia_reasoning_engine.Prelude.Lists.{contains}
use sanuvia_reasoning_engine.Prelude.Dict.{get, put, get-put_self}
use sanuvia_reasoning_engine.Domain.Errors.{
  Result, Error, ok, err, ◌>>=◌, invariant_violation, ok-injective,
}
use sanuvia_reasoning_engine.Domain.Dependency.{DependencyRelation}
use sanuvia_reasoning_engine.Domain.Evidence.{EvidenceRecord}
use sanuvia_reasoning_engine.Domain.Hypothesis.{Hypothesis, make_hypothesis, overlaps}
use sanuvia_reasoning_engine.Domain.Revision.{RevisionOutcome}
use sanuvia_reasoning_engine.Reasoning.Ports.{weakens}
use sanuvia_reasoning_engine.Reasoning.Scoring.{Floats, in_unit, make_unit, clamp_unit}
use sanuvia_reasoning_engine.Reasoning.Revising.{
  Engine, Scene, Run, dedup_onto, dedup, hyp_record, enter, weaken_hypothesis,
  strengthen_hypothesis, strengthen_with, proposed_event, new_edge,
}
use sanuvia_reasoning_engine.Reasoning.Revising.Ingest.{apply_bearing}
use sanuvia_reasoning_engine.Reasoning.Revising.Replay.{
  Then, bind-Then, bind-any, ok-Then, make_hypothesis-keeps, Then-ok, Then-map,
}

contains-last : (x : String) (xs : List String) → contains x (xs ++ x ∷ []) ≡ true
contains-last x [] = rw ((string_eq.beq_iff x x).1 refl) refl
contains-last x (y ∷ ys) = ground (arith, contains-last x ys)

pub contains-dedup : (x : String) (xs : List String) → contains x (dedup xs (x ∷ [])) ≡ true
unfolding dedup dedup_onto
contains-dedup x xs =
    let seen = dedup_onto [] xs in
    elim (Bool-cases (contains x seen)) [ inl t ↦ rw t t | inr t ↦ rw t (contains-last x seen) ]

overlaps-shared :
    (x : String) (xs ys : List String)
    → contains x xs ≡ true
    → contains x ys ≡ true
    → overlaps xs ys ≡ true
overlaps-shared x [] ys t u = cc
overlaps-shared x (y ∷ xs) ys t u = elim (Bool-cases (y == x)) [
  | inl p ↦ rw (subst (λ i. contains i ys ≡ true) (sym ((string_eq.beq_iff y x).0 p)) u) refl
  | inr p ↦ ground (arith, overlaps-shared x xs ys (rw p at t) u)
]

make_hypothesis_conflict :
    {F : Type 0} (h : Hypothesis F)
    → overlaps h.supporting_evidence_ids h.contradicting_evidence_ids ≡ true
    → make_hypothesis h ≡ err invariant_violation
unfolding make_hypothesis
make_hypothesis_conflict h t = ground arith

bind-err :
    {A B : Type 0} (m : Result A) (f : A → Result B) (e : Error) → m ≡ err e → (m >>= f) ≡ err e
bind-err (ok a) f e p = cc
bind-err (err x) f e p = ground arith

make_unit-cases :
    {F : Type 0} (o : Floats F) (v : F)
    → (make_unit o v ≡ ok v) ⊎ (make_unit o v ≡ err invariant_violation)
unfolding make_unit
make_unit-cases o v = elim (Bool-cases (in_unit o v)) [
  | inl t ↦ inl (rw t refl)
  | inr t ↦ inr (rw t refl)
]

module _ {F S : Type 0} (d : Engine F S) (c : Scene F) where
  hyp_record_conflict :
      (eid : String) (ids : S) (hid statement : String) (support : F) (xs ys : List String)
      (o : Option String)
      → contains eid xs ≡ true
      → contains eid ys ≡ true
      → hyp_record d c ids hid statement support xs ys o ≡ err invariant_violation
  unfolding hyp_record
  hyp_record_conflict eid ids hid statement support xs ys o t u =
      elim (make_unit-cases d.floats (clamp_unit d.floats support)) [
        | inl e ↦ rw e (bind-err _ _ _ (make_hypothesis_conflict _ (overlaps-shared eid xs ys t u)))
        | inr e ↦ rw e refl
      ]

  -- The hypothesis has an evaluation that the observation supports.
  abbrev IsAttached : String → String → Run F S → Type 0
  IsAttached eid hid r =
      (h : Hypothesis F) × (get r.working hid ≡ some h)
      × (contains eid h.supporting_evidence_ids ≡ true)

  enter-working :
      (evidence : EvidenceRecord F) (h : Hypothesis F) (outcome : RevisionOutcome)
      (o : Option String) (relation : DependencyRelation) (r : Run F S)
      → Then
          (λ r'. r'.working ≡ put r.working h.hypothesis_id h)
          (enter d c evidence h outcome o relation r)
  unfolding enter
  enter-working evidence h outcome o relation r =
      bind-any _ (proposed_event d c r.ids h.hypothesis_id outcome evidence.id o) _
        (λ (event, ids').
          bind-any _ (new_edge d c ids' evidence.id h.hypothesis_id relation) _
            (λ (edge, ids''). ok-Then _ _ refl))

  strengthen_with-found :
      (evidence : EvidenceRecord F) (hid : String) (prev : Hypothesis F) (r : Run F S)
      → get r.working hid ≡ some prev
      → strengthen_with d c evidence hid r ≡ (
          if contains evidence.id prev.supporting_evidence_ids
          then ok r
          else strengthen_hypothesis d c evidence hid prev r)
  unfolding strengthen_with
  strengthen_with-found evidence hid prev r h = rw (strengthen_with, h) refl

  strengthen_with-missing :
      (evidence : EvidenceRecord F) (hid : String) (r : Run F S)
      → get r.working hid ≡ none
      → strengthen_with d c evidence hid r ≡ ok r
  unfolding strengthen_with
  strengthen_with-missing evidence hid r h = rw (strengthen_with, h) refl

  strengthen_hypothesis-IsAttached :
      (evidence : EvidenceRecord F) (hid : String) (prev : Hypothesis F) (r : Run F S)
      → Then (IsAttached evidence.id hid) (strengthen_hypothesis d c evidence hid prev r)
  unfolding strengthen_hypothesis hyp_record
  strengthen_hypothesis-IsAttached evidence hid prev r =
      let P : Hypothesis F → Type 0 =
        λ h. (h.hypothesis_id ≡ hid) × (contains evidence.id h.supporting_evidence_ids ≡ true) in
      bind-Then (λ (p : Hypothesis F × S). P p.0) _ _ _
        (bind-any _ _ _ (λ value.
          make_hypothesis-keeps P _ _
            (refl, contains-dedup evidence.id prev.supporting_evidence_ids)))
        (λ (h, ids') (same, attached). Then-map _ _ _ (enter-working evidence h _ _ _ _) (λ r' e. (
          h,
          ap (λ w. get w hid) e
              ∙ subst (λ i. get (put r.working h.hypothesis_id h) i ≡ some h) same
                  (get-put_self r.working h.hypothesis_id h),
          attached,
        )))

  strengthen_with-IsAttached :
      (evidence : EvidenceRecord F) (hid : String) (prev : Hypothesis F) (r : Run F S)
      → get r.working hid ≡ some prev
      → Then (IsAttached evidence.id hid) (strengthen_with d c evidence hid r)
  strengthen_with-IsAttached evidence hid prev r found =
      subst (Then (IsAttached evidence.id hid))
        (sym (strengthen_with-found evidence hid prev r found))
        (elim (Bool-cases (contains evidence.id prev.supporting_evidence_ids)) [
          | inl t ↦ rw t (ok-Then _ _ (prev, found, t))
          | inr t ↦ rw t (strengthen_hypothesis-IsAttached evidence hid prev r)
        ])

  attached-strengthen_with :
      (evidence : EvidenceRecord F) (hid : String) (r : Run F S)
      → IsAttached evidence.id hid r
      → strengthen_with d c evidence hid r ≡ ok r
  attached-strengthen_with evidence hid r (h, found, t) =
      strengthen_with-found evidence hid h r found
      ∙ ap (λ b. if b then ok r else strengthen_hypothesis d c evidence hid h r) t

  -- When an observation's support for a hypothesis has been applied, applying it again changes nothing: no
  -- second support, evaluation, event or edge.
  pub strengthen_with_twice :
      (evidence : EvidenceRecord F) (hid : String) (r r' : Run F S)
      → strengthen_with d c evidence hid r ≡ ok r'
      → strengthen_with d c evidence hid r' ≡ ok r'
  strengthen_with_twice evidence hid r r' done = elim (Option-cases (get r.working hid)) [
    | inl n ↦
        let same = ok-injective (sym (strengthen_with-missing evidence hid r n) ∙ done) in
        subst (λ s. strengthen_with d c evidence hid s ≡ ok s) same
          (strengthen_with-missing evidence hid r n)
    | inr (prev, n) ↦ attached-strengthen_with evidence hid r' (
        Then-ok (IsAttached evidence.id hid) _ r' (strengthen_with-IsAttached evidence hid prev r n)
          done)
  ]

  -- The evaluation of an attached observation cannot be given as contradicting.
  weaken_hypothesis_conflict :
      (evidence : EvidenceRecord F) (prev : Hypothesis F) (o : Option String) (r : Run F S)
      → contains evidence.id prev.supporting_evidence_ids ≡ true
      → weaken_hypothesis d c evidence prev o r ≡ err invariant_violation
  unfolding weaken_hypothesis
  weaken_hypothesis_conflict evidence prev o r t = bind-err _ _ _ (
      hyp_record_conflict evidence.id r.ids prev.hypothesis_id prev.statement _
        prev.supporting_evidence_ids _ _ t
        (contains-dedup evidence.id prev.contradicting_evidence_ids))

  -- When an observation is made to support a hypothesis of the working set and is then made to weaken it too,
  -- the second step raises an `InvariantViolation`, which is no governed outcome.
  pub strengthen_then_weaken :
      (evidence : EvidenceRecord F) (hid : String) (prev : Hypothesis F) (r r' : Run F S)
      → get r.working hid ≡ some prev
      → strengthen_with d c evidence hid r ≡ ok r'
      → apply_bearing d c evidence hid weakens r' ≡ err invariant_violation
  unfolding apply_bearing
  strengthen_then_weaken evidence hid prev r r' found done =
      let (h, new, t) =
        Then-ok (IsAttached evidence.id hid) _ r'
          (strengthen_with-IsAttached evidence hid prev r found) done in
      rw (apply_bearing, new) (weaken_hypothesis_conflict evidence h none r' t)
