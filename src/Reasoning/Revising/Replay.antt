-- ===== src/Reasoning/Revising/Replay.antt =====
-- What every step of a run keeps (src/sanuvia/application/reasoning/model_revision.py): its working set is the
-- entering one with the records of its intents written over it, in their order. `F` is the type of the
-- program's floats.
use sanuvia_reasoning_engine.Prelude.{
  String, ◌≡◌, refl, sym, ap, ◌∙◌, subst, ◌⊎◌, inl, inr, Bool, true, false, Option, none, some,
  List, [], ◌∷◌, ◌++◌, arith,
}
use sanuvia_reasoning_engine.Prelude.Tests.{
  Bool-cases, Option-cases, string_eq, if◌then◌else◌, ◌==◌,
}
use sanuvia_reasoning_engine.Prelude.Lists.{In, All, In-append_left, In-append_right}
use sanuvia_reasoning_engine.Prelude.Dict.{Dict, put}
use sanuvia_reasoning_engine.Domain.Errors.{Result, Error, ok, err, ◌>>=◌, ok-injective}
use sanuvia_reasoning_engine.Domain.Evidence.{EvidenceRecord}
use sanuvia_reasoning_engine.Domain.Hypothesis.{
  Hypothesis, HypothesisLineage, make_hypothesis, overlaps,
}
use sanuvia_reasoning_engine.Domain.Dependency.{DependencyRelation}
use sanuvia_reasoning_engine.Domain.Revision.{
  RevisionEvent, RevisionOutcome, make_event, proposed, no_ids,
}
use sanuvia_reasoning_engine.Stores.Hypotheses.Table.{replay}
use sanuvia_reasoning_engine.Reasoning.Scoring.{in_unit, make_unit, Floats}
use sanuvia_reasoning_engine.Reasoning.Revising.{
  Engine, Scene, Run, Intent, hyp_record, proposed_event, enter,
}
use sanuvia_reasoning_engine.Reasoning.Revising.Plan.{records_of}

-- The property holds of what is returned, if something is.
pub Then : {A : Type 0} → (A → Type 0) → Result A → Type 0
Then P (ok a) = P a
Then P (err e) = Unit

module _ {A B : Type 0} where
  pub bind-Then :
      (P : A → Type 0) (Q : B → Type 0) (m : Result A) (f : A → Result B)
      → Then P m
      → ((a : A) → P a → Then Q (f a))
      → Then Q (m >>= f)
  unfolding Then
  bind-Then P Q (ok a) f p step = step a p
  bind-Then P Q (err e) f p step = tt

  pub bind-any :
      (Q : B → Type 0) (m : Result A) (f : A → Result B)
      → ((a : A) → Then Q (f a))
      → Then Q (m >>= f)
  unfolding Then
  bind-any Q (ok a) f step = step a
  bind-any Q (err e) f step = tt

pub ok-Then : {A : Type 0} (P : A → Type 0) (a : A) → P a → Then P (ok a)
unfolding Then
ok-Then P a p = p

pub err-Then : {A : Type 0} (P : A → Type 0) (e : Error) → Then P (err e)
unfolding Then
err-Then P e = tt

pub Then-ok : {A : Type 0} (P : A → Type 0) (m : Result A) (a : A) → Then P m → m ≡ ok a → P a
unfolding Then
Then-ok P (ok b) a p e = subst P (ok-injective e) p
Then-ok P (err x) a p e = cc

pub Then-map :
    {A : Type 0} (P Q : A → Type 0) (m : Result A) → Then P m → ((a : A) → P a → Q a) → Then Q m
unfolding Then
Then-map P Q (ok a) p f = f a p
Then-map P Q (err e) p f = tt

-- Both branches of a test
pub if-Then :
    {A : Type 0} (Q : A → Type 0) (b : Bool) (m n : Result A)
    → Then Q m
    → Then Q n
    → Then Q (if b then m else n)
if-Then Q true m n p q = p
if-Then Q false m n p q = q

-- Both cases of a lookup
pub option-Then :
    {A B : Type 0} (Q : B → Type 0) (o : Option A) (m : Result B) (f : A → Result B)
    → Then Q m
    → ((a : A) → Then Q (f a))
    → Then Q (elim o [ none ↦ m | some a ↦ f a ])
option-Then Q none m f p q = p
option-Then Q (some a) m f p q = q a

-- The constructors return what they are given.
make_unit-Then :
    {F : Type 0} (o : Floats F) (v : F) → Then (λ w. in_unit o w ≡ true) (make_unit o v)
unfolding make_unit
make_unit-Then o v = elim (Bool-cases (in_unit o v)) [
  | inl t ↦ rw t (ok-Then (λ w. in_unit o w ≡ true) v t)
  | inr t ↦ rw t (err-Then _ _)
]

make_hypothesis-Then : {F : Type 0} (h : Hypothesis F) → Then (λ k. h ≡ k) (make_hypothesis h)
unfolding make_hypothesis
make_hypothesis-Then h =
    if-Then (λ k. h ≡ k) (h.statement == "") _ _ (err-Then _ _)
      (if-Then (λ k. h ≡ k) (h.space_id == "") _ _ (err-Then _ _)
        (if-Then (λ k. h ≡ k) (overlaps h.supporting_evidence_ids h.contradicting_evidence_ids) _ _
          (err-Then _ _) (ok-Then _ _ refl)))

pub make_hypothesis-keeps :
    {F S : Type 0} (P : Hypothesis F → Type 0) (h : Hypothesis F) (ids : S)
    → P h
    → Then (λ (p : Hypothesis F × S). P p.0) (make_hypothesis h >>= λ k. ok (k, ids))
make_hypothesis-keeps P h ids p =
    bind-Then (λ k. h ≡ k) (λ q. P q.0) (make_hypothesis h) _ (make_hypothesis-Then h)
      (λ k e. ok-Then _ _ (subst P e p))

module _ {F : Type 0} where
  replay-append :
      (hs : List (Hypothesis F)) (base : Dict String (Hypothesis F)) (h : Hypothesis F)
      → replay base (hs ++ h ∷ []) ≡ put (replay base hs) h.hypothesis_id h
  unfolding replay
  replay-append [] base h = refl
  replay-append (k ∷ ks) base h = replay-append ks (put base k.hypothesis_id k) h

  records_of-append :
      (is : List (Intent F)) (i : Intent F) (h : Hypothesis F)
      → i.record_written ≡ some h
      → records_of (is ++ i ∷ []) ≡ records_of is ++ h ∷ []
  unfolding records_of
  records_of-append [] i h p = ground arith
  records_of-append (j ∷ js) i h p = elim (Option-cases j.record_written) [
    | inl n ↦ rw n (records_of-append js i h p)
    | inr (k, n) ↦ rw n (ap (λ hs. k ∷ hs) (records_of-append js i h p))
  ]

pub All-append :
    {A : Type 0} (P : A → Type 0) (xs : List A) (x : A) → All P xs → P x → All P (xs ++ x ∷ [])
All-append P [] x h p = (p, tt)
All-append P (y ∷ ys) x h p = (h.0, All-append P ys x h.1 p)

pub All-map :
    {A : Type 0} {P Q : A → Type 0} → ((a : A) → P a → Q a) → (xs : List A) → All P xs → All Q xs
All-map f [] h = tt
All-map f (x ∷ xs) h = (f x h.0, All-map f xs h.1)

pub event-keeps : (P : RevisionEvent → Type 0) (e : RevisionEvent) → P e → Then P (make_event e)
unfolding make_event
event-keeps P e p =
    if-Then P (no_ids e.triggering_evidence_ids) _ _ (err-Then _ _)
      (if-Then P _ _ _ (err-Then _ _) (ok-Then _ _ p))

module _ {F S : Type 0} (d : Engine F S) (c : Scene F) where
  -- An evaluation of the run's subject in its space, with a support in the unit range
  abbrev IsScoped : Hypothesis F → Type 0
  IsScoped h =
      (h.subject_id ≡ c.subject_id)
      × (h.space_id ≡ c.space_id)
      × (in_unit d.floats h.support ≡ true)

  -- A proposed event about the hypothesis whose evaluation the intent would write
  abbrev pub IsIntent : Intent F → Type 0
  IsIntent i =
      (h : Hypothesis F) × (i.record_written ≡ some h)
      × (i.event.affected_object_id ≡ h.hypothesis_id)
      × (i.event.status ≡ proposed)
      × IsScoped h

  abbrev IsRecorded : List (Intent F) → HypothesisLineage → Type 0
  IsRecorded is l =
      (h : Hypothesis F) × (In h (records_of is)) × (h.hypothesis_id ≡ l.hypothesis_id)

  -- The working set is the entering one with the intents' records written over it; each intent is one of
  -- the run's subject and space; each new lineage has a record.
  abbrev pub IsRun : Dict String (Hypothesis F) → Run F S → Type 0
  IsRun base r =
      (r.working ≡ replay base (records_of r.intents))
      × All IsIntent r.intents
      × All (IsRecorded r.intents) r.lineages

  pub hyp_record-IsScoped :
      (ids : S) (hid statement : String) (support : F) (xs ys : List String) (o : Option String)
      → Then
          (λ (p : Hypothesis F × S). IsScoped p.0 × (p.0.hypothesis_id ≡ hid))
          (hyp_record d c ids hid statement support xs ys o)
  unfolding hyp_record
  hyp_record-IsScoped ids hid statement support xs ys o =
      let P : Hypothesis F → Type 0 = λ h. IsScoped h × (h.hypothesis_id ≡ hid) in
      bind-Then (λ w. in_unit d.floats w ≡ true) (λ (p : Hypothesis F × S). P p.0) _ _
        (make_unit-Then d.floats _) (λ value u. make_hypothesis-keeps P _ _ ((refl, refl, u), refl))

  proposed_event-Then :
      (ids : S) (affected : String) (outcome : RevisionOutcome) (eid : String) (o : Option String)
      → Then
          (λ (p : RevisionEvent × S). (p.0.affected_object_id ≡ affected) × (p.0.status ≡ proposed))
          (proposed_event d c ids affected outcome eid o)
  unfolding proposed_event
  proposed_event-Then ids affected outcome eid o =
      let P : RevisionEvent → Type 0 =
        λ e. (e.affected_object_id ≡ affected) × (e.status ≡ proposed) in
      bind-Then P (λ (p : RevisionEvent × S). P p.0) _ _ (event-keeps P _ (refl, refl))
        (λ e q. ok-Then _ _ q)

  -- An intent of a scoped record that is entered keeps the run, and gives a lineage of its id its record.
  pub enter-IsRun :
      (base : Dict String (Hypothesis F)) (evidence : EvidenceRecord F) (h : Hypothesis F)
      (outcome : RevisionOutcome) (o : Option String) (relation : DependencyRelation) (r : Run F S)
      → IsScoped h
      → r.working ≡ replay base (records_of r.intents)
      → All IsIntent r.intents
      → All (λ l. IsRecorded r.intents l ⊎ (h.hypothesis_id ≡ l.hypothesis_id)) r.lineages
      → Then (IsRun base) (enter d c evidence h outcome o relation r)
  unfolding enter
  enter-IsRun base evidence h outcome o relation r scoped working intents lineages =
      bind-Then _ _ _ _ (proposed_event-Then r.ids h.hypothesis_id outcome evidence.id o)
        (λ (event, ids') (affected, status). bind-any _ _ _ (λ (edge, ids'').
          let i : Intent F = record { event = event; record_written = some h } in
          let grown = records_of-append r.intents i h refl in
          ok-Then _ _ (
            ap (λ w. put w h.hypothesis_id h) working
                ∙ sym (replay-append (records_of r.intents) base h)
                ∙ ap (replay base) (sym grown),
            All-append IsIntent r.intents i intents (h, refl, affected, status, scoped),
            All-map
                (λ l q. elim q [
                  | inl (k, m, p) ↦ (
                    k,
                    subst (In k) (sym grown) (In-append_left k (records_of r.intents) (h ∷ []) m),
                    p,
                  )
                  | inr p ↦ (
                    h,
                    subst (In h) (sym grown)
                        (In-append_right h (records_of r.intents) (h ∷ []) (inl refl)),
                    p,
                  )
                ])
                r.lineages lineages,
          )))
