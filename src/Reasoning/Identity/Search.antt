-- ===== src/Reasoning/Identity/Search.antt =====
-- What the searches of the adjudicator find, and the ids that it admits
-- (src/sanuvia/application/reasoning/identity.py).
use sanuvia_reasoning_engine.Prelude.{
  String, ◌≡◌, refl, ap, ◌∙◌, subst, ◌⊎◌, inl, inr, Bool, true, false, Option, none, some, List, [],
  ◌∷◌, ◌++◌, map, arith,
}
use sanuvia_reasoning_engine.Prelude.Tests.{◌==◌, string_eq, option_eq, Bool-cases, Option-cases}
use sanuvia_reasoning_engine.Prelude.Lists.{In, find, find-some}
use sanuvia_reasoning_engine.Prelude.Tests.{pair_eq}
use sanuvia_reasoning_engine.Prelude.Dict.{Dict, get_list}
use sanuvia_reasoning_engine.Domain.Errors.{ok}
use sanuvia_reasoning_engine.Domain.Hypothesis.{CommitmentSignature, LineageKey}
use sanuvia_reasoning_engine.Reasoning.Ports.{CandidateProposal}
use sanuvia_reasoning_engine.Reasoning.Statement.{Unicode}
use sanuvia_reasoning_engine.Reasoning.Identity.{
  LineageView, durable_ids, bounded_views, Resolver, candidate_key, exact_match, match_or_park,
  decide_inexact, adjudicate,
}

find-none :
    {A : Type 0} (p : A → Bool) (a : A) (xs : List A) → In a xs → find p xs ≡ none → p a ≡ false
find-none p a [] m h = absurd m
find-none p a (x ∷ xs) m h = elim (Bool-cases (p x)) [
  | inl t ↦ cc
  | inr t ↦ elim m [ inl q ↦ subst (λ y. p y ≡ false) q t | inr r ↦ find-none p a xs r (rw t at h) ]
]

abbrev or_else : {A : Type 0} → Option A → Option A → Option A
or_else none o = o
or_else (some a) o = some a

pub find-append :
    {A : Type 0} (p : A → Bool) (xs ys : List A)
    → find p (xs ++ ys) ≡ or_else (find p xs) (find p ys)
find-append p [] ys = refl
find-append p (x ∷ xs) ys = elim (Bool-cases (p x)) [
  | inl t ↦ rw t refl
  | inr t ↦ rw t (find-append p xs ys)
]

pub map-bounded_views :
    (ls : List LineageView) → map (λ (b : String × String). b.0) (bounded_views ls) ≡ durable_ids ls
unfolding bounded_views durable_ids
map-bounded_views [] = refl
map-bounded_views (l ∷ ls) = elim (Option-cases l.hypothesis_id) [
  | inl e ↦ rw e (map-bounded_views ls)
  | inr (hid, e) ↦ rw e (ap (λ r. hid ∷ r) (map-bounded_views ls))
]

-- A lineage of the list has the durable id.
abbrev HasId : List LineageView → String → Type 0
HasId ls hid = (l : LineageView) × In l ls × (l.hypothesis_id ≡ some hid)

pub durable_ids_sound :
    (ls : List LineageView) (hid : String) → In hid (durable_ids ls) → HasId ls hid
unfolding durable_ids
durable_ids_sound [] hid m = absurd m
durable_ids_sound (l ∷ ls) hid m =
    let later : In hid (durable_ids ls) → HasId (l ∷ ls) hid =
      λ r. let (k, mk, e) = durable_ids_sound ls hid r in (k, inr mk, e) in
    elim (Option-cases l.hypothesis_id) [
      | inl e ↦ later (rw e at m)
      | inr (v, e) ↦
          let m' : (v ≡ hid) ⊎ In hid (durable_ids ls) = rw e at m in
          elim m' [ inl p ↦ (l, inl refl, e ∙ ap some p) | inr r ↦ later r ]
    ]

durable_ids_complete :
    (ls : List LineageView) (hid : String) (l : LineageView)
    → In l ls
    → l.hypothesis_id ≡ some hid
    → In hid (durable_ids ls)
unfolding durable_ids
durable_ids_complete [] hid l m e = absurd m
durable_ids_complete (k ∷ ls) hid l (inl p) e =
    rw (ap (λ (v : LineageView). v.hypothesis_id) p ∙ e) (inl refl)
durable_ids_complete (k ∷ ls) hid l (inr m) e =
    let ih = durable_ids_complete ls hid l m e in
    elim (Option-cases k.hypothesis_id) [ inl q ↦ rw q ih | inr (v, q) ↦ rw q (inr ih) ]

-- The search for an admitted id finds a lineage that has it.
pub find-HasId :
    (ls : List LineageView) (hid : String)
    → HasId ls hid
    → (l : LineageView) × (find (λ (v : LineageView). v.hypothesis_id == some hid) ls ≡ some l)
      × In l ls
      × (l.hypothesis_id ≡ some hid)
find-HasId ls hid (k, m, e) =
    let test : LineageView → Bool = λ v. v.hypothesis_id == some hid in
    elim (Option-cases (find test ls)) [
      | inl n ↦ cc (find-none test k ls m n, (option_eq.beq_iff k.hypothesis_id (some hid)).1 e)
      | inr (l, f) ↦
          let (ml, t) = find-some test ls f in
          (l, f, ml, (option_eq.beq_iff l.hypothesis_id (some hid)).0 t)
    ]

-- The lineages that a candidate's bound retrieves: committed ones, then those in flight.
abbrev pub plausible_views :
    CommitmentSignature
    → Dict LineageKey (List LineageView)
    → Dict LineageKey (List LineageView)
    → List LineageView
plausible_views signature committed flying =
    get_list committed (candidate_key signature) ++ get_list flying (candidate_key signature)

module _ {F : Type 0} (u : Unicode) (candidate : CandidateProposal)
    (signature : CommitmentSignature) (resolver : Option (Resolver F))
    (committed flying : Dict LineageKey (List LineageView)) where
  abbrev pub first_committed : Option LineageView
  first_committed =
      find (exact_match u candidate signature) (get_list committed (candidate_key signature))

  abbrev pub first_in_flight : Option LineageView
  first_in_flight =
      find (exact_match u candidate signature) (get_list flying (candidate_key signature))

  pub adjudicate-committed :
      (l : LineageView)
      → first_committed ≡ some l
      → adjudicate u candidate signature resolver committed flying
        ≡ ok (match_or_park candidate signature false l)
  unfolding adjudicate
  adjudicate-committed l e = ground arith

  pub adjudicate-in_flight :
      (l : LineageView)
      → first_committed ≡ none
      → first_in_flight ≡ some l
      → adjudicate u candidate signature resolver committed flying
        ≡ ok (match_or_park candidate signature true l)
  unfolding adjudicate
  adjudicate-in_flight l e e' = ground arith

  pub adjudicate-inexact :
      first_committed ≡ none
      → first_in_flight ≡ none
      → adjudicate u candidate signature resolver committed flying
        ≡ decide_inexact candidate signature resolver (plausible_views signature committed flying)
  unfolding adjudicate
  adjudicate-inexact e e' = ground arith
