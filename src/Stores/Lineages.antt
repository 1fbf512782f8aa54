-- ===== src/Stores/Lineages.antt =====
-- `InMemoryHypothesisLineageStore` of src/sanuvia/adapters/persistence/in_memory.py: the immutable half of a
-- hypothesis, and the index by which the adjudicator retrieves it.
use sanuvia_reasoning_engine.Prelude.{
  String, ◌≡◌, ◌≢◌, ◌⊎◌, refl, sym, subst, inl, inr, false, ◌&&◌, some, List, [], ◌∷◌, ◌++◌,
}
use sanuvia_reasoning_engine.Prelude.Tests.{◌==◌, string_eq, pair_eq, Bool-cases, if◌then◌else◌}
use sanuvia_reasoning_engine.Prelude.Lists.{In, keep, In-append_left, In-append_right, In-append}
use sanuvia_reasoning_engine.Prelude.Dict.{
  Dict, get, has, put, values, get_list, append_at, get_list-append_at_self, get_list-append_at_ne,
  get-put_self, get-put_cases, get-put_new,
}
use sanuvia_reasoning_engine.Domain.Errors.{Result, ok, err, invariant_violation, ok-injective}
use sanuvia_reasoning_engine.Domain.Hypothesis.{HypothesisLineage}

-- Space, subject, subject of the signature, attribution
abbrev pub Bound : Type 0
Bound = String × (String × (String × String))

abbrev pub bound_of : HypothesisLineage → Bound
bound_of l = (l.space_id, (l.subject_id, (l.signature_subject, l.attribution)))

pub record LineageStore : Type 0 where
  pub lineages : Dict String HypothesisLineage
  pub by_key : Dict Bound (List String)

abbrev with_lineage : LineageStore → HypothesisLineage → LineageStore
with_lineage s l = record {
  lineages = put s.lineages l.hypothesis_id l;
  by_key = append_at s.by_key (bound_of l) l.hypothesis_id;
}

unfoldable pub add_lineage : LineageStore → HypothesisLineage → Result LineageStore
add_lineage s l =
    if has s.lineages l.hypothesis_id then err invariant_violation else ok (with_lineage s l)

pub find_by_key : LineageStore → Bound → List String
find_by_key s bound = get_list s.by_key bound

abbrev pub lineages_for_subject : LineageStore → String → String → List HypothesisLineage
lineages_for_subject s subject space =
    keep (λ (l : HypothesisLineage). l.subject_id == subject && l.space_id == space)
      (values s.lineages)

-- A bound retrieves exactly the lineages that have it.
abbrev pub IsRetrievable : LineageStore → Type 0
IsRetrievable s =
    ((hid : String) (l : HypothesisLineage)
      → get s.lineages hid ≡ some l
      → In hid (get_list s.by_key (bound_of l)))
    × ((bound : Bound) (hid : String)
        → In hid (get_list s.by_key bound)
        → (l : HypothesisLineage) × (get s.lineages hid ≡ some l) × (bound_of l ≡ bound))

pub add_lineage-ok :
    (s s' : LineageStore) (l : HypothesisLineage)
    → add_lineage s l ≡ ok s'
    → (has s.lineages l.hypothesis_id ≡ false) × (with_lineage s l ≡ s')
unfolding add_lineage
add_lineage-ok s s' l h = elim (Bool-cases (has s.lineages l.hypothesis_id)) [
  | inl t ↦ cc (rw t at h)
  | inr t ↦ (t, ok-injective (rw t at h))
]

-- What is retrieved by a bound once a lineage is added.
retrieved :
    (s : LineageStore) (l : HypothesisLineage) (bound : Bound)
    → ((bound_of l ≡ bound)
        × (get_list (with_lineage s l).by_key bound
            ≡ get_list s.by_key bound ++ l.hypothesis_id ∷ []))
      ⊎ ((bound_of l ≢ bound)
          × (get_list (with_lineage s l).by_key bound ≡ get_list s.by_key bound))
retrieved s l bound =
    let mine = bound_of l in
    elim (Bool-cases (mine == bound)) [
      | inl t ↦
          let p = (pair_eq.beq_iff mine bound).0 t in
          inl (
            p,
            subst
                (λ b.
                  get_list (with_lineage s l).by_key b
                  ≡ get_list s.by_key b ++ l.hypothesis_id ∷ [])
                p (get_list-append_at_self s.by_key mine l.hypothesis_id),
          )
      | inr t ↦
          let n : mine ≢ bound = λ p. cc ((pair_eq.beq_iff mine bound).1 p) in
          inr (n, get_list-append_at_ne s.by_key mine bound l.hypothesis_id n)
    ]

still_retrieved :
    (s : LineageStore) (l : HypothesisLineage) (bound : Bound) (hid : String)
    → In hid (get_list s.by_key bound)
    → In hid (get_list (with_lineage s l).by_key bound)
still_retrieved s l bound hid m = elim (retrieved s l bound) [
  | inl (p, q) ↦
      subst (In hid) (sym q) (In-append_left hid (get_list s.by_key bound) (l.hypothesis_id ∷ []) m)
  | inr (n, q) ↦ subst (In hid) (sym q) m
]

-- A lineage that is added is retrieved by its own bound.
new_is_retrieved :
    (s : LineageStore) (l : HypothesisLineage)
    → In l.hypothesis_id (get_list (with_lineage s l).by_key (bound_of l))
new_is_retrieved s l =
    let here = get_list s.by_key (bound_of l) in
    subst (In l.hypothesis_id) (sym (get_list-append_at_self s.by_key (bound_of l) l.hypothesis_id))
      (In-append_right l.hypothesis_id here (l.hypothesis_id ∷ []) (inl refl))

with_lineage-IsRetrievable :
    (s : LineageStore) (l : HypothesisLineage)
    → has s.lineages l.hypothesis_id ≡ false
    → IsRetrievable s
    → IsRetrievable (with_lineage s l)
with_lineage-IsRetrievable s l new (covered, sound) =
    let kept : (bound : Bound) (hid : String)
        → In hid (get_list s.by_key bound)
        → (k : HypothesisLineage) × (get (with_lineage s l).lineages hid ≡ some k)
          × (bound_of k ≡ bound) =
      λ bound hid m.
        let (k, g, q) = sound bound hid m in
        (k, get-put_new s.lineages l.hypothesis_id hid l new g, q) in
    (
      λ hid k g. elim (get-put_cases s.lineages l.hypothesis_id hid g) [
        | inl (p, q) ↦
            subst (λ x. In hid (get_list (with_lineage s l).by_key (bound_of x))) q
              (subst (λ i. In i (get_list (with_lineage s l).by_key (bound_of l))) p
                (new_is_retrieved s l))
        | inr (n, g') ↦ still_retrieved s l (bound_of k) hid (covered hid k g')
      ],
      λ bound hid m. elim (retrieved s l bound) [
        | inr (n, q) ↦ kept bound hid (subst (In hid) q m)
        | inl (p, q) ↦
            elim (In-append hid (get_list s.by_key bound) (l.hypothesis_id ∷ [])
              (subst (In hid) q m)) [
                | inl m' ↦ kept bound hid m'
                | inr (inl e) ↦ (
                  l,
                  subst (λ i. get (with_lineage s l).lineages i ≡ some l) e
                      (get-put_self s.lineages l.hypothesis_id l),
                  p,
                )
                | inr (inr z) ↦ absurd z
              ]
      ],
    )

-- Adding a lineage keeps every lineage retrievable by its bound, and by no other.
pub add_lineage-IsRetrievable :
    (s s' : LineageStore) (l : HypothesisLineage)
    → IsRetrievable s
    → add_lineage s l ≡ ok s'
    → IsRetrievable s'
add_lineage-IsRetrievable s s' l i h =
    let (new, e) = add_lineage-ok s s' l h in
    subst IsRetrievable e (with_lineage-IsRetrievable s l new i)

-- A lineage that is added comes last under its bound: the earlier ones under the bound stay, in their order,
-- and no other bound retrieves anything else than before.
pub add_lineage-find_by_key :
    (s s' : LineageStore) (l : HypothesisLineage)
    → add_lineage s l ≡ ok s'
    → (find_by_key s' (bound_of l) ≡ find_by_key s (bound_of l) ++ l.hypothesis_id ∷ [])
      × ((bound : Bound) → bound_of l ≢ bound → find_by_key s' bound ≡ find_by_key s bound)
unfolding find_by_key
add_lineage-find_by_key s s' l h =
    let (new, e) = add_lineage-ok s s' l h in
    subst
      (λ (z : LineageStore).
        (get_list z.by_key (bound_of l) ≡ get_list s.by_key (bound_of l) ++ l.hypothesis_id ∷ [])
        × ((bound : Bound)
            → bound_of l ≢ bound
            → get_list z.by_key bound ≡ get_list s.by_key bound))
      e
      (
        get_list-append_at_self s.by_key (bound_of l) l.hypothesis_id,
        λ bound n. get_list-append_at_ne s.by_key (bound_of l) bound l.hypothesis_id n,
      )
